-- ===== src/Tests/Chains.antt =====
-- Runs of the linked lists of graph.c and priority_queue.c, and their theorems at concrete inputs.
use oo_o_processor.Common.{
  ◌+◌, List, ◌≡◌, refl, [], ◌∷◌, arith, ok, none, some, Returns, ◌==◌, if◌then◌else◌, ℤ, pos,
  negsuc, Run, fault, ◌>>=◌,
}
use oo_o_processor.Nodes.{Ptr, null, node, Heap, write, deref, set_next, place, release}
use oo_o_processor.Nodes.Chain.{Chain, nil, cons}
use oo_o_processor.Graph.LinkedList.{bubble_sort}
use oo_o_processor.Graph.LinkedList.Sorted.{ListSorts, bubble_sort-ListSorts}
use oo_o_processor.PriorityQueue
use oo_o_processor.PriorityQueue.{
  Item, item, new_node, peek, pop, link, insert_behind, push, is_empty, push_all, drain, main_with,
}
use oo_o_processor.PriorityQueue.Insert.{inserted, Pushed, push-Pushed}
use oo_o_processor.PriorityQueue.Drain.{Emptied, all_used, all_given, main_with-Emptied}

abbrev three_numbers : Heap ℤ
three_numbers a =
    if a == 4
    then some (node (pos 7) 9)
    else if a == 9
    then some (node (negsuc 2) 2)
    else if a == 2
    then some (node (pos 5) null)
    else none

three_numbers-Chain : Chain three_numbers null 4 (4 ∷ 9 ∷ 2 ∷ []) (pos 7 ∷ negsuc 2 ∷ pos 5 ∷ [])
three_numbers-Chain =
    cons (record { ne_null = omega arith; holds = refl }) refl
      (cons (record { ne_null = omega arith; holds = refl }) refl
        (cons (record { ne_null = omega arith; holds = refl }) refl nil))

bubble_sort-ListSorts_example :
    Returns
      (ListSorts three_numbers 4 (4 ∷ 9 ∷ 2 ∷ []) (pos 7 ∷ negsuc 2 ∷ pos 5 ∷ []))
      (bubble_sort 3 4 three_numbers)
bubble_sort-ListSorts_example = bubble_sort-ListSorts 3 three_numbers-Chain (omega arith)

abbrev queue : Heap Item
queue a =
    if a == 4
    then some (node (item (pos 10) (pos 1)) 9)
    else if a == 9
    then some (node (item (pos 20) (pos 3)) null)
    else none

queue-Chain : Chain queue null 4 (4 ∷ 9 ∷ []) (item (pos 10) (pos 1) ∷ item (pos 20) (pos 3) ∷ [])
queue-Chain =
    cons (record { ne_null = omega arith; holds = refl }) refl
      (cons (record { ne_null = omega arith; holds = refl }) refl nil)

push-Pushed_example :
    Returns
      (Pushed queue 5
        (4 ∷ 9 ∷ [])
        (inserted (item (pos 30) (pos 2)) (item (pos 10) (pos 1) ∷ item (pos 20) (pos 3) ∷ [])))
      (push 2 4 5 (pos 30) (pos 2) queue)
push-Pushed_example =
    push-Pushed 2 (pos 30) (pos 2) (omega arith) refl queue-Chain (omega arith) (omega arith)

push_run : push 2 null 5 (pos 30) (pos 2) queue ≡ fault
unfolding push new_node place deref write
push_run = refl

abbrev later : List (Ptr × ℤ × ℤ)
later = (2, pos 5, pos 2) ∷ (3, pos 6, pos 3) ∷ (4, pos 7, pos 0) ∷ []

main_with-Emptied_example :
    Returns
      (Emptied
        (λ a. none)
        (all_used later (λ a. a == 1))
        (all_given later (item (pos 4) (pos 1) ∷ [])))
      (main_with 5 1 (pos 4) (pos 1) later λ a. none)
main_with-Emptied_example =
    main_with-Emptied 5 1 (pos 4) (pos 1) later (λ a. none) (omega arith)
      ((omega arith, refl, (omega arith, refl, (omega arith, refl, tt)))) (omega arith)

printed : Run (List ℤ)
printed = do (ds, h) ← PriorityQueue.main (λ k. k + 1) (λ a. none); ok ds

printed_run : printed ≡ ok (pos 7 ∷ pos 4 ∷ pos 5 ∷ pos 6 ∷ [])
unfolding printed PriorityQueue.main main_with push_all push new_node place deref write
    insert_behind link set_next drain peek pop release is_empty
printed_run = refl
