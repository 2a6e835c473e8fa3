-- ===== src/Graph/LinkedList.antt =====
-- The linked list of test_progs/graph.c: insertAtTheBegin, swap, bubbleSort, link_list. `alloc` is what
-- tj_malloc returns in a memory.
pub mod Pass
pub mod Sorted
use oo_o_processor.Common.{
  ℕ, zero, suc, ℤ, pos, ltb_ℤ, Bool, true, false, Run, ok, out_of_fuel, ◌>>=◌, ◌==◌, if◌then◌else◌,
  List, [], ◌∷◌,
}
use oo_o_processor.Nodes.{Ptr, null, Node, Heap, deref, set_item, place}

-- The new *start_ref, and the memory.
unfoldable pub insert_at_the_begin : (Heap ℤ → Ptr) → Ptr → ℤ → Heap ℤ → Run (Ptr × Heap ℤ)
insert_at_the_begin alloc start value h = do h' ← place h (alloc h) value start; ok (alloc h, h')

unfoldable pub swap : Ptr → Ptr → Heap ℤ → Run (Heap ℤ)
swap a b h = do m ← deref h a; n ← deref h b; h' ← set_item h a n.item; set_item h' b m.item

-- The body of the inner loop up to its last line: `q` is ptr1->next.
unfoldable pub compare_step : Ptr → Ptr → Bool → Heap ℤ → Run (Bool × Heap ℤ)
compare_step p q swapped h = do
  m ← deref h p
  n ← deref h q
  let exchanged = do h' ← swap p q h; ok (true, h')
  if ltb_ℤ n.item m.item then exchanged else ok (swapped, h)

-- The inner loop, from ptr1 = p: the last ptr1, swapped, and the memory.
unfoldable pub bubble_pass : ℕ → Ptr → Ptr → Bool → Heap ℤ → Run (Ptr × Bool × Heap ℤ)
bubble_pass zero p lptr swapped h = out_of_fuel
bubble_pass (suc fuel) p lptr swapped h = do
  n ← deref h p
  let further = do
    (swapped', h') ← compare_step p n.next swapped h
    bubble_pass fuel n.next lptr swapped' h'
  if n.next == lptr then ok (p, swapped, h) else further

-- The do-while loop.
unfoldable pub bubble_rounds : ℕ → Ptr → Ptr → Heap ℤ → Run (Heap ℤ)
bubble_rounds zero start lptr h = out_of_fuel
bubble_rounds (suc fuel) start lptr h = do
  (p, swapped, h') ← bubble_pass (suc fuel) start lptr false h
  let again = bubble_rounds fuel start p h'
  if swapped then again else ok h'

-- The fuel bounds the rounds, and the steps of a round.
unfoldable pub bubble_sort : ℕ → Ptr → Heap ℤ → Run (Heap ℤ)
bubble_sort fuel start h = if start == null then ok h else bubble_rounds fuel start null h

-- for (i = 0; i < 6; i++) insertAtTheBegin(&start, arr[i])
unfoldable pub insert_all : (Heap ℤ → Ptr) → List ℤ → Ptr → Heap ℤ → Run (Ptr × Heap ℤ)
insert_all alloc [] start h = ok (start, h)
insert_all alloc (x ∷ xs) start h = do
  (start', h') ← insert_at_the_begin alloc start x h
  insert_all alloc xs start' h'

unfoldable pub link_list : (Heap ℤ → Ptr) → Heap ℤ → Run (Heap ℤ)
link_list alloc h = do
  (start, h') ← insert_all alloc (pos 12 ∷ pos 56 ∷ pos 2 ∷ pos 11 ∷ pos 1 ∷ pos 90 ∷ []) null h
  bubble_sort 7 start h'
