-- ===== src/PriorityQueue.antt =====
-- test_progs/priority_queue.c: newNode, peek, pop, push, isEmpty, main, on nodes at addresses. What
-- tj_malloc returns is an argument of each function that calls it.
pub mod Insert
pub mod Order
pub mod Drain
use oo_o_processor.Common.{
  ℕ, zero, suc, ℤ, pos, ltb_ℤ, Bool, Run, ok, out_of_fuel, ◌>>=◌, ◌==◌, if◌then◌else◌, List, [],
  ◌∷◌,
}
use oo_o_processor.Nodes.{Ptr, null, Heap, deref, set_next, place, release}

-- The fields of a Node but next. A lower priority goes first.
pub record Item : Type 0 where
  pub value : ℤ
  pub priority : ℤ

abbrev pub item : ℤ → ℤ → Item
item d p = record { value = d; priority = p }

unfoldable pub new_node : Ptr → ℤ → ℤ → Heap Item → Run (Heap Item)
new_node temp d p h = place h temp (item d p) null

unfoldable pub peek : Ptr → Heap Item → Run ℤ
peek head h = do n ← deref h head; ok n.item.value

-- The new *head, and the memory.
unfoldable pub pop : Ptr → Heap Item → Run (Ptr × Heap Item)
pop head h = do n ← deref h head; h' ← release h head; ok (n.next, h')

-- temp->next = next; start->next = temp
unfoldable pub link : Ptr → Ptr → Ptr → Heap Item → Run (Heap Item)
link start temp next h = do h' ← set_next h temp next; set_next h' start temp

-- The else branch of push: the walk, and the two writes at its end.
unfoldable pub insert_behind : ℕ → Ptr → Ptr → ℤ → Heap Item → Run (Heap Item)
insert_behind zero start temp p h = out_of_fuel
insert_behind (suc fuel) start temp p h = do
  n ← deref h start
  let later = do
    m ← deref h n.next
    let further = insert_behind fuel n.next temp p h
    if ltb_ℤ m.item.priority p then further else link start temp n.next h
  if n.next == null then link start temp n.next h else later

-- The new *head, and the memory.
unfoldable pub push : ℕ → Ptr → Ptr → ℤ → ℤ → Heap Item → Run (Ptr × Heap Item)
push fuel head temp d p h = do
  h' ← new_node temp d p h
  m ← deref h' head
  let before = do h'' ← set_next h' temp head; ok (temp, h'')
  let behind = do h'' ← insert_behind fuel head temp p h'; ok (head, h'')
  if ltb_ℤ p m.item.priority then before else behind

unfoldable pub is_empty : Ptr → Bool
is_empty head = head == null

-- The pushes, one after the other, each with what tj_malloc returns for it.
unfoldable pub push_all : ℕ → List (Ptr × ℤ × ℤ) → Ptr → Heap Item → Run (Ptr × Heap Item)
push_all fuel [] head h = ok (head, h)
push_all fuel ((temp, d, p) ∷ items) head h = do
  (head', h') ← push fuel head temp d p h
  push_all fuel items head' h'

-- The loop of main, with what it prints under DEBUG.
unfoldable pub drain : ℕ → Ptr → Heap Item → Run (List ℤ × Heap Item)
drain zero head h = out_of_fuel
drain (suc fuel) head h =
    let round = do
      d ← peek head h
      (head', h') ← pop head h
      (ds, g) ← drain fuel head' h'
      ok (d ∷ ds, g)
    in if is_empty head then ok ([], h) else round

-- A queue of one item, the pushes, and the loop.
unfoldable pub main_with :
    ℕ → Ptr → ℤ → ℤ → List (Ptr × ℤ × ℤ) → Heap Item → Run (List ℤ × Heap Item)
main_with fuel temp d p items h = do
  h' ← new_node temp d p h
  (head, h'') ← push_all fuel items temp h'
  drain fuel head h''

unfoldable pub main : (ℕ → Ptr) → Heap Item → Run (List ℤ × Heap Item)
main malloc h =
    main_with 5 (malloc 0) (pos 4) (pos 1)
      ((malloc 1, pos 5, pos 2) ∷ (malloc 2, pos 6, pos 3) ∷ (malloc 3, pos 7, pos 0) ∷ []) h
