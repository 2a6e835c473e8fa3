-- ===== src/Graph.antt =====
-- The queue of test_progs/graph.c: struct queue with createQueue, isEmpty, enqueue and dequeue. It
-- fills its forty items once: the cells that dequeue has passed are used again only after the queue
-- was empty.
pub mod Fifo
pub mod Calls
pub mod LinkedList
pub mod DepthFirst
pub mod Adjacency
pub mod Towers
use oo_o_processor.Common.{
  ℕ, ℤ, pos, negsuc, ◌+ℤ◌, ltb_ℤ, ◌==ℤ◌, ◌==◌, Run, ok, fault, ◌>>=◌, if◌then◌else◌,
}
use oo_o_processor.Array.{Ints, load, store}

pub record Queue : Type 0 where
  pub items : Ints
  pub front : ℤ
  pub rear : ℤ

-- createQueue; `items` is what the memory from tj_malloc holds.
abbrev pub create_queue : Ints → Queue
create_queue items = record { items = items; front = negsuc 0; rear = negsuc 0 }

unfoldable pub is_empty : Queue → ℕ
is_empty q = if q.rear ==ℤ negsuc 0 then 1 else 0

-- q->items[i], with a fault for a negative index too.
unfoldable pub item : Queue → ℤ → Run ℤ
item q (pos i) = load q.items i
item q (negsuc n) = fault

-- q->items[i] = value
unfoldable pub set_item : Queue → ℤ → ℤ → Run Queue
set_item q (pos i) value = do
  items ← store q.items i value
  ok (record { items = items; front = q.front; rear = q.rear })
set_item q (negsuc n) value = fault

unfoldable pub enqueue : Queue → ℤ → Run Queue
enqueue q value =
    if q.rear ==ℤ pos 39
    then ok q
    else set_item
        (record {
          items = q.items;
          front = if q.front ==ℤ negsuc 0 then pos 0 else q.front;
          rear = q.rear +ℤ pos 1;
        })
        (q.rear +ℤ pos 1) value

-- The end of dequeue, with q->front raised.
unfoldable pub reset : Queue → Queue
reset q =
    if ltb_ℤ q.rear q.front
    then record { items = q.items; front = negsuc 0; rear = negsuc 0 }
    else q

-- The item, and the queue after it.
unfoldable pub dequeue : Queue → Run (ℤ × Queue)
unfolding is_empty
dequeue q = if is_empty q == 1 then ok (negsuc 0, q) else (do
  x ← item q q.front
  ok (x, reset (record { items = q.items; front = q.front +ℤ pos 1; rear = q.rear })))
