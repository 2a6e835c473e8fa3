-- ===== src/Graph/Fifo.antt =====
-- The queue of graph.c is a first-in first-out queue as long as enqueue is called forty times at most.
use oo_o_processor.Common.{
  ℕ, ◌+◌, ◌≤◌, ◌<◌, ◌≡◌, refl, ◌∙◌, arith, true, false, List, [], ◌∷◌, ◌++◌, ℤ, pos, negsuc, ◌+ℤ◌,
  ◌==ℤ◌, ltb_ℤ, length, Returns, returns, ok,
}
use oo_o_processor.Array.{Ints, get, set, load-get, store-set, get-set, length-set}
use oo_o_processor.Graph.{Queue, is_empty, item, set_item, enqueue, reset, dequeue}

-- The cells from `first` up to `last`, without it, hold the list.
pub data Block (a : Ints) (last : ℕ) : ℕ → List ℤ → Type 0 where
  nil : Block a last last []
  cons :
      {x : ℤ} {xs : List ℤ} (first : ℕ)
      → get a first ≡ x
      → Block a last (first + 1) xs
      → Block a last first (x ∷ xs)

-- The queue holds the list, and has used at most `used` cells.
pub data Holds (used : ℕ) (q : Queue) : List ℤ → Type 0 where
  empty : length q.items ≡ 40 → q.front ≡ negsuc 0 → q.rear ≡ negsuc 0 → Holds used q []
  filled :
      {x : ℤ} {xs : List ℤ} (first last : ℕ)
      → length q.items ≡ 40
      → q.front ≡ pos first
      → q.rear ≡ pos last
      → last < used
      → Block q.items (last + 1) first (x ∷ xs)
      → Holds used q (x ∷ xs)

Block-order : {a : Ints} {last first : ℕ} {xs : List ℤ} → Block a last first xs → first ≤ last
Block-order nil = omega arith
Block-order (cons first e rest) = omega (arith, Block-order rest)

Block-first :
    {a : Ints} {last first : ℕ} {x : ℤ} {xs : List ℤ}
    → Block a last first (x ∷ xs)
    → (get a first ≡ x) × (first < last) × Block a last (first + 1) xs
Block-first (cons first at rest) = (at, omega (arith, Block-order rest), rest)

Block-append :
    {a : Ints} {last first : ℕ} {xs : List ℤ} (v : ℤ)
    → last < length a
    → Block a last first xs
    → Block (set a last v) (last + 1) first (xs ++ v ∷ [])
Block-append {a = a} {last = last} v h nil = cons last (ground (arith, get-set a last last v h)) nil
Block-append {a = a} {last = last} v h (cons first e rest) =
    cons first (ground (arith, get-set a last first v h, e, Block-order rest))
      (Block-append v h rest)

rear-next : (n : ℕ) → pos n +ℤ pos 1 ≡ pos (n + 1)
unfolding ◌+ℤ◌
rear-next n = ground arith

rear-first : negsuc 0 +ℤ pos 1 ≡ pos 0
unfolding ◌+ℤ◌
rear-first = refl

not_last : (n : ℕ) → n < 39 → (pos n ==ℤ pos 39) ≡ false
not_last n h = ground arith

pub in_use : (n : ℕ) → (pos n ==ℤ negsuc 0) ≡ false
in_use n = ground arith

passed : (m n : ℕ) → m < n → ltb_ℤ (pos m) (pos n) ≡ true
passed m n h = ground arith

not_passed : (m n : ℕ) → n ≤ m → ltb_ℤ (pos m) (pos n) ≡ false
not_passed m n h = ground arith

-- With room for one more, enqueue puts the item behind the others.
pub enqueue-Holds :
    {used : ℕ} {q : Queue} {xs : List ℤ} (v : ℤ)
    → used < 40
    → Holds used q xs
    → Returns (λ r. Holds (used + 1) r (xs ++ v ∷ [])) (enqueue q v)
unfolding enqueue set_item
enqueue-Holds {q = q} v room (empty size f e) =
    rw (f, e, rear-first, store-set q.items 0 v (omega (arith, size)))
      (returns (
        filled 0 0 (length-set q.items 0 v ∙ size) refl refl (omega arith)
          (Block-append v (omega (arith, size)) nil)))
enqueue-Holds {q = q} v room (filled first last size f e h block) =
    rw
      (
        f,
        e,
        not_last last (omega arith),
        in_use first,
        rear-next last,
        store-set q.items (last + 1) v (omega (arith, size)),
      )
      (returns (
        filled first (last + 1) (length-set q.items (last + 1) v ∙ size) refl refl (omega arith)
          (Block-append v (omega (arith, size)) block)))

reset-Holds :
    {used end first : ℕ} {a : Ints} {xs : List ℤ} (last : ℕ)
    → length a ≡ 40
    → last < used
    → end ≡ last + 1
    → Block a end first xs
    → Holds used (reset (record { items = a; front = pos first; rear = pos last })) xs
unfolding reset
reset-Holds {end = end} {a = a} last size h e nil =
    rw (passed last end (omega arith)) (empty size refl refl)
reset-Holds last size h e (cons first at rest) =
    rw (not_passed last first (omega (arith, Block-order rest)))
      (filled first last size refl refl h (rw e at (cons first at rest)))

pub dequeue-Holds-nil : {used : ℕ} {q : Queue} → Holds used q [] → dequeue q ≡ ok (negsuc 0, q)
unfolding dequeue is_empty
dequeue-Holds-nil (empty size f e) = rw e refl

pub dequeue-Holds-cons :
    {used : ℕ} {q : Queue} {x : ℤ} {xs : List ℤ}
    → used ≤ 40
    → Holds used q (x ∷ xs)
    → Returns (λ r. (r.0 ≡ x) × Holds used r.1 xs) (dequeue q)
unfolding dequeue is_empty item
dequeue-Holds-cons {q = q} fits (filled first last size f e h block) =
    let b = Block-first block in
    rw (f, e, in_use last, load-get q.items first (omega (arith, size, b.1)), rear-next first)
      (returns (b.0, reset-Holds last size h refl b.2))
