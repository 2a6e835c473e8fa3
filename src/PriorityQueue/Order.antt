-- ===== src/PriorityQueue/Order.antt =====
-- The order of the priority queue, and what an insertion keeps of it.
use oo_o_processor.Common.{
  ℕ, ◌+◌, ◌≡◌, refl, arith, ◌≤ℤ◌, ◌==ℤ◌, ltb_ℤ, ◌&&◌, List, [], ◌∷◌, if◌then◌else◌, Bool-cases, inl,
  inr,
}
use oo_o_processor.PriorityQueue.{Item}
use oo_o_processor.PriorityQueue.Insert.{before, inserted}

-- Each item's priority is at most the next one's.
abbrev pub InOrder : List Item → Type 0
InOrder [] = Unit
InOrder (x ∷ []) = Unit
InOrder (x ∷ y ∷ r) = (x.priority ≤ℤ y.priority) × InOrder (y ∷ r)

-- How often an item occurs.
unfoldable pub occurs : Item → List Item → ℕ
occurs z [] = 0
occurs z (x ∷ xs) =
    (if x.value ==ℤ z.value && x.priority ==ℤ z.priority then 1 else 0) + occurs z xs

before-InOrder :
    (z x : Item) (xs : List Item)
    → x.priority ≤ℤ z.priority
    → InOrder (x ∷ xs)
    → InOrder (x ∷ before z xs)
unfolding before
before-InOrder z x [] h s = (h, tt)
before-InOrder z x (y ∷ ys) h (k, s) = elim (Bool-cases (ltb_ℤ y.priority z.priority)) [
  | inl t ↦ rw t (k, before-InOrder z y ys (ground arith) s)
  | inr t ↦ rw t (h, (ground arith, s))
]

pub inserted-InOrder : (z : Item) (xs : List Item) → InOrder xs → InOrder (inserted z xs)
unfolding inserted
inserted-InOrder z [] s = tt
inserted-InOrder z (x ∷ xs) s = elim (Bool-cases (ltb_ℤ z.priority x.priority)) [
  | inl t ↦ rw t (ground arith, s)
  | inr t ↦ rw t (before-InOrder z x xs (ground arith) s)
]

occurs-before : (v z : Item) (xs : List Item) → occurs v (before z xs) ≡ occurs v (z ∷ xs)
unfolding before occurs
occurs-before v z [] = refl
occurs-before v z (y ∷ ys) = elim (Bool-cases (ltb_ℤ y.priority z.priority)) [
  | inl t ↦ rw t (omega (arith, occurs-before v z ys))
  | inr t ↦ rw t refl
]

pub occurs-inserted : (v z : Item) (xs : List Item) → occurs v (inserted z xs) ≡ occurs v (z ∷ xs)
unfolding inserted occurs
occurs-inserted v z [] = refl
occurs-inserted v z (x ∷ xs) = elim (Bool-cases (ltb_ℤ z.priority x.priority)) [
  | inl t ↦ rw t refl
  | inr t ↦ rw t (omega (arith, occurs-before v z xs))
]
