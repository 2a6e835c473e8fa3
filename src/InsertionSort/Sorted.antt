-- ===== src/InsertionSort/Sorted.antt =====
-- `insertion` of insertionsort.c sorts.
use native.Mathlib.Numerals.{add-one}
use mathlib.Core.Path.{subst}
use oo_o_processor.Common.{
  ℕ, zero, suc, ◌+◌, ◌-◌, ◌≤◌, ◌<◌, ◌≡◌, refl, arith, ℤ, ◌≤ℤ◌, ltb_ℤ, Returns, returns,
  Returns-bind, Bool-cases, inl, inr, length,
}
use oo_o_processor.Array.{Ints, get, load-get}
use oo_o_processor.Array.Swaps.{Swaps, done, store-store, swapped, get-swapped, length-Swaps}
use oo_o_processor.Array.Sorted.{Sorts, Prefix, Prefix-start, Prefix-round, Prefix-Sorts}
use oo_o_processor.InsertionSort.{min_step, min_loop, insertion_round, insertion_loop, insertion}

-- `best` is the place and value of a least item among the cells [i, j).
record IsLeast (a : Ints) (i j : ℕ) (best : ℕ × ℤ) : Type 0 where
  bounds : (i ≤ best.0) × (best.0 < j)
  value : best.1 ≡ get a best.0
  least : (k : ℕ) → i ≤ k → k < j → best.1 ≤ℤ get a k

module _ {a : Ints} {i size : ℕ} (fits : size ≤ length a) where
  min_step-IsLeast :
      (j : ℕ) (best : ℕ × ℤ)
      → j < size
      → IsLeast a i j best
      → Returns (IsLeast a i (suc j)) (min_step a j best)
  unfolding min_step
  min_step-IsLeast j best h s =
      rw (load-get a j (omega arith)) (elim (Bool-cases (ltb_ℤ (get a j) best.1)) [
        | inl t ↦ rw t (
            returns (record {
              bounds = omega arith;
              value = refl;
              least = λ k p q. ground (arith, s.least k);
            }))
        | inr f ↦ rw f (
            returns (record {
              bounds = omega arith;
              value = s.value;
              least = λ k p q. ground (arith, s.least k);
            }))
      ])

  min_loop-IsLeast :
      (n j : ℕ) (best : ℕ × ℤ)
      → j + n ≡ size
      → IsLeast a i j best
      → Returns (IsLeast a i size) (min_loop n a j best)
  unfolding min_loop
  min_loop-IsLeast zero j best e s =
      let e' : j ≡ size = omega arith in returns (subst (λ m. IsLeast a i m best) e' s)
  min_loop-IsLeast (suc n) j best e s =
      Returns-bind (min_step-IsLeast j best (omega arith) s)
        λ best' t. min_loop-IsLeast n (j + 1) best' (omega arith) (rw add-one t)

-- The exchange that ends a round brings the least item of the rest to cell i.
selected :
    {a b : Ints} {size i : ℕ} {best : ℕ × ℤ}
    → size ≤ length a
    → i < size
    → Prefix size i a b
    → IsLeast b i size best
    → Prefix size (suc i) a (swapped b i best.0)
selected {a} {b} {size} {i} {best} fits h s m =
    let sb = length-Swaps s.swaps in
    let at = get-swapped b i best.0 in
    Prefix-round fits s (Swaps.swap i best.0 (omega arith) (omega arith) done)
      λ k p q. ground (arith, at i, at k, m.least i, m.least k, m.value)

insertion_round-Prefix :
    {a b : Ints} {size : ℕ} (i : ℕ)
    → size ≤ length a
    → i < size
    → Prefix size i a b
    → Returns (Prefix size (suc i) a) (insertion_round size i b)
unfolding insertion_round
insertion_round-Prefix {b} {size} i fits h s =
    let sb = length-Swaps s.swaps in
    rw (load-get b i (omega arith)) (
      Returns-bind
        (min_loop-IsLeast {size = size} (omega arith) (size - (i + 1)) (i + 1) (i, get b i)
          (omega arith)
          (rw add-one
            (record { bounds = omega arith; value = refl; least = λ k p q. ground arith })))
        λ (best : ℕ × ℤ) (m : IsLeast b i size best).
          rw (m.value, store-store b i best.0 (omega arith) (omega arith))
            (returns (selected fits h s m)))

insertion_loop-Sorts :
    {a : Ints} {size : ℕ}
    → size ≤ length a
    → (n i : ℕ) (b : Ints) → i + n ≡ size - 1
    → Prefix size i a b
    → Returns (Sorts 0 size a) (insertion_loop n size i b)
unfolding insertion_loop
insertion_loop-Sorts fits zero i b e s = returns (Prefix-Sorts (omega arith) s)
insertion_loop-Sorts fits (suc n) i b e s =
    Returns-bind (insertion_round-Prefix i fits (omega arith) s)
      λ c t. insertion_loop-Sorts fits n (i + 1) c (omega arith) (rw add-one t)

-- With `size` at most the array's length, `insertion` returns, has sorted the first `size` cells in
-- ascending order, and has only exchanged cells among them.
pub insertion-Sorts :
    (a : Ints) (size : ℕ) → size ≤ length a → Returns (Sorts 0 size a) (insertion a size)
unfolding insertion
insertion-Sorts a size fits = insertion_loop-Sorts fits (size - 1) 0 a (omega arith) Prefix-start
