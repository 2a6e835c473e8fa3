-- ===== src/SortSearch/Bubble.antt =====
-- `bubble` of sort_search.c sorts.
use native.Mathlib.Numerals.{add-one}
use mathlib.Core.Path.{subst}
use oo_o_processor.Common.{
  ℕ, zero, suc, ◌+◌, ◌-◌, ◌≤◌, ◌<◌, ◌≡◌, arith, ◌≤ℤ◌, ltb_ℤ, Returns, returns, Returns-bind,
  Bool-cases, inl, inr, length,
}
use oo_o_processor.Array.{Ints, get, load-get}
use oo_o_processor.Array.Swaps.{Swaps, done, store-store, get-swapped, length-Swaps}
use oo_o_processor.Array.Sorted.{Sorts, Prefix, Prefix-start, Prefix-round, Prefix-Sorts}
use oo_o_processor.SortSearch.{bubble_step, bubble_round, bubble_loop, bubble}

-- Cell i holds a least item of the cells [i, j).
record Least (size i j : ℕ) (a b : Ints) : Type 0 where
  swaps : Swaps i size a b
  least : (k : ℕ) → i < k → k < j → get b i ≤ℤ get b k

module _ {a : Ints} {i size : ℕ} (fits : size ≤ length a) where
  bubble_step-Least :
      (j : ℕ) (b : Ints)
      → i < j
      → j < size
      → Least size i j a b
      → Returns (Least size i (suc j) a) (bubble_step i j b)
  unfolding bubble_step
  bubble_step-Least j b l h s =
      let sb = length-Swaps s.swaps in
      rw (load-get b j (omega arith), load-get b i (omega arith))
        (elim (Bool-cases (ltb_ℤ (get b j) (get b i))) [
          | inl t ↦
              let at = get-swapped b j i in
              rw (t, store-store b j i (omega arith) (omega arith))
                (returns (record {
                  swaps = Swaps.swap j i (omega arith) (omega arith) s.swaps;
                  least = λ k p q. ground (arith, at k, at i, s.least k);
                }))
          | inr f ↦
              rw f
                (returns (record { swaps = s.swaps; least = λ k p q. ground (arith, s.least k) }))
        ])

  bubble_round-Least :
      (n j : ℕ) (b : Ints)
      → j + n ≡ size
      → i < j
      → Least size i j a b
      → Returns (Least size i size a) (bubble_round n i j b)
  unfolding bubble_round
  bubble_round-Least zero j b e l s =
      let e' : j ≡ size = omega arith in returns (subst (λ m. Least size i m a b) e' s)
  bubble_round-Least (suc n) j b e l s =
      Returns-bind (bubble_step-Least j b l (omega arith) s)
        λ c t. bubble_round-Least n (j + 1) c (omega arith) (omega arith) (rw add-one t)

Least-start : {size i : ℕ} {a : Ints} → Least size i (i + 1) a a
Least-start = record { swaps = done; least = λ k p q. absurd (omega arith) }

bubble_loop-Sorts :
    {a : Ints} {size : ℕ}
    → size ≤ length a
    → (n i : ℕ) (b : Ints) → i + n ≡ size - 1
    → Prefix size i a b
    → Returns (Sorts 0 size a) (bubble_loop n size i b)
unfolding bubble_loop
bubble_loop-Sorts fits zero i b e s = returns (Prefix-Sorts (omega arith) s)
bubble_loop-Sorts {size} fits (suc n) i b e s =
    let sb = length-Swaps s.swaps in
    Returns-bind
      (bubble_round-Least {size = size} (omega arith) (size - (i + 1)) (i + 1) b (omega arith)
        (omega arith) Least-start)
      λ c t.
        bubble_loop-Sorts fits n (i + 1) c (omega arith)
          (rw add-one (Prefix-round fits s t.swaps t.least))

-- With `size` at most the array's length, `bubble` returns, has sorted the first `size` cells in
-- ascending order, and has only exchanged cells among them.
pub bubble-Sorts :
    (a : Ints) (size : ℕ) → size ≤ length a → Returns (Sorts 0 size a) (bubble a size)
unfolding bubble
bubble-Sorts a size fits = bubble_loop-Sorts fits (size - 1) 0 a (omega arith) Prefix-start
