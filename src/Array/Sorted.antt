-- ===== src/Array/Sorted.antt =====
-- What it is to sort a range of an array, and the round that selection and exchange sort share.
use oo_o_processor.Common.{ℕ, suc, ◌≤◌, ◌<◌, arith, ◌≤ℤ◌, length}
use oo_o_processor.Array.{Ints, get}
use oo_o_processor.Array.Swaps
use oo_o_processor.Array.Swaps.{Swaps, done, widen, length-Swaps, get-Swaps, all-Swaps}

-- The cells of [lo, hi) ascend.
abbrev pub IsSortedIn : Ints → ℕ → ℕ → Type 0
IsSortedIn a lo hi = (i j : ℕ) → lo ≤ i → i < j → j < hi → get a i ≤ℤ get a j

-- `b` is `a` with its range [lo, hi) sorted, by exchanges inside that range.
pub record Sorts (lo hi : ℕ) (a b : Ints) : Type 0 where
  pub swaps : Swaps lo hi a b
  pub sorted : IsSortedIn b lo hi

-- The cells below `i` hold the least items, in order.
pub record Prefix (size i : ℕ) (a b : Ints) : Type 0 where
  pub swaps : Swaps 0 size a b
  pub sorted : (p q : ℕ) → p < i → p < q → q < size → get b p ≤ℤ get b q

pub Prefix-start : {size : ℕ} {a : Ints} → Prefix size 0 a a
Prefix-start = record { swaps = done; sorted = λ p q x y z. absurd (omega arith) }

pub Prefix-Sorts : {size i : ℕ} {a b : Ints} → size ≤ suc i → Prefix size i a b → Sorts 0 size a b
Prefix-Sorts h s = record { swaps = s.swaps; sorted = λ p q x y z. s.sorted p q (omega arith) y z }

-- A round that brings a least item of [i, size) to cell i, by exchanges inside that range.
pub Prefix-round :
    {size i : ℕ} {a b c : Ints}
    → size ≤ length a
    → Prefix size i a b
    → Swaps i size b c
    → ((k : ℕ) → i < k → k < size → get c i ≤ℤ get c k)
    → Prefix size (suc i) a c
Prefix-round {size} {i} {a} {b} {c} fits s r least =
    let sb = length-Swaps s.swaps in
    let kept = λ (k : ℕ). get-Swaps {lo = i} {hi = size} {a = b} (omega arith) k r in
    let above : (p k : ℕ) → p < i → i ≤ k → k < size → get b p ≤ℤ get c k = λ p k h.
      all-Swaps {lo = i} {hi = size} {a = b} (omega arith) (λ v. get b p ≤ℤ v) r
        (λ k x y. s.sorted p k h (omega arith) y) k in
    record {
      swaps = Swaps.trans s.swaps (widen 0 size (omega arith) (omega arith) r);
      sorted = λ p q x y z. ground (arith, kept p, kept q, s.sorted p q, above p q, least q);
    }
