-- ===== src/Tests/Bounded.antt =====
-- A test of all numbers below a bound, for hypotheses at concrete inputs.
use mathlib.Core.Path.{subst}
use oo_o_processor.Common.{
  ℕ, zero, suc, ◌<◌, ◌≡◌, arith, Bool, true, ◌&&◌, ◌==◌, Bool-cases, inl, inr,
}

abbrev pub all_below : ℕ → (ℕ → Bool) → Bool
all_below zero p = true
all_below (suc n) p = p n && all_below n p

pub both_true : (b c : Bool) → (b && c) ≡ true → (b ≡ true) × (c ≡ true)
both_true b c h = (ground arith, ground arith)

pub below : (n : ℕ) (p : ℕ → Bool) → all_below n p ≡ true → (i : ℕ) → i < n → p i ≡ true
below zero p h i lt = absurd (omega arith)
below (suc n) p h i lt =
    let (last, earlier) = both_true (p n) (all_below n p) h in
    elim (Bool-cases (i == n)) [
      | inl t ↦ let e : n ≡ i = ground arith in subst (λ k. p k ≡ true) e last
      | inr f ↦ below n p earlier i (ground arith)
    ]
