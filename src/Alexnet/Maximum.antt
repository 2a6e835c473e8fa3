-- ===== src/Alexnet/Maximum.antt =====
-- fc_soft_max of alexnet.c.
use oo_o_processor.Common.{
  ℕ, ◌+◌, ◌-◌, ◌≤◌, ◌<◌, ◌≡◌, arith, ltb_ℤ, ◌<ℤ◌, ◌≤ℤ◌, true, false, for_loop-inv, length, Returns,
  returns, if_both,
}
use oo_o_processor.Array.{Ints, get, load-get}
use oo_o_processor.Alexnet.{fc_max_round, fc_soft_max}

-- The first of the greatest items among the first n.
pub record FirstMaximum (a : Ints) (n m : ℕ) : Type 0 where
  pub inside : m < n
  pub greatest : (k : ℕ) → k < n → get a k ≤ℤ get a m
  pub first : (k : ℕ) → k < m → get a k <ℤ get a m

module _ (a : Ints) where
  greater :
      (i m : ℕ) → ltb_ℤ (get a m) (get a i) ≡ true → FirstMaximum a i m → FirstMaximum a (i + 1) i
  greater i m t f = record {
    inside = omega arith;
    greatest = λ k h. ground (arith, f.greatest k);
    first = λ k h. ground (arith, f.greatest k h);
  }

  no_greater :
      (i m : ℕ) → ltb_ℤ (get a m) (get a i) ≡ false → FirstMaximum a i m → FirstMaximum a (i + 1) m
  no_greater i m t f = record {
    inside = omega (arith, f.inside);
    greatest = λ k h. ground (arith, f.greatest k);
    first = f.first;
  }

  round-FirstMaximum :
      (i m : ℕ)
      → i < length a
      → FirstMaximum a i m
      → Returns (FirstMaximum a (i + 1)) (fc_max_round a i m)
  unfolding fc_max_round
  round-FirstMaximum i m h f =
      rw (load-get a m (omega (arith, f.inside)), load-get a i h)
        (returns (
          if_both (FirstMaximum a (i + 1)) (ltb_ℤ (get a m) (get a i)) (λ t. greater i m t f)
            (λ t. no_greater i m t f)))

  -- On features of which the first feature_num, at least one, are there, fc_soft_max returns the index
  -- of the greatest of them, and the first one where there are several.
  pub fc_soft_max-FirstMaximum :
      (feature_num : ℕ)
      → 0 < feature_num
      → feature_num ≤ length a
      → Returns (FirstMaximum a feature_num) (fc_soft_max a feature_num)
  unfolding fc_soft_max
  fc_soft_max-FirstMaximum feature_num some fits =
      for_loop-inv (FirstMaximum a) (fc_max_round a) (feature_num - 1) 1 feature_num (omega arith)
        (λ i m lo hi f. round-FirstMaximum i m (omega arith) f) 0
        (record {
          inside = omega arith;
          greatest = λ k h. let e : k ≡ 0 = omega arith in rw e (omega arith);
          first = λ k h. absurd (omega arith);
        })
