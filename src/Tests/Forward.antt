-- ===== src/Tests/Forward.antt =====
-- Runs of fc_forward.c, and its theorem at an input that meets its hypotheses.
use oo_o_processor.Common.{
  zero, suc, ◌≡◌, refl, arith, pos, negsuc, true, fault, [], ◌∷◌, replicate, ◌+ℤ◌, ◌*ℤ◌, Returns,
  for_loop,
}
use oo_o_processor.Array.{Ints, load, store, set, get}
use oo_o_processor.FcForward
use oo_o_processor.FcForward.{is_int, to_int, kernel_round, kernel, init_round}
use oo_o_processor.FcForward.Dot.{Fits, dot, Forward, kernel-Forward}

abbrev vec_a : Ints
vec_a = pos 3 ∷ negsuc 1 ∷ pos 0 ∷ pos 46340 ∷ []

abbrev vec_b : Ints
vec_b = pos 5 ∷ pos 4 ∷ pos 9 ∷ pos 46340 ∷ []

-- Weights of sixteen bits, as main takes them, are too large: their product leaves an int.
fc_forward_main_faults :
    FcForward.main (λ i. 65535) (replicate 4 (pos 0)) (replicate 4 (pos 0)) (replicate 4 (pos 0))
    ≡ fault
unfolding FcForward.main init_round kernel kernel_round to_int is_int for_loop load store set ◌+ℤ◌
    ◌*ℤ◌
fc_forward_main_faults = refl

vec_Fits : Fits vec_a vec_b 4
unfolding is_int dot get ◌+ℤ◌ ◌*ℤ◌
vec_Fits zero h = (refl, refl)
vec_Fits (suc zero) h = (refl, refl)
vec_Fits (suc (suc zero)) h = (refl, refl)
vec_Fits (suc (suc (suc zero))) h = (refl, refl)
vec_Fits (suc (suc (suc (suc i)))) h = absurd (omega arith)

vec_last : is_int (dot vec_a vec_b 4 +ℤ pos 10) ≡ true
unfolding is_int dot get ◌+ℤ◌ ◌*ℤ◌
vec_last = refl

kernel-Forward_example :
    Returns (Forward vec_a vec_b 4 (pos 10)) (kernel 4 vec_a vec_b (replicate 4 (pos 0)) (pos 10))
kernel-Forward_example =
    kernel-Forward 4 vec_a vec_b (replicate 4 (pos 0)) (pos 10) refl refl refl vec_Fits vec_last
