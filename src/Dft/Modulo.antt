-- ===== src/Dft/Modulo.antt =====
-- modulo_m of dft.c is the remainder modulo 17, for every short.
use oo_o_processor.Common.{
  ℕ, zero, suc, ◌+◌, ◌-◌, ◌*◌, ◌%◌, ◌^◌, ◌<◌, ◌≤◌, ◌≡◌, ap, arith, ℤ, pos, negsuc, ◌+ℤ◌, ◌-ℤ◌, ltb,
  ltb→lt, Bool-cases, inl, inr, ◌∙◌, leb_ℤ, ok,
}
use oo_o_processor.Dft.{to_short, raise, lower, modulo_m}

to_short-pos : (n : ℕ) → n < 2 ^ 15 → to_short (pos n) ≡ pos n
unfolding to_short
to_short-pos n h = ground arith

to_short-negsuc : (n : ℕ) → n < 2 ^ 15 → to_short (negsuc n) ≡ negsuc n
unfolding to_short
to_short-negsuc n h = ground arith

add_small : (n : ℕ) → n < 17 → negsuc n +ℤ pos 17 ≡ pos (16 - n)
unfolding ◌+ℤ◌
add_small n h = ground arith

add_large : (n : ℕ) → 17 ≤ n → negsuc n +ℤ pos 17 ≡ negsuc (n - 17)
unfolding ◌+ℤ◌
add_large n h = ground arith

subtract : (n : ℕ) → 17 ≤ n → pos n -ℤ pos 17 ≡ pos (n - 17)
unfolding ◌-ℤ◌
subtract n h = ground arith

raise-pos : (fuel n : ℕ) → raise (suc fuel) (pos n) ≡ ok (pos n)
unfolding raise
raise-pos fuel n = ground arith

raise_round :
    (fuel n : ℕ) → raise (suc fuel) (negsuc n) ≡ raise fuel (to_short (negsuc n +ℤ pos 17))
unfolding raise
raise_round fuel n = ground arith

raise-negsuc :
    (fuel n : ℕ) → n < 2 ^ 15 → n + 17 < 17 * fuel → raise fuel (negsuc n) ≡ ok (pos (16 - n % 17))
raise-negsuc zero n small h = absurd (omega arith)
raise-negsuc (suc zero) n small h = absurd (omega arith)
raise-negsuc (suc (suc fuel)) n small h = elim (Bool-cases (ltb n 17)) [
  | inl t ↦
      let less : n < 17 = ltb→lt n 17 t in
      rw (raise_round (suc fuel) n, add_small n less, to_short-pos (16 - n) (omega arith))
        (raise-pos fuel (16 - n) ∙ ap (λ k. ok (pos k)) (omega arith))
  | inr f ↦
      let more : 17 ≤ n = ground arith in
      rw (raise_round (suc fuel) n, add_large n more, to_short-negsuc (n - 17) (omega arith))
        (raise-negsuc (suc fuel) (n - 17) (omega arith) (omega arith)
          ∙ ap (λ k. ok (pos k)) (omega arith))
]

lower-pos : (fuel n : ℕ) → n < 2 ^ 15 → n < 17 * fuel → lower fuel (pos n) ≡ ok (pos (n % 17))
unfolding lower
lower-pos zero n small h = absurd (omega arith)
lower-pos (suc fuel) n small h = elim (Bool-cases (leb_ℤ (pos 17) (pos n))) [
  | inl t ↦
      let more : 17 ≤ n = ground arith in
      rw (t, subtract n more, to_short-pos (n - 17) (omega arith))
        (lower-pos fuel (n - 17) (omega arith) (omega arith) ∙ ap (λ k. ok (pos k)) (omega arith))
  | inr f ↦ let less : n < 17 = ground arith in rw f (ap (λ k. ok (pos k)) (omega arith))
]

-- The remainder of an integer modulo 17.
abbrev pub mod17 : ℤ → ℕ
mod17 (pos n) = n % 17
mod17 (negsuc n) = 16 - n % 17

-- The values of a short.
abbrev pub IsShort : ℤ → Type 0
IsShort (pos n) = n < 2 ^ 15
IsShort (negsuc n) = n < 2 ^ 15

-- For every short, modulo_m returns, and it returns the remainder modulo 17.
pub modulo_m-mod17 : (x : ℤ) → IsShort x → modulo_m (to_short x) ≡ ok (pos (mod17 x))
unfolding modulo_m
modulo_m-mod17 (pos n) h =
    rw (to_short-pos n h, raise-pos 1928 n) (lower-pos 1929 n h (omega arith))
modulo_m-mod17 (negsuc n) h =
    rw (to_short-negsuc n h, raise-negsuc 1929 n h (omega arith))
      (lower-pos 1929 (16 - n % 17) (omega arith) (omega arith)
        ∙ ap (λ k. ok (pos k)) (omega arith))
