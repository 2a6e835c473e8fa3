-- ===== src/Graph/Towers.antt =====
-- towers of test_progs/graph.c: the moves of the towers of Hanoi without the moving.
use oo_o_processor.Common.{
  ℕ, zero, suc, ◌≡◌, ◌↔◌, refl, arith, ℤ, pos, ◌-ℤ◌, -ℤ_parts, ◌==ℤ◌, ◌≤ℤ◌, ◌<ℤ◌, ◌⊎◌, leb_ℤ, Run,
  ok, out_of_fuel, ◌>>=◌, if◌then◌else◌, false, Bool-cases, inl, inr,
}

-- The pegs are characters.
unfoldable pub towers : ℕ → ℤ → ℕ → ℕ → ℕ → Run ℤ
towers zero num frompeg topeg auxpeg = out_of_fuel
towers (suc fuel) num frompeg topeg auxpeg =
    let moves = do
      x ← towers fuel (num -ℤ pos 1) frompeg auxpeg topeg
      y ← towers fuel (num -ℤ pos 1) auxpeg topeg frompeg
      ok (pos 0)
    in if num ==ℤ pos 1 then ok (pos 0) else moves

-- towers(5, 'A', 'C', 'B')
unfoldable pub towers_test : Run ℤ
towers_test = towers 5 (pos 5) 65 67 66

towers-ends :
    (fuel : ℕ) (num : ℤ) (frompeg topeg auxpeg : ℕ)
    → pos 1 ≤ℤ num
    → num ≤ℤ pos fuel
    → towers fuel num frompeg topeg auxpeg ≡ ok (pos 0)
unfolding towers
towers-ends zero num f t a low high = absurd (omega arith)
towers-ends (suc fuel) num f t a low high = elim (Bool-cases (num ==ℤ pos 1)) [
  | inl e ↦ rw e refl
  | inr ne ↦
      let low' : pos 1 ≤ℤ num -ℤ pos 1 = ground (arith, -ℤ_parts num (pos 1)) in
      let high' : num -ℤ pos 1 ≤ℤ pos fuel = ground (arith, -ℤ_parts num (pos 1)) in
      rw
        (
          ne,
          towers-ends fuel (num -ℤ pos 1) f a t low' high',
          towers-ends fuel (num -ℤ pos 1) a t f low' high',
        )
        refl
]

towers-out_of_fuel :
    (fuel : ℕ) (num : ℤ) (frompeg topeg auxpeg : ℕ)
    → (num ≤ℤ pos 0) ⊎ (pos fuel <ℤ num)
    → towers fuel num frompeg topeg auxpeg ≡ out_of_fuel
unfolding towers
towers-out_of_fuel zero num f t a beyond = refl
towers-out_of_fuel (suc fuel) num f t a beyond =
    let not_one : (num ==ℤ pos 1) ≡ false = elim beyond [
      | inl low ↦ ground arith
      | inr high ↦ ground arith
    ] in
    let beyond' : (num -ℤ pos 1 ≤ℤ pos 0) ⊎ (pos fuel <ℤ num -ℤ pos 1) = elim beyond [
      | inl low ↦ inl (omega (arith, -ℤ_parts num (pos 1)))
      | inr high ↦ inr (omega (arith, -ℤ_parts num (pos 1)))
    ] in
    rw (not_one, towers-out_of_fuel fuel (num -ℤ pos 1) f a t beyond') refl

ends_in_range :
    (fuel : ℕ) (num : ℤ) (frompeg topeg auxpeg : ℕ)
    → towers fuel num frompeg topeg auxpeg ≡ ok (pos 0)
    → (pos 1 ≤ℤ num) × (num ≤ℤ pos fuel)
ends_in_range fuel num f t a e = elim (Bool-cases (leb_ℤ num (pos 0))) [
  | inl low ↦ let out = towers-out_of_fuel fuel num f t a (inl (ground arith)) in cc
  | inr some ↦ elim (Bool-cases (leb_ℤ num (pos fuel))) [
    | inl fits ↦ (ground arith, ground arith)
    | inr high ↦ let out = towers-out_of_fuel fuel num f t a (inr (ground arith)) in cc
  ]
]

-- towers returns 0 with the fuel given if and only if the number of discs is at least 1 and at most the
-- fuel.
pub towers-returns :
    (fuel : ℕ) (num : ℤ) (frompeg topeg auxpeg : ℕ)
    → (towers fuel num frompeg topeg auxpeg ≡ ok (pos 0)) ↔ ((pos 1 ≤ℤ num) × (num ≤ℤ pos fuel))
towers-returns fuel num f t a =
    (ends_in_range fuel num f t a, λ (low, high). towers-ends fuel num f t a low high)
