-- ===== src/Dft/Fourier.antt =====
-- dft of dft.c against the definition of the discrete Fourier transform modulo 17.
use oo_o_processor.Common.{
  ℕ, zero, suc, ◌+◌, ◌*◌, ◌%◌, ◌^◌, ◌<◌, ◌≡◌, ◌⊎◌, inl, inr, refl, ◌∙◌, arith, List, [], ◌∷◌, map,
  pos, ok,
}
use oo_o_processor.Dft.{Unset, dft}
use oo_o_processor.Dft.Rounds.{plus, minus}
use oo_o_processor.Dft.Transform.{four, dft_8}

-- The polynomial whose coefficients are the items, at x.
unfoldable pub value : ℕ → List ℕ → ℕ
value x [] = 0
value x (p ∷ ps) = p + x * value x ps

-- The transform: the polynomial at the powers of the root, from number k on.
unfoldable pub transform : ℕ → ℕ → ℕ → List ℕ → List ℕ
transform zero k r ps = []
transform (suc n) k r ps = value (r ^ k % 17) ps % 17 ∷ transform n (k + 1) r ps

module _ (p0 p1 p2 p3 p4 p5 p6 p7 : ℕ) where
  abbrev pub points : List ℕ
  points = p0 ∷ p1 ∷ p2 ∷ p3 ∷ p4 ∷ p5 ∷ p6 ∷ p7 ∷ []

  -- The eight results of dft at the root 2.
  results_two :
      (let u = four 4 p0 p2 p4 p6 in
        let v = four 4 p1 p3 p5 p7 in
        (plus 1 u.0 v.0 ≡ value 1 points % 17)
        × (plus 2 u.1 v.1 ≡ value 2 points % 17)
        × (plus 4 u.2 v.2 ≡ value 4 points % 17)
        × (plus 8 u.3 v.3 ≡ value 8 points % 17)
        × (minus 1 u.0 v.0 ≡ value 16 points % 17)
        × (minus 2 u.1 v.1 ≡ value 15 points % 17)
        × (minus 4 u.2 v.2 ≡ value 13 points % 17)
        × (minus 8 u.3 v.3 ≡ value 9 points % 17))
  unfolding value
  results_two = omega arith

  -- The eight results of dft at the root 9.
  results_nine :
      (let u = four 13 p0 p2 p4 p6 in
        let v = four 13 p1 p3 p5 p7 in
        (plus 1 u.0 v.0 ≡ value 1 points % 17)
        × (plus 9 u.1 v.1 ≡ value 9 points % 17)
        × (plus 13 u.2 v.2 ≡ value 13 points % 17)
        × (plus 15 u.3 v.3 ≡ value 15 points % 17)
        × (minus 1 u.0 v.0 ≡ value 16 points % 17)
        × (minus 9 u.1 v.1 ≡ value 8 points % 17)
        × (minus 13 u.2 v.2 ≡ value 4 points % 17)
        × (minus 15 u.3 v.3 ≡ value 2 points % 17))
  unfolding value
  results_nine = omega arith

  module _ (unset : Unset) (h : (p0 < 17) × (p1 < 17) × (p2 < 17) × (p3 < 17))
      (k : (p4 < 17) × (p5 < 17) × (p6 < 17) × (p7 < 17)) where
    dft_two : dft unset 4 (map pos points) 8 (pos 2) ≡ ok (map pos (transform 8 0 2 points))
    unfolding transform
    dft_two =
        let e = results_two in
        dft_8 unset 0 2 4 (omega arith) (omega arith) (omega arith) (omega arith) refl refl p0 p1 p2
          p3 p4 p5 p6 p7 h k
        ∙ rw (e.0, e.1, e.2, e.3, e.4, e.5, e.6, e.7) refl

    dft_nine : dft unset 4 (map pos points) 8 (pos 9) ≡ ok (map pos (transform 8 0 9 points))
    unfolding transform
    dft_nine =
        let e = results_nine in
        dft_8 unset 0 9 13 (omega arith) (omega arith) (omega arith) (omega arith) refl refl p0 p1
          p2 p3 p4 p5 p6 p7 h k
        ∙ rw (e.0, e.1, e.2, e.3, e.4, e.5, e.6, e.7) refl

-- Every item is a remainder modulo 17.
abbrev pub AllBelow : List ℕ → Type 0
AllBelow [] = Unit {0}
AllBelow (p ∷ ps) = (p < 17) × AllBelow ps

-- On eight remainders modulo 17, and at the root 2 or its inverse 9, dft with fuel 4 returns the
-- discrete Fourier transform: item k is the polynomial with the items as coefficients at the k-th power
-- of the root, modulo 17.
pub dft-transform :
    (unset : Unset) (r p0 p1 p2 p3 p4 p5 p6 p7 : ℕ)
    → (r ≡ 2) ⊎ (r ≡ 9)
    → AllBelow (points p0 p1 p2 p3 p4 p5 p6 p7)
    → dft unset 4 (map pos (points p0 p1 p2 p3 p4 p5 p6 p7)) 8 (pos r)
      ≡ ok (map pos (transform 8 0 r (points p0 p1 p2 p3 p4 p5 p6 p7)))
dft-transform unset r p0 p1 p2 p3 p4 p5 p6 p7 (inl two) h =
    rw two (dft_two p0 p1 p2 p3 p4 p5 p6 p7 unset (omega arith) (omega arith))
dft-transform unset r p0 p1 p2 p3 p4 p5 p6 p7 (inr nine) h =
    rw nine (dft_nine p0 p1 p2 p3 p4 p5 p6 p7 unset (omega arith) (omega arith))
