-- ===== src/Dft/Transform.antt =====
-- What dft of dft.c computes on two, four and eight remainders modulo 17.
use oo_o_processor.Common.{ℕ, suc, ◌*◌, ◌%◌, ◌<◌, ◌≡◌, ◌≢◌, refl, ◌∙◌, arith, [], ◌∷◌, pos, ok}
use oo_o_processor.Array.{Ints, load, store, set, fill}
use oo_o_processor.Dft.{Unset, split_loop, join_loop, dft}
use oo_o_processor.Dft.Rounds.{plus, minus, join_loop-round, dft-step}

-- The four results for the root `r`, whose square is 16.
abbrev pub four : ℕ → ℕ → ℕ → ℕ → ℕ → ℕ × ℕ × ℕ × ℕ
four r p q s t = (
  plus 1 (plus 1 p s) (plus 1 q t),
  plus (1 * r % 17) (minus 1 p s) (minus 1 q t),
  minus 1 (plus 1 p s) (plus 1 q t),
  minus (1 * r % 17) (minus 1 p s) (minus 1 q t),
)

module _ (unset : Unset) where
  dft_1 : (f len : ℕ) (a : Ints) → dft unset (suc f) a len (pos 1) ≡ ok a
  unfolding dft
  dft_1 f len a = refl

  dft_2 :
      (f p q : ℕ) (t : Ints)
      → p < 17
      → q < 17
      → dft unset (suc (suc f)) (pos p ∷ pos q ∷ t) 2 (pos 16)
        ≡ ok (pos (plus 1 p q) ∷ pos (minus 1 p q) ∷ t)
  unfolding split_loop load store set fill join_loop
  dft_2 f p q t h k =
      let x = set (fill 8 0 unset.x) 0 (pos p) in
      let y = set (fill 8 0 unset.y) 0 (pos q) in
      let a = pos p ∷ pos q ∷ t in
      dft-step unset (suc f) 2 16 1 a (omega arith) (omega arith) refl refl (dft_1 f 1 x)
        (dft_1 f 1 y)
      ∙ join_loop-round 0 0 1 16 1 p q x y a refl refl (omega arith) (omega arith)

  dft_4 :
      (f r p q s t : ℕ) (rest : Ints)
      → r < 17
      → r ≢ 1
      → r * r % 17 ≡ 16
      → (p < 17) × (q < 17) × (s < 17) × (t < 17)
      → (let v = four r p q s t in
          dft unset (suc (suc (suc f))) (pos p ∷ pos q ∷ pos s ∷ pos t ∷ rest) 4 (pos r)
          ≡ ok (pos v.0 ∷ pos v.1 ∷ pos v.2 ∷ pos v.3 ∷ rest))
  unfolding split_loop load store set fill join_loop
  dft_4 f r p q s t rest small ne square h =
      let x = fill 4 4 unset.x in
      let y = fill 4 4 unset.y in
      let x2 = unset.x 2 ∷ unset.x 3 ∷ x in
      let y2 = unset.y 2 ∷ unset.y 3 ∷ y in
      let x' = pos (plus 1 p s) ∷ pos (minus 1 p s) ∷ x2 in
      let y' = pos (plus 1 q t) ∷ pos (minus 1 q t) ∷ y2 in
      let a = pos p ∷ pos q ∷ pos s ∷ pos t ∷ rest in
      let a' =
        pos (plus 1 (plus 1 p s) (plus 1 q t))
        ∷ pos q
        ∷ pos (minus 1 (plus 1 p s) (plus 1 q t))
        ∷ pos t
        ∷ rest in
      dft-step unset (suc (suc f)) 4 r 16 a small ne square refl (dft_2 f p s x2 h.0 h.2)
        (dft_2 f q t y2 h.1 h.3)
      ∙ (join_loop-round 1 0 2 r 1 (plus 1 p s) (plus 1 q t) x' y' a refl refl (omega arith)
            (omega arith)
          ∙ join_loop-round 0 1 2 r (1 * r % 17) (minus 1 p s) (minus 1 q t) x' y' a' refl refl
              (omega arith) (omega arith))

-- The transform of eight values at the root `r` whose square is `s`: the even items and the odd.
module _ (unset : Unset) (f r s : ℕ) (small : r < 17) (less : s < 17) (ne : r ≢ 1) (ne' : s ≢ 1)
    (square : r * r % 17 ≡ s) (sixteen : s * s % 17 ≡ 16) where
  pub dft_8 :
      (p0 p1 p2 p3 p4 p5 p6 p7 : ℕ)
      → (p0 < 17) × (p1 < 17) × (p2 < 17) × (p3 < 17)
      → (p4 < 17) × (p5 < 17) × (p6 < 17) × (p7 < 17)
      → (let u = four s p0 p2 p4 p6 in
          let v = four s p1 p3 p5 p7 in
          let b = 1 * r % 17 in
          let c = b * r % 17 in
          let d = c * r % 17 in
          dft unset
            (suc (suc (suc (suc f))))
            (pos p0 ∷ pos p1 ∷ pos p2 ∷ pos p3 ∷ pos p4 ∷ pos p5 ∷ pos p6 ∷ pos p7 ∷ [])
            8
            (pos r)
          ≡ ok (
              pos (plus 1 u.0 v.0)
              ∷ pos (plus b u.1 v.1)
              ∷ pos (plus c u.2 v.2)
              ∷ pos (plus d u.3 v.3)
              ∷ pos (minus 1 u.0 v.0)
              ∷ pos (minus b u.1 v.1)
              ∷ pos (minus c u.2 v.2)
              ∷ pos (minus d u.3 v.3)
              ∷ []))
  unfolding split_loop load store set fill join_loop
  dft_8 p0 p1 p2 p3 p4 p5 p6 p7 h k =
      let u = four s p0 p2 p4 p6 in
      let v = four s p1 p3 p5 p7 in
      let b = 1 * r % 17 in
      let c = b * r % 17 in
      let d = c * r % 17 in
      let x = pos u.0 ∷ pos u.1 ∷ pos u.2 ∷ pos u.3 ∷ fill 4 4 unset.x in
      let y = pos v.0 ∷ pos v.1 ∷ pos v.2 ∷ pos v.3 ∷ fill 4 4 unset.y in
      let a = pos p0 ∷ pos p1 ∷ pos p2 ∷ pos p3 ∷ pos p4 ∷ pos p5 ∷ pos p6 ∷ pos p7 ∷ [] in
      let a' = set (set a 0 (pos (plus 1 u.0 v.0))) 4 (pos (minus 1 u.0 v.0)) in
      let a'' = set (set a' 1 (pos (plus b u.1 v.1))) 5 (pos (minus b u.1 v.1)) in
      let a3 = set (set a'' 2 (pos (plus c u.2 v.2))) 6 (pos (minus c u.2 v.2)) in
      dft-step unset (suc (suc (suc f))) 8 r s a small ne square refl
        (dft_4 unset f s p0 p2 p4 p6 (fill 4 4 unset.x) less ne' sixteen (omega arith))
        (dft_4 unset f s p1 p3 p5 p7 (fill 4 4 unset.y) less ne' sixteen (omega arith))
      ∙ (join_loop-round 3 0 4 r 1 u.0 v.0 x y a refl refl (omega arith) (omega arith)
          ∙ (join_loop-round 2 1 4 r b u.1 v.1 x y a' refl refl (omega arith) (omega arith)
              ∙ (join_loop-round 1 2 4 r c u.2 v.2 x y a'' refl refl (omega arith) (omega arith)
                  ∙ join_loop-round 0 3 4 r d u.3 v.3 x y a3 refl refl (omega arith)
                      (omega arith))))
