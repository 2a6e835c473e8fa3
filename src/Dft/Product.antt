-- ===== src/Dft/Product.antt =====
-- mult of dft.c is multiplication modulo 17 of the low bytes.
use oo_o_processor.Common.{
  ℕ, suc, ◌+◌, ◌*◌, ◌/◌, ◌%◌, ◌<◌, ◌≡◌, inl, inr, refl, ap, ◌∙◌, arith, map, ℤ, pos, ok, ◌>>=◌,
}
use oo_o_processor.Array.{Ints, load, store, set}
use oo_o_processor.Dft.{Unset, dft, product_loop, evaluate_loop, mult}
use oo_o_processor.Dft.Rounds.{modulo_m-product, modulo_m-sum}
use oo_o_processor.Dft.Bits.{low_byte, bit, bits, bits-value, to_poly-bits, low_byte-bound}
use oo_o_processor.Dft.Fourier.{value, transform, points, AllBelow, dft-transform}

product_loop-round :
    (n i u v : ℕ) (a b : Ints)
    → load a i ≡ ok (pos u)
    → load b i ≡ ok (pos v)
    → store a i (pos (u * v % 17)) ≡ ok (set a i (pos (u * v % 17)))
    → u < 17
    → v < 17
    → product_loop (suc n) i a b ≡ product_loop n (i + 1) (set a i (pos (u * v % 17))) b
unfolding product_loop
product_loop-round n i u v a b la lb st h k = rw (la, lb, modulo_m-product u v h k, st) refl

evaluate_loop-round :
    (n i b r u : ℕ) (a : Ints)
    → load a i ≡ ok (pos u)
    → store a i (pos (u * 15 % 17)) ≡ ok (set a i (pos (u * 15 % 17)))
    → (u < 17) × (b < 17) × (r < 17)
    → evaluate_loop (suc n) i (pos b) (pos r) a
      ≡ evaluate_loop n
          (i + 1)
          (pos (b * 2 % 17))
          (pos ((r + b * (u * 15 % 17)) % 17))
          (set a i (pos (u * 15 % 17)))
unfolding evaluate_loop
evaluate_loop-round n i b r u a la st h =
    rw
      (
        la,
        modulo_m-product u 15 h.0 (omega arith),
        st,
        modulo_m-sum r b (u * 15 % 17) h.2 h.1 (omega arith),
        modulo_m-product b 2 h.1 (omega arith),
      )
      refl

product_loop-points :
    (a0 a1 a2 a3 a4 a5 a6 a7 b0 b1 b2 b3 b4 b5 b6 b7 : ℕ)
    → AllBelow (points a0 a1 a2 a3 a4 a5 a6 a7)
    → AllBelow (points b0 b1 b2 b3 b4 b5 b6 b7)
    → product_loop 8 0
        (map pos (points a0 a1 a2 a3 a4 a5 a6 a7))
        (map pos (points b0 b1 b2 b3 b4 b5 b6 b7))
      ≡ ok (
          map pos (
            points
              (a0 * b0 % 17)
              (a1 * b1 % 17)
              (a2 * b2 % 17)
              (a3 * b3 % 17)
              (a4 * b4 % 17)
              (a5 * b5 % 17)
              (a6 * b6 % 17)
              (a7 * b7 % 17)))
unfolding product_loop load store set
product_loop-points a0 a1 a2 a3 a4 a5 a6 a7 b0 b1 b2 b3 b4 b5 b6 b7 h k =
    let bs = map pos (points b0 b1 b2 b3 b4 b5 b6 b7) in
    product_loop-round 7 0 a0 b0 (map pos (points a0 a1 a2 a3 a4 a5 a6 a7)) bs refl refl refl
      (omega arith) (omega arith)
    ∙ (product_loop-round 6 1 a1 b1 (map pos (points (a0 * b0 % 17) a1 a2 a3 a4 a5 a6 a7)) bs refl
          refl refl (omega arith) (omega arith)
        ∙ (product_loop-round 5 2 a2 b2
              (map pos (points (a0 * b0 % 17) (a1 * b1 % 17) a2 a3 a4 a5 a6 a7)) bs refl refl refl
              (omega arith) (omega arith)
            ∙ (product_loop-round 4 3 a3 b3
                  (map pos (points (a0 * b0 % 17) (a1 * b1 % 17) (a2 * b2 % 17) a3 a4 a5 a6 a7)) bs
                  refl refl refl (omega arith) (omega arith)
                ∙ (product_loop-round 3 4 a4 b4
                      (map pos (
                        points (a0 * b0 % 17) (a1 * b1 % 17) (a2 * b2 % 17) (a3 * b3 % 17) a4 a5 a6
                          a7))
                      bs refl refl refl (omega arith) (omega arith)
                    ∙ (product_loop-round 2 5 a5 b5
                          (map pos (
                            points (a0 * b0 % 17) (a1 * b1 % 17) (a2 * b2 % 17) (a3 * b3 % 17)
                              (a4 * b4 % 17) a5 a6 a7))
                          bs refl refl refl (omega arith) (omega arith)
                        ∙ (product_loop-round 1 6 a6 b6
                              (map pos (
                                points (a0 * b0 % 17) (a1 * b1 % 17) (a2 * b2 % 17) (a3 * b3 % 17)
                                  (a4 * b4 % 17) (a5 * b5 % 17) a6 a7))
                              bs refl refl refl (omega arith) (omega arith)
                            ∙ (product_loop-round 0 7 a7 b7
                                (map pos (
                                  points (a0 * b0 % 17) (a1 * b1 % 17) (a2 * b2 % 17) (a3 * b3 % 17)
                                    (a4 * b4 % 17) (a5 * b5 % 17) (a6 * b6 % 17) a7))
                                bs refl refl refl (omega arith) (omega arith))))))))

evaluate_loop-points :
    (c0 c1 c2 c3 c4 c5 c6 c7 : ℕ)
    → AllBelow (points c0 c1 c2 c3 c4 c5 c6 c7)
    → evaluate_loop 8 0 (pos 1) (pos 0) (map pos (points c0 c1 c2 c3 c4 c5 c6 c7))
      ≡ ok (pos (15 * value 2 (points c0 c1 c2 c3 c4 c5 c6 c7) % 17))
unfolding evaluate_loop load store set value
evaluate_loop-points c0 c1 c2 c3 c4 c5 c6 c7 h =
    let r1 = (0 + 1 * (c0 * 15 % 17)) % 17 in
    let r2 = (r1 + 2 * (c1 * 15 % 17)) % 17 in
    let r3 = (r2 + 4 * (c2 * 15 % 17)) % 17 in
    let r4 = (r3 + 8 * (c3 * 15 % 17)) % 17 in
    let r5 = (r4 + 16 * (c4 * 15 % 17)) % 17 in
    let r6 = (r5 + 15 * (c5 * 15 % 17)) % 17 in
    let r7 = (r6 + 13 * (c6 * 15 % 17)) % 17 in
    evaluate_loop-round 7 0 1 0 c0 (map pos (points c0 c1 c2 c3 c4 c5 c6 c7)) refl refl
      (omega arith)
    ∙ (evaluate_loop-round 6 1 2 r1 c1 (map pos (points (c0 * 15 % 17) c1 c2 c3 c4 c5 c6 c7)) refl
          refl (omega arith)
        ∙ (evaluate_loop-round 5 2 4 r2 c2
              (map pos (points (c0 * 15 % 17) (c1 * 15 % 17) c2 c3 c4 c5 c6 c7)) refl refl
              (omega arith)
            ∙ (evaluate_loop-round 4 3 8 r3 c3
                  (map pos (points (c0 * 15 % 17) (c1 * 15 % 17) (c2 * 15 % 17) c3 c4 c5 c6 c7))
                  refl refl (omega arith)
                ∙ (evaluate_loop-round 3 4 16 r4 c4
                      (map pos (
                        points (c0 * 15 % 17) (c1 * 15 % 17) (c2 * 15 % 17) (c3 * 15 % 17) c4 c5 c6
                          c7))
                      refl refl (omega arith)
                    ∙ (evaluate_loop-round 2 5 15 r5 c5
                          (map pos (
                            points (c0 * 15 % 17) (c1 * 15 % 17) (c2 * 15 % 17) (c3 * 15 % 17)
                              (c4 * 15 % 17) c5 c6 c7))
                          refl refl (omega arith)
                        ∙ (evaluate_loop-round 1 6 13 r6 c6
                              (map pos (
                                points (c0 * 15 % 17) (c1 * 15 % 17) (c2 * 15 % 17) (c3 * 15 % 17)
                                  (c4 * 15 % 17) (c5 * 15 % 17) c6 c7))
                              refl refl (omega arith)
                            ∙ (evaluate_loop-round 0 7 9 r7 c7
                                (map pos (
                                  points (c0 * 15 % 17) (c1 * 15 % 17) (c2 * 15 % 17) (c3 * 15 % 17)
                                    (c4 * 15 % 17) (c5 * 15 % 17) (c6 * 15 % 17) c7))
                                refl refl (omega arith))))))))
    ∙ ap (λ n. ok (pos n)) (omega arith)

-- The inverse transform, scaled and evaluated at the root, is the item at the root itself.
inverse :
    (c0 c1 c2 c3 c4 c5 c6 c7 : ℕ)
    → c1 < 17
    → 15 * value 2 (transform 8 0 9 (points c0 c1 c2 c3 c4 c5 c6 c7)) % 17 ≡ c1
unfolding value transform
inverse c0 c1 c2 c3 c4 c5 c6 c7 h = omega arith

expand : (q a s b : ℕ) → (17 * q + a) * (17 * s + b) ≡ 17 * (q * (17 * s + b) + a * s) + a * b
expand q a s b = grind arith

mul-mod : (x y : ℕ) → x % 17 * (y % 17) % 17 ≡ x * y % 17
mul-mod x y =
    let ex : x ≡ 17 * (x / 17) + x % 17 = omega arith in
    let ey : y ≡ 17 * (y / 17) + y % 17 = omega arith in
    let whole : x * y ≡ (17 * (x / 17) + x % 17) * (17 * (y / 17) + y % 17) = λ i. ex i * ey i in
    omega (arith, whole, expand (x / 17) (x % 17) (y / 17) (y % 17))

-- From the two transforms on: mult returns the product of their items at the root.
finish :
    (unset : Unset) (a0 a1 a2 a3 a4 a5 a6 a7 b0 b1 b2 b3 b4 b5 b6 b7 : ℕ)
    → AllBelow (points a0 a1 a2 a3 a4 a5 a6 a7)
    → AllBelow (points b0 b1 b2 b3 b4 b5 b6 b7)
    → (do
      c ←
          product_loop 8 0
            (map pos (points a0 a1 a2 a3 a4 a5 a6 a7))
            (map pos (points b0 b1 b2 b3 b4 b5 b6 b7))
      c' ← dft unset 4 c 8 (pos 9)
      evaluate_loop 8 0 (pos 1) (pos 0) c')
      ≡ ok (pos (a1 * b1 % 17))
unfolding transform
finish unset a0 a1 a2 a3 a4 a5 a6 a7 b0 b1 b2 b3 b4 b5 b6 b7 h k =
    let v = λ (x : ℕ).
      value x (
        points (a0 * b0 % 17) (a1 * b1 % 17) (a2 * b2 % 17) (a3 * b3 % 17) (a4 * b4 % 17)
          (a5 * b5 % 17) (a6 * b6 % 17) (a7 * b7 % 17))
      % 17 in
    rw
      (
        product_loop-points a0 a1 a2 a3 a4 a5 a6 a7 b0 b1 b2 b3 b4 b5 b6 b7 h k,
        dft-transform unset 9 (a0 * b0 % 17) (a1 * b1 % 17) (a2 * b2 % 17) (a3 * b3 % 17)
            (a4 * b4 % 17) (a5 * b5 % 17) (a6 * b6 % 17) (a7 * b7 % 17) (inr refl) (omega arith),
        evaluate_loop-points (v 1) (v 9) (v 13) (v 15) (v 16) (v 8) (v 4) (v 2) (omega arith),
      )
      (ap (λ n. ok (pos n))
        (inverse (a0 * b0 % 17) (a1 * b1 % 17) (a2 * b2 % 17) (a3 * b3 % 17) (a4 * b4 % 17)
          (a5 * b5 % 17) (a6 * b6 % 17) (a7 * b7 % 17) (omega arith)))

-- For every two shorts mult returns the product of their low bytes modulo 17, whatever the local
-- arrays hold before they are written.
pub mult-product :
    (unset : Unset) (x y : ℤ) → mult unset x y ≡ ok (pos (low_byte x * low_byte y % 17))
unfolding mult transform
mult-product unset x y =
    let a = low_byte x in
    let b = low_byte y in
    let f = λ (z : ℕ). value z (bits a) % 17 in
    let g = λ (z : ℕ). value z (bits b) % 17 in
    rw
      (
        to_poly-bits x unset.x,
        to_poly-bits y unset.y,
        dft-transform unset 2 (bit 0 a) (bit 1 a) (bit 2 a) (bit 3 a) (bit 4 a) (bit 5 a) (bit 6 a)
            (bit 7 a) (inl refl) (omega arith),
        dft-transform unset 2 (bit 0 b) (bit 1 b) (bit 2 b) (bit 3 b) (bit 4 b) (bit 5 b) (bit 6 b)
            (bit 7 b) (inl refl) (omega arith),
      )
      (finish unset (f 1) (f 2) (f 4) (f 8) (f 16) (f 15) (f 13) (f 9) (g 1) (g 2) (g 4) (g 8)
          (g 16) (g 15) (g 13) (g 9) (omega arith) (omega arith)
        ∙ rw (bits-value a (low_byte-bound x), bits-value b (low_byte-bound y))
            (ap (λ n. ok (pos n)) (mul-mod a b)))
