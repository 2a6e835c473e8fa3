-- ===== src/Dft/Rounds.antt =====
-- The rounds of the loops of dft.c on arrays of remainders modulo 17.
use oo_o_processor.Common.{
  ℕ, suc, ◌+◌, ◌-◌, ◌*◌, ◌/◌, ◌%◌, ◌<◌, ◌≤◌, ◌≡◌, refl, ap, ◌∙◌, arith, length, ◌≢◌, leb, false,
  Bool-cases, inl, inr, ◌==ℤ◌, pos, negsuc, ◌+ℤ◌, ◌-ℤ◌, ◌*ℤ◌, ok,
}
use oo_o_processor.Array.{Ints, load, set, store-set, length-set, fill}
use oo_o_processor.Dft.{Unset, to_short, modulo_m, split_loop, join_loop, dft}
use oo_o_processor.Dft.Modulo.{modulo_m-mod17}

mul-pos : (m n : ℕ) → pos m *ℤ pos n ≡ pos (m * n)
unfolding ◌*ℤ◌
mul-pos m n = ground arith

add-pos : (m n : ℕ) → pos m +ℤ pos n ≡ pos (m + n)
unfolding ◌+ℤ◌
add-pos m n = ground arith

product_small : (m n : ℕ) → m < 17 → n < 17 → m * n ≤ 256
product_small m n h k = grind arith

pub modulo_m-product :
    (m n : ℕ) → m < 17 → n < 17 → modulo_m (to_short (pos m *ℤ pos n)) ≡ ok (pos (m * n % 17))
modulo_m-product m n h k =
    rw (mul-pos m n) (modulo_m-mod17 (pos (m * n)) (omega (arith, product_small m n h k)))

pub modulo_m-sum :
    (u m n : ℕ)
    → u < 17
    → m < 17
    → n < 17
    → modulo_m (to_short (pos u +ℤ pos m *ℤ pos n)) ≡ ok (pos ((u + m * n) % 17))
modulo_m-sum u m n l h k =
    rw (mul-pos m n, add-pos u (m * n))
      (modulo_m-mod17 (pos (u + m * n)) (omega (arith, product_small m n h k)))

sub_pos : (u z : ℕ) → z ≤ u → pos u -ℤ pos z ≡ pos (u - z)
unfolding ◌-ℤ◌
sub_pos u z h = ground arith

sub_negsuc : (u z : ℕ) → u < z → pos u -ℤ pos z ≡ negsuc (z - u - 1)
unfolding ◌-ℤ◌
sub_negsuc u z h = ground arith

sub_mod17 :
    (u z : ℕ)
    → u < 17
    → z ≤ 256
    → modulo_m (to_short (pos u -ℤ pos z)) ≡ ok (pos ((u + 16 * z) % 17))
sub_mod17 u z h k = elim (Bool-cases (leb z u)) [
  | inl t ↦
      let le : z ≤ u = ground arith in
      rw (sub_pos u z le)
        (modulo_m-mod17 (pos (u - z)) (omega arith) ∙ ap (λ n. ok (pos n)) (omega arith))
  | inr f ↦
      let lt : u < z = ground arith in
      rw (sub_negsuc u z lt)
        (modulo_m-mod17 (negsuc (z - u - 1)) (omega arith) ∙ ap (λ n. ok (pos n)) (omega arith))
]

pub modulo_m-difference :
    (u m n : ℕ)
    → u < 17
    → m < 17
    → n < 17
    → modulo_m (to_short (pos u -ℤ pos m *ℤ pos n)) ≡ ok (pos ((u + 16 * (m * n)) % 17))
modulo_m-difference u m n l h k = rw (mul-pos m n) (sub_mod17 u (m * n) l (product_small m n h k))

-- The two results of a round, for the factor `b`.
abbrev pub plus : ℕ → ℕ → ℕ → ℕ
plus b u v = (u + b * v) % 17

abbrev pub minus : ℕ → ℕ → ℕ → ℕ
minus b u v = (u + 16 * (b * v)) % 17

pub join_loop-round :
    (n i half r b u v : ℕ) (x y a : Ints)
    → load x i ≡ ok (pos u)
    → load y i ≡ ok (pos v)
    → i + half < length a
    → (u < 17) × (v < 17) × (b < 17) × (r < 17)
    → join_loop (suc n) i half (pos r) (pos b) x y a
      ≡ join_loop n
          (i + 1)
          half
          (pos r)
          (pos (b * r % 17))
          x
          y
          (set (set a i (pos (plus b u v))) (i + half) (pos (minus b u v)))
unfolding join_loop
join_loop-round n i half r b u v x y a lx ly inside small =
    rw
      (
        lx,
        ly,
        modulo_m-sum u b v small.0 small.2 small.1,
        store-set a i (pos (plus b u v)) (omega arith),
        modulo_m-difference u b v small.0 small.2 small.1,
        store-set (set a i (pos (plus b u v))) (i + half) (pos (minus b u v))
            (omega (arith, length-set a i (pos (plus b u v)))),
        modulo_m-product b r small.2 small.3,
      )
      refl

-- A call of dft from the results of its parts.
pub dft-step :
    (unset : Unset) (f len r q : ℕ) (a : Ints) {x y x' y' : Ints}
    → r < 17
    → r ≢ 1
    → r * r % 17 ≡ q
    → split_loop ((len + 1) / 2) 0 a (fill 8 0 unset.x) (fill 8 0 unset.y) ≡ ok (x, y)
    → dft unset f x (len / 2) (pos q) ≡ ok x'
    → dft unset f y (len / 2) (pos q) ≡ ok y'
    → dft unset (suc f) a len (pos r) ≡ join_loop (len / 2) 0 (len / 2) (pos r) (pos 1) x' y' a
unfolding dft
dft-step unset f len r q a small ne square split left right =
    let test : (pos r ==ℤ pos 1) ≡ false = ground arith in
    rw (test, split, modulo_m-product r r small small, square, left, right) refl
