-- ===== src/OuterProduct/Partial.antt =====
-- The first loops of kernel in outer_product.c: all products.
use mathlib.Core.Path.{sym}
use oo_o_processor.Common.{
  ℕ, ◌+◌, ◌*◌, ◌/◌, ◌%◌, ◌<◌, ◌≤◌, ◌≡◌, ◌∙◌, ap, refl, arith, ℤ, ◌*ℤ◌, true, ok, for_loop-inv,
  length, Returns, returns, last_or_before, inl, inr, lt→ltb, Returns-map,
}
use oo_o_processor.Array.{
  Ints, get, set, load-get, store-set, length-set, get-set_same, get-set_other,
}
use oo_o_processor.FcForward.{is_int}
use oo_o_processor.FcForward.Dot.{to_int-ok}
use oo_o_processor.OuterProduct.{cell2, cell3, multiply, multiply_all}

pub cell2-ok : (i j : ℕ) → j < 16 → cell2 i j ≡ ok (16 * i + j)
unfolding cell2
cell2-ok i j h = rw (lt→ltb j 16 h) refl

pub cell3-ok : (i j k : ℕ) → j < 16 → k < 16 → cell3 i j k ≡ ok (16 * (16 * i + j) + k)
unfolding cell3
cell3-ok i j k h h' = rw (cell2-ok i j h, lt→ltb k 16 h') refl

module _ (a b : Ints) (la : length a ≡ 256) (lb : length b ≡ 256) where
  -- a[j][i] * b[i][k]
  abbrev pub product : ℕ → ℕ → ℕ → ℤ
  product i j k = get a (16 * j + i) *ℤ get b (16 * i + k)

  abbrev pub ProductsFit : Type 0
  ProductsFit = (i j k : ℕ) → i < 16 → j < 16 → k < 16 → is_int (product i j k) ≡ true

  -- The cells before c hold their products.
  abbrev pub Multiplied : ℕ → Ints → Type 0
  Multiplied c partial =
      (length partial ≡ 4096)
      × ((f : ℕ) → f < c → get partial f ≡ product (f / 256) (f / 16 % 16) (f % 16))

  pub product_at :
      (i j k f : ℕ)
      → i < 16
      → j < 16
      → k < 16
      → f ≡ 16 * (16 * i + j) + k
      → product (f / 256) (f / 16 % 16) (f % 16) ≡ product i j k
  product_at i j k f h h' h'' e =
      let e₁ : f / 256 ≡ i = omega arith in
      let e₂ : f / 16 % 16 ≡ j = omega arith in
      let e₃ : f % 16 ≡ k = omega arith in rw (e₁, e₂, e₃) refl

  set-Multiplied :
      (i j k : ℕ) (partial : Ints)
      → i < 16
      → j < 16
      → k < 16
      → Multiplied (256 * i + 16 * j + k) partial
      → Multiplied
          (256 * i + 16 * j + (k + 1))
          (set partial (16 * (16 * i + j) + k) (product i j k))
  set-Multiplied i j k partial h h' h'' (size, below) =
      let v = product i j k in
      let inside : 16 * (16 * i + j) + k < length partial = omega arith in
      (
        length-set partial (16 * (16 * i + j) + k) v ∙ size,
        λ f lt. elim (last_or_before {k = f} {n = 16 * (16 * i + j) + k} (omega arith)) [
          | inl e ↦
              ap (get (set partial (16 * (16 * i + j) + k) v)) e
              ∙ get-set_same partial (16 * (16 * i + j) + k) v inside
              ∙ sym (product_at i j k f h h' h'' e)
          | inr lt' ↦
              get-set_other partial (16 * (16 * i + j) + k) f v inside (omega arith)
              ∙ below f (omega arith)
        ],
      )

  multiply-Multiplied :
      ProductsFit
      → (i j k : ℕ) (partial : Ints) → i < 16
      → j < 16
      → k < 16
      → Multiplied (256 * i + 16 * j + k) partial
      → Returns (Multiplied (256 * i + 16 * j + (k + 1))) (multiply a b i j k partial)
  unfolding multiply
  multiply-Multiplied fits i j k partial h h' h'' (size, below) =
      rw
        (
          cell2-ok j i h,
          load-get a (16 * j + i) (omega arith),
          cell2-ok i k h'',
          load-get b (16 * i + k) (omega arith),
          to_int-ok _ (fits i j k h h' h''),
          cell3-ok i j k h' h'',
          store-set partial (16 * (16 * i + j) + k) (product i j k) (omega arith),
        )
        (returns (set-Multiplied i j k partial h h' h'' (size, below)))

  pub multiply_all-Multiplied :
      ProductsFit
      → (partial : Ints) → length partial ≡ 4096
      → Returns (Multiplied 4096) (multiply_all a b partial)
  unfolding multiply_all
  multiply_all-Multiplied fits partial size =
      for_loop-inv (λ i. Multiplied (256 * i)) _ 16 0 16 (omega arith)
        (λ i s lo h p.
          Returns-map
            (for_loop-inv (λ j. Multiplied (256 * i + 16 * j)) _ 16 0 16 (omega arith)
              (λ j s lo h' p.
                Returns-map
                  (for_loop-inv (λ k. Multiplied (256 * i + 16 * j + k)) _ 16 0 16 (omega arith)
                    (λ k s lo h'' p. multiply-Multiplied fits i j k s h h' h'' p) s
                    (again s (omega arith) p))
                  λ t. again t (omega arith))
              s (again s (omega arith) p))
            λ t. again t (omega arith))
        partial (size, λ f lt. absurd (omega arith))
    where
      again : {c d : ℕ} (s : Ints) → d ≤ c → Multiplied c s → Multiplied d s
      again s h (size, below) = (size, λ f lt. below f (omega arith))
