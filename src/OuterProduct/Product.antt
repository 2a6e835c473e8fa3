-- ===== src/OuterProduct/Product.antt =====
-- The last loops of kernel in outer_product.c, and kernel as a whole.
use mathlib.Core.Path.{subst}
use oo_o_processor.Common.{
  ℕ, zero, suc, ◌+◌, ◌*◌, ◌/◌, ◌%◌, ◌<◌, ◌≤◌, ◌≡◌, ◌∙◌, ap, refl, arith, ℤ, ◌+ℤ◌, ◌*ℤ◌, true,
  for_loop, for_loop-inv, length, Returns, returns, Returns-map, Returns-bind, last_or_before, inl,
  inr,
}
use oo_o_processor.Array.{
  Ints, get, set, load-get, store-set, length-set, get-set_same, get-set_other,
}
use oo_o_processor.FcForward.{is_int}
use oo_o_processor.FcForward.Dot.{to_int-ok}
use oo_o_processor.OuterProduct.{accumulate, accumulate_all, outer_kernel}
use oo_o_processor.OuterProduct.Partial.{
  cell2-ok, cell3-ok, product_at, ProductsFit, Multiplied, multiply_all-Multiplied,
}

module _ (a b result : Ints) (la : length a ≡ 256) (lb : length b ≡ 256) where
  -- The cell of the result plus the first n terms of row i of a times column j of b.
  unfoldable pub row_column : ℕ → ℕ → ℕ → ℤ
  row_column i j zero = get result (16 * i + j)
  row_column i j (suc n) = row_column i j n +ℤ get a (16 * i + n) *ℤ get b (16 * n + j)

  abbrev pub SumsFit : Type 0
  SumsFit = (i j k : ℕ) → i < 16 → j < 16 → k < 16 → is_int (row_column i j (suc k)) ≡ true

  -- The cells before c hold the entries of the product, the cell c holds `at`, and later ones are as
  -- before.
  abbrev Adding : ℕ → ℤ → Ints → Type 0
  Adding c at r =
      (length r ≡ 256)
      × ((f : ℕ) → f < c → get r f ≡ row_column (f / 16) (f % 16) 16)
      × (get r c ≡ at)
      × ((f : ℕ) → c < f → get r f ≡ get result f)

  set-Adding : (c : ℕ) (at v : ℤ) (r : Ints) → c < 256 → Adding c at r → Adding c v (set r c v)
  set-Adding c at v r h (size, below, here, above) = (
    length-set r c v ∙ size,
    (λ f lt. get-set_other r c f v (omega arith) (omega arith) ∙ below f lt),
    get-set_same r c v (omega arith),
    λ f lt. get-set_other r c f v (omega arith) (omega arith) ∙ above f lt,
  )

  accumulate-Adding :
      (partial : Ints) (i j k : ℕ) (r : Ints)
      → Multiplied a b la lb 4096 partial
      → SumsFit
      → i < 16
      → j < 16
      → k < 16
      → Adding (16 * i + j) (row_column i j k) r
      → Returns (Adding (16 * i + j) (row_column i j (suc k))) (accumulate partial i j k r)
  unfolding accumulate row_column
  accumulate-Adding partial i j k r (size, products) fits h h' h'' s =
      rw
        (
          cell2-ok i j h',
          load-get r (16 * i + j) (omega (arith, s.0)),
          cell3-ok k i j h h',
          load-get partial (16 * (16 * k + i) + j) (omega arith),
          s.2,
          products (16 * (16 * k + i) + j) (omega arith)
              ∙ product_at a b la lb k i j _ h'' h h' refl,
          to_int-ok _ (fits i j k h h' h''),
          store-set r (16 * i + j) _ (omega (arith, s.0)),
        )
        (returns (set-Adding (16 * i + j) _ _ r (omega arith) s))

  -- The cells before c hold the entries of the product, and the others are as before.
  abbrev pub Added : ℕ → Ints → Type 0
  Added c r =
      (length r ≡ 256)
      × ((f : ℕ) → f < c → get r f ≡ row_column (f / 16) (f % 16) 16)
      × ((f : ℕ) → c ≤ f → get r f ≡ get result f)

  Added-start :
      (i j : ℕ) (r : Ints) → Added (16 * i + j) r → Adding (16 * i + j) (row_column i j 0) r
  unfolding row_column
  Added-start i j r (size, below, above) =
      (size, below, above (16 * i + j) (omega arith), λ f lt. above f (omega arith))

  Added-end :
      (i j : ℕ) (r : Ints)
      → j < 16
      → Adding (16 * i + j) (row_column i j 16) r
      → Added (16 * i + (j + 1)) r
  Added-end i j r h (size, below, here, above) = (
    size,
    (λ f lt. elim (last_or_before {k = f} {n = 16 * i + j} (omega arith)) [
      | inl e ↦
          let e₁ : f / 16 ≡ i = omega arith in
          let e₂ : f % 16 ≡ j = omega arith in rw (e₁, e₂) (ap (get r) e ∙ here)
      | inr lt' ↦ below f lt'
    ]),
    λ f le. above f (omega arith),
  )

  accumulate-Added :
      (partial : Ints)
      → Multiplied a b la lb 4096 partial
      → SumsFit
      → (i j : ℕ) (r : Ints) → i < 16
      → j < 16
      → Added (16 * i + j) r
      → Returns (Added (16 * i + (j + 1))) (for_loop 16 0 (accumulate partial i j) r)
  accumulate-Added partial products fits i j r h h' s =
      Returns-map
        (for_loop-inv (λ k. Adding (16 * i + j) (row_column i j k)) _ 16 0 16 (omega arith)
          (λ k t lo h'' p.
            let e : suc k ≡ k + 1 = omega arith in
            subst
              (λ n. Returns (Adding (16 * i + j) (row_column i j n)) (accumulate partial i j k t)) e
              (accumulate-Adding partial i j k t products fits h h' h'' p))
          r (Added-start i j r s))
        λ t. Added-end i j t h'

  accumulate_all-Added :
      (partial : Ints)
      → Multiplied a b la lb 4096 partial
      → SumsFit
      → length result ≡ 256
      → Returns (Added 256) (accumulate_all partial result)
  unfolding accumulate_all
  accumulate_all-Added partial products fits size =
      for_loop-inv (λ i. Added (16 * i)) _ 16 0 16 (omega arith)
        (λ i s lo h p.
          Returns-map
            (for_loop-inv (λ j. Added (16 * i + j)) _ 16 0 16 (omega arith)
              (λ j t lo h' p. accumulate-Added partial products fits i j t h h' p) s
              (again s (omega arith) p))
            λ t. again t (omega arith))
        result (size, (λ f lt. absurd (omega arith)), λ f le. refl)
    where
      again : {c d : ℕ} (s : Ints) → d ≡ c → Added c s → Added d s
      again s e (size, below, above) =
          (size, (λ f lt. below f (omega arith)), λ f le. above f (omega arith))

  -- On matrices of sixteen rows and columns, where no product and no partial sum leaves an int, kernel
  -- ends; each cell of result then holds what it held plus its entry of the product of mat_a and mat_b.
  pub outer_kernel-Added :
      (partial : Ints)
      → length partial ≡ 4096
      → length result ≡ 256
      → ProductsFit a b la lb
      → SumsFit
      → Returns (λ end. Added 256 (end.1)) (outer_kernel a b partial result)
  unfolding outer_kernel
  outer_kernel-Added partial size size' small sums =
      Returns-bind (multiply_all-Multiplied a b la lb small partial size) λ partial' products.
        Returns-bind (accumulate_all-Added partial' products sums size')
          λ result' added. returns added
