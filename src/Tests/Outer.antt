-- ===== src/Tests/Outer.antt =====
-- The theorem on outer_product.c at matrices of ones.
use oo_o_processor.Common.{
  ℕ, zero, suc, ◌+◌, ◌*◌, ◌<◌, ◌≤◌, ◌≡◌, refl, arith, pos, replicate, ◌+ℤ◌, ◌*ℤ◌, Returns,
  length-replicate, true,
}
use oo_o_processor.Array.{Ints, get}
use oo_o_processor.FcForward.{is_int}
use oo_o_processor.OuterProduct.{outer_kernel}
use oo_o_processor.OuterProduct.Partial.{ProductsFit}
use oo_o_processor.OuterProduct.Product.{row_column, SumsFit, Added, outer_kernel-Added}

abbrev ones : Ints
ones = replicate 256 (pos 1)

get-ones : (n f : ℕ) → f < n → get (replicate n (pos 1)) f ≡ pos 1
unfolding get
get-ones zero f h = absurd (omega arith)
get-ones (suc n) zero h = refl
get-ones (suc n) (suc f) h = get-ones n f (omega arith)

add_product : (n : ℕ) → pos n +ℤ pos 1 *ℤ pos 1 ≡ pos (suc n)
unfolding ◌+ℤ◌ ◌*ℤ◌
add_product n = ground arith

row_column-ones :
    (i j n : ℕ) → i < 16 → j < 16 → n ≤ 16 → row_column ones ones ones refl refl i j n ≡ pos (suc n)
unfolding row_column
row_column-ones i j zero h h' le = get-ones 256 (16 * i + j) (omega arith)
row_column-ones i j (suc n) h h' le =
    rw
      (
        row_column-ones i j n h h' (omega arith),
        get-ones 256 (16 * i + n) (omega arith),
        get-ones 256 (16 * n + j) (omega arith),
      )
      (add_product (suc n))

is_int-pos : (n : ℕ) → n ≤ 17 → is_int (pos n) ≡ true
unfolding is_int
is_int-pos n h = ground arith

one_fits : is_int (pos 1 *ℤ pos 1) ≡ true
unfolding is_int ◌*ℤ◌
one_fits = refl

ones-ProductsFit : ProductsFit ones ones refl refl
ones-ProductsFit i j k h h' h'' =
    rw (get-ones 256 (16 * j + i) (omega arith), get-ones 256 (16 * i + k) (omega arith)) one_fits

ones-SumsFit : SumsFit ones ones ones refl refl
ones-SumsFit i j k h h' h'' =
    rw (row_column-ones i j (suc k) h h' (omega arith)) (is_int-pos (suc (suc k)) (omega arith))

outer_kernel-Added_example :
    Returns
      (λ end. Added ones ones ones refl refl 256 (end.1))
      (outer_kernel ones ones (replicate 4096 (pos 0)) ones)
outer_kernel-Added_example =
    outer_kernel-Added ones ones ones refl refl (replicate 4096 (pos 0))
      (length-replicate 4096 (pos 0)) refl ones-ProductsFit ones-SumsFit
