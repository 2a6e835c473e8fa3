-- ===== src/OuterProduct.antt =====
-- test_progs/outer_product.c: kernel and main, with N = 16. An array of several dimensions is one list,
-- row after row; a product or a sum that leaves an `int` is a fault.
pub mod Partial
pub mod Product
use oo_o_processor.Common.{
  ℕ, ◌+◌, ◌*◌, ◌%◌, ◌^◌, pos, ◌+ℤ◌, ◌*ℤ◌, ltb, ◌&&◌, Run, ok, fault, ◌>>=◌, if◌then◌else◌, for_loop,
}
use oo_o_processor.Array.{Ints, load, store}
use oo_o_processor.FcForward.{to_int}

-- The cells [i][j] and [i][j][k].
unfoldable pub cell2 : ℕ → ℕ → Run ℕ
cell2 i j = if ltb j 16 then ok (16 * i + j) else fault

unfoldable pub cell3 : ℕ → ℕ → ℕ → Run ℕ
cell3 i j k = do row ← cell2 i j; if ltb k 16 then ok (16 * row + k) else fault

-- partial[i][j][k] = mat_a[j][i] * mat_b[i][k]
unfoldable pub multiply : Ints → Ints → ℕ → ℕ → ℕ → Ints → Run Ints
multiply mat_a mat_b i j k partial = do
  u ← cell2 j i
  x ← load mat_a u
  v ← cell2 i k
  y ← load mat_b v
  p ← to_int (x *ℤ y)
  c ← cell3 i j k
  store partial c p

-- result[i][j] += partial[k][i][j]
unfoldable pub accumulate : Ints → ℕ → ℕ → ℕ → Ints → Run Ints
accumulate partial i j k result = do
  u ← cell2 i j
  x ← load result u
  v ← cell3 k i j
  y ← load partial v
  s ← to_int (x +ℤ y)
  store result u s

unfoldable pub multiply_all : Ints → Ints → Ints → Run Ints
multiply_all mat_a mat_b partial =
    for_loop 16 0 (λ i. for_loop 16 0 λ j. for_loop 16 0 (multiply mat_a mat_b i j)) partial

unfoldable pub accumulate_all : Ints → Ints → Run Ints
accumulate_all partial result =
    for_loop 16 0 (λ i. for_loop 16 0 λ j. for_loop 16 0 (accumulate partial i j)) result

-- The array partial, and the array result.
unfoldable pub outer_kernel : Ints → Ints → Ints → Ints → Run (Ints × Ints)
outer_kernel mat_a mat_b partial result = do
  partial' ← multiply_all mat_a mat_b partial
  result' ← accumulate_all partial' result
  ok (partial', result')

-- The cell [i][j] of the three matrices in main; `rand` gives the results of the calls of rand() in
-- their order.
unfoldable pub init_cell : (ℕ → ℕ) → ℕ → ℕ → Ints × Ints × Ints → Run (Ints × Ints × Ints)
init_cell rand i j (mat_a, mat_b, result) = do
  c ← cell2 i j
  a ← store mat_a c (pos (rand (2 * (16 * i + j)) % 2 ^ 16))
  b ← store mat_b c (pos (rand (2 * (16 * i + j) + 1) % 2 ^ 16))
  r ← store result c (pos 0)
  ok (a, b, r)

unfoldable pub main : (ℕ → ℕ) → Ints → Ints → Ints → Ints → Run (Ints × Ints)
main rand mat_a mat_b result partial = do
  (a, b, r) ← for_loop 16 0 (λ i. for_loop 16 0 (init_cell rand i)) (mat_a, mat_b, result)
  outer_kernel a b partial r
