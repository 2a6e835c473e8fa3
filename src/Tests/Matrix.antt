-- ===== src/Tests/Matrix.antt =====
-- A run of matrix_mult_rec.c, and its theorem on the matrices of main.
use oo_o_processor.Common.{
  ℕ, suc, ◌+◌, ◌*◌, Bool, true, ◌&&◌, ◌≡◌, refl, arith, ok, Run, ◌>>=◌, Returns, ℤ, pos, ◌+ℤ◌, ◌*ℤ◌,
  List, [], ◌∷◌,
}
use oo_o_processor.Array.{get, load, store, set}
use oo_o_processor.FcForward.{is_int, to_int}
use oo_o_processor.Tests.Bounded.{all_below, both_true, below}
use oo_o_processor.MatrixMultRec
use oo_o_processor.MatrixMultRec.{
  first_rows, entry, set_entry, add_term, multiply_matrix_rec, multiply_matrix,
}
use oo_o_processor.MatrixMultRec.Product.{terms, Fits}
use oo_o_processor.MatrixMultRec.Calls.{OnceOnly, multiply_matrix-OnceOnly}

-- The first row of the product.
product_row : Run (List ℤ)
product_row = do
  s ← MatrixMultRec.main
  x ← entry s.c 0 0
  y ← entry s.c 0 1
  z ← entry s.c 0 2
  ok (x ∷ y ∷ z ∷ [])

product_row_run : product_row ≡ ok (pos 30 ∷ pos 36 ∷ pos 42 ∷ [])
unfolding product_row MatrixMultRec.main multiply_matrix multiply_matrix_rec add_term entry
    set_entry to_int is_int load store set ◌+ℤ◌ ◌*ℤ◌
product_row_run = refl

-- The products and the sums of these matrices are ints.
abbrev term_fits : ℕ → ℕ → ℕ → Bool
term_fits r n t =
    is_int (get first_rows (100 * r + n) *ℤ get first_rows (100 * n + t))
    && is_int (terms first_rows first_rows (suc n) r t)

abbrev column_fits : ℕ → ℕ → Bool
column_fits r n = all_below 3 (term_fits r n)

abbrev row_fits : ℕ → Bool
row_fits r = all_below 3 (column_fits r)

rows_fit : Bool
rows_fit = all_below 3 row_fits

rows_fit_run : rows_fit ≡ true
unfolding rows_fit is_int get terms ◌+ℤ◌ ◌*ℤ◌
rows_fit_run = refl

rows-Fits : Fits 3 3 first_rows 3 first_rows
unfolding rows_fit
rows-Fits r n t h k l =
    both_true (is_int (get first_rows (100 * r + n) *ℤ get first_rows (100 * n + t)))
      (is_int (terms first_rows first_rows (suc n) r t))
      (below 3 (term_fits r n) (below 3 (column_fits r) (below 3 row_fits rows_fit_run r h) n k) t
        l)

multiply_matrix-OnceOnly_example :
    Returns
      (OnceOnly 3 3 first_rows 3 3 first_rows)
      (multiply_matrix 40 3 3 first_rows 3 3 first_rows (record { i = 0; j = 0; k = 0; c = [] }))
multiply_matrix-OnceOnly_example =
    multiply_matrix-OnceOnly 40 3 3 first_rows 3 3 first_rows (omega arith) (omega arith)
      (omega arith) refl refl rows-Fits refl (omega arith)
