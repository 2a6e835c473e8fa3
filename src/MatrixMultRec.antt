-- ===== src/MatrixMultRec.antt =====
-- test_progs/matrix_mult_rec.c: multiplyMatrixRec, with its static counters, and multiplyMatrix. A row of
-- a matrix has a hundred cells, and the rows follow one another. A sum or a product that leaves an `int`
-- is a fault.
use oo_o_processor.Common.{
  ℕ, zero, suc, ◌+◌, ◌*◌, ℤ, pos, ◌+ℤ◌, ◌*ℤ◌, ltb, leb, not, ◌==◌, Run, ok, fault, out_of_fuel,
  ◌>>=◌, if◌then◌else◌, replicate, List, [], ◌∷◌, ◌++◌,
}
use oo_o_processor.Array.{Ints, load, store}
use oo_o_processor.FcForward.{to_int}
pub mod Product
pub mod Calls

-- The static counters, and C.
pub record State : Type 0 where
  pub i : ℕ
  pub j : ℕ
  pub k : ℕ
  pub c : Ints

-- m[r][s], and m[r][s] = v.
unfoldable pub entry : Ints → ℕ → ℕ → Run ℤ
entry m r s = if ltb s 100 then load m (100 * r + s) else fault

unfoldable pub set_entry : Ints → ℕ → ℕ → ℤ → Run Ints
set_entry m r s v = if ltb s 100 then store m (100 * r + s) v else fault

-- k = 0; j++ and j = 0; i++
abbrev pub next_column : State → State
next_column s = record { i = s.i; j = s.j + 1; k = 0; c = s.c }

abbrev pub next_row : State → State
next_row s = record { i = s.i + 1; j = 0; k = s.k; c = s.c }

module _ (row1 col1 : ℕ) (a : Ints) (col2 : ℕ) (b : Ints) where
  -- C[i][j] += A[i][k] * B[k][j]; k++
  unfoldable pub add_term : State → Run State
  add_term s = do
    x ← entry a s.i s.k
    y ← entry b s.k s.j
    z ← entry s.c s.i s.j
    p ← to_int (x *ℤ y)
    v ← to_int (z +ℤ p)
    c ← set_entry s.c s.i s.j v
    ok (record { i = s.i; j = s.j; k = suc s.k; c = c })

  unfoldable pub multiply_matrix_rec : ℕ → State → Run State
  multiply_matrix_rec zero s = out_of_fuel
  multiply_matrix_rec (suc fuel) s =
      let term = (do s' ← add_term s; multiply_matrix_rec fuel s') in
      let column = (do
        s' ← if ltb s.k col1 then term else ok s
        multiply_matrix_rec fuel (next_column s')) in
      let row = (do
        s' ← if ltb s.j col2 then column else ok s
        multiply_matrix_rec fuel (next_row s')) in
      if leb row1 s.i then ok s else row

-- The counters and C afterwards; the loops that follow change nothing. `s` is what the counters hold.
unfoldable pub multiply_matrix : ℕ → ℕ → ℕ → Ints → ℕ → ℕ → Ints → State → Run State
multiply_matrix fuel row1 col1 a row2 col2 b s =
    if not (row2 == col1)
    then ok s
    else multiply_matrix_rec row1 col1 a col2 b fuel
        (record { i = s.i; j = s.j; k = s.k; c = replicate 10000 (pos 0) })

abbrev pub first_rows : Ints
first_rows =
    pos 1 ∷ pos 2 ∷ pos 3 ∷ replicate 97 (pos 0)
    ++ pos 4 ∷ pos 5 ∷ pos 6 ∷ replicate 97 (pos 0)
    ++ pos 7 ∷ pos 8 ∷ pos 9 ∷ replicate 97 (pos 0)

-- The counters are 0 at first.
unfoldable pub main : Run State
main = multiply_matrix 40 3 3 first_rows 3 3 first_rows (record { i = 0; j = 0; k = 0; c = [] })
