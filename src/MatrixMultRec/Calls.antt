-- ===== src/MatrixMultRec/Calls.antt =====
-- multiplyMatrixRec and multiplyMatrix compute the product, once.
use mathlib.Core.Path.{sym}
use oo_o_processor.Common.{
  ℕ, zero, suc, ◌+◌, ◌*◌, ◌<◌, ◌≤◌, ◌≡◌, refl, ap, ◌∙◌, arith, pos, true, false, ltb, leb, ◌==◌, ok,
  length, length-replicate, replicate, [], Returns, returns, Returns-bind, Returns-map,
}
use oo_o_processor.Array.{Ints, get}
use oo_o_processor.MatrixMultRec.{
  State, next_column, next_row, multiply_matrix_rec, multiply_matrix,
}
use oo_o_processor.MatrixMultRec.Product.{
  terms, due, Fits, Partial, Product, Partial-Product, Partial-column, Partial-row, added,
  add_term-added, added-Partial,
}

module _ (row1 col1 : ℕ) (a : Ints) (col2 : ℕ) (b : Ints) (rows : row1 ≤ 3) (inner : col1 ≤ 3)
    (columns : col2 ≤ 100) (size_a : length a ≡ 300) (size_b : length b ≡ 300)
    (small : Fits row1 col1 a col2 b) where
  -- The calls that are left where m rows, d columns and e terms are.
  abbrev pub budget : ℕ → ℕ → ℕ → ℕ
  budget zero d e = 0
  budget (suc m) zero e = suc (m * suc (col2 * suc col1))
  budget (suc m) (suc d) e = suc (suc (e + d * suc col1 + m * suc (col2 * suc col1)))

  budget-full : (m d : ℕ) → budget (suc m) d col1 ≡ suc (d * suc col1 + m * suc (col2 * suc col1))
  budget-full m zero = omega arith
  budget-full m (suc d) = omega arith

  budget-rows : (m : ℕ) → budget m col2 col1 ≤ m * suc (col2 * suc col1)
  budget-rows zero = omega arith
  budget-rows (suc m) = omega (arith, budget-full m col2)

  -- Once all rows are passed, a call returns at once.
  passed_call :
      (fuel : ℕ) (s : State)
      → 0 < fuel
      → row1 ≤ s.i
      → multiply_matrix_rec row1 col1 a col2 b fuel s ≡ ok s
  unfolding multiply_matrix_rec
  passed_call zero s h le = absurd (omega arith)
  passed_call (suc fuel) s h le = let t : leb row1 s.i ≡ true = ground arith in rw t refl

  not_passed : (i m : ℕ) → i + suc m ≡ row1 → leb row1 i ≡ false
  not_passed i m e = ground arith

  more : (j d n : ℕ) → j + suc d ≡ n → ltb j n ≡ true
  more j d n e = ground arith

  at_end : (j n : ℕ) → j + 0 ≡ n → j ≡ n
  at_end j n e = omega arith

  no_more : (j n : ℕ) → j + 0 ≡ n → ltb j n ≡ false
  no_more j n e = ground arith

  -- The calls after one that has passed all rows change the counters only.
  rest_of_row :
      (fuel : ℕ) (s : State)
      → 0 < fuel
      → Product row1 col1 a col2 b s
      → Returns
          (Product row1 col1 a col2 b)
          (multiply_matrix_rec row1 col1 a col2 b fuel (next_row s))
  rest_of_row fuel s h p =
      rw (passed_call fuel (next_row s) h (omega (arith, p.passed)))
        (returns (record { passed = omega (arith, p.passed); full = p.full; product = p.product }))

  rest_of_column :
      (fuel : ℕ) (s : State)
      → 0 < fuel
      → Product row1 col1 a col2 b s
      → Returns
          (Product row1 col1 a col2 b)
          (multiply_matrix_rec row1 col1 a col2 b fuel (next_column s))
  rest_of_column fuel s h p =
      rw (passed_call fuel (next_column s) h p.passed)
        (returns (record { passed = p.passed; full = p.full; product = p.product }))

  multiply_matrix_rec-Product :
      (fuel m d e : ℕ) (s : State)
      → s.i + m ≡ row1
      → s.j + d ≡ col2
      → s.k + e ≡ col1
      → budget m d e < fuel
      → Partial row1 col1 a col2 b s
      → Returns (Product row1 col1 a col2 b) (multiply_matrix_rec row1 col1 a col2 b fuel s)
  unfolding multiply_matrix_rec added
  multiply_matrix_rec-Product zero m d e s ei ej ek enough p = absurd (omega arith)
  multiply_matrix_rec-Product (suc fuel) zero d e s ei ej ek enough p =
      rw (passed_call (suc fuel) s (omega arith) (omega arith)) (
        returns (
          Partial-Product row1 col1 a col2 b rows inner columns size_a size_b small s (omega arith)
            p))
  multiply_matrix_rec-Product (suc fuel) (suc m) zero e s ei ej ek enough p =
      rw (not_passed s.i m ei, no_more s.j col2 ej)
        (multiply_matrix_rec-Product fuel m col2 col1 (next_row s) (omega arith) (omega arith)
          (omega (arith, p.edge (at_end s.j col2 ej))) (omega (arith, budget-rows m))
          (Partial-row row1 col1 a col2 b rows inner columns size_a size_b small s
            (at_end s.j col2 ej) p))
  multiply_matrix_rec-Product (suc fuel) (suc m) (suc d) zero s ei ej ek enough p =
      rw (not_passed s.i m ei, more s.j d col2 ej, no_more s.k col1 ek)
        (Returns-bind
          (multiply_matrix_rec-Product fuel (suc m) d col1 (next_column s) ei (omega arith)
            (omega arith) (omega (arith, budget-full m d))
            (Partial-column row1 col1 a col2 b rows inner columns size_a size_b small s
              (omega arith) (omega arith) p))
          λ s' done. rest_of_row fuel s' (omega arith) done)
  multiply_matrix_rec-Product (suc fuel) (suc m) (suc d) (suc e) s ei ej ek enough p =
      rw
        (
          not_passed s.i m ei,
          more s.j d col2 ej,
          more s.k e col1 ek,
          add_term-added row1 col1 a col2 b rows inner columns size_a size_b small s p (omega arith)
              (omega arith) (omega arith),
        )
        (Returns-bind
          (Returns-bind
            (multiply_matrix_rec-Product fuel (suc m) (suc d) e
              (added row1 col1 a col2 b rows inner columns size_a size_b small s) ei ej
              (omega arith) (omega arith)
              (added-Partial row1 col1 a col2 b rows inner columns size_a size_b small s p
                (omega arith) (omega arith) (omega arith)))
            λ s' done. rest_of_column fuel s' (omega arith) done)
          λ s' done. rest_of_row fuel s' (omega arith) done)

get-zeros : (n q : ℕ) → get (replicate n (pos 0)) q ≡ pos 0
unfolding get
get-zeros zero q = refl
get-zeros (suc n) zero = refl
get-zeros (suc n) (suc q) = get-zeros n q

none_due : (col1 r t : ℕ) → due col1 0 0 0 r t ≡ 0
none_due col1 r t = ground arith

zeros-Partial :
    (row1 col1 : ℕ) (a : Ints) (col2 : ℕ) (b : Ints) (n : ℕ)
    → n ≡ 10000
    → Partial row1 col1 a col2 b (record { i = 0; j = 0; k = 0; c = replicate n (pos 0) })
unfolding terms
zeros-Partial row1 col1 a col2 b n e = record {
  size = length-replicate n (pos 0) ∙ e;
  column = omega arith;
  term = omega arith;
  edge = λ e'. refl;
  cells =
      λ r t lt lt'. get-zeros n (100 * r + t) ∙ sym (ap (λ d. terms a b d r t) (none_due col1 r t));
}

-- The first call leaves the product, and counters with which a later call leaves zeros.
abbrev pub OnceOnly : ℕ → ℕ → Ints → ℕ → ℕ → Ints → State → Type 0
OnceOnly row1 col1 a row2 col2 b s =
    Product row1 col1 a col2 b s
    × ((fuel : ℕ)
        → multiply_matrix (suc fuel) row1 col1 a row2 col2 b s
          ≡ ok (record { i = s.i; j = s.j; k = s.k; c = replicate 10000 (pos 0) }))

-- The first call of multiplyMatrix, on matrices of three rows, with row2 = col1, at most three rows
-- and columns of A and at most a hundred columns of B, where no product and no partial sum leaves
-- an int, and with more fuel than row1 * (col2 * (col1 + 1) + 1), ends: each cell of C within the
-- sizes is the sum of the products along the row of A and the column of B. A second call with the
-- same matrices leaves C with zeros, since the counters stand at the end.
pub multiply_matrix-OnceOnly :
    (fuel row1 col1 : ℕ) (a : Ints) (row2 col2 : ℕ) (b : Ints)
    → row1 ≤ 3
    → col1 ≤ 3
    → col2 ≤ 100
    → length a ≡ 300
    → length b ≡ 300
    → Fits row1 col1 a col2 b
    → row2 ≡ col1
    → row1 * suc (col2 * suc col1) < fuel
    → Returns
        (OnceOnly row1 col1 a row2 col2 b)
        (multiply_matrix fuel row1 col1 a row2 col2 b (record { i = 0; j = 0; k = 0; c = [] }))
unfolding multiply_matrix
multiply_matrix-OnceOnly fuel row1 col1 a row2 col2 b rows inner columns size_a size_b small
      same_size enough =
    let same : (row2 == col1) ≡ true = ground arith in
    rw same (
      Returns-map
        (multiply_matrix_rec-Product row1 col1 a col2 b rows inner columns size_a size_b small fuel
          row1 col2 col1 _ (omega arith) (omega arith) (omega arith)
          (omega
            (arith, budget-rows row1 col1 a col2 b rows inner columns size_a size_b small row1))
          (zeros-Partial row1 col1 a col2 b 10000 refl))
        λ s done. (
          done,
          λ n. rw same (
              passed_call row1 col1 a col2 b rows inner columns size_a size_b small (suc n) _
                (omega arith) done.passed),
        ))
