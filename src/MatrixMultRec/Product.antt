-- ===== src/MatrixMultRec/Product.antt =====
-- The cells of C while multiplyMatrixRec adds the terms of the product.
use oo_o_processor.Common.{
  ℕ, zero, suc, ◌+◌, ◌*◌, ◌<◌, ◌≤◌, ◌≡◌, ◌≢◌, refl, ap, ◌∙◌, arith, ℤ, pos, ◌+ℤ◌, ◌*ℤ◌, true, false,
  ltb, lt→ltb, ◌==◌, ok, if◌then◌else◌, length, Bool-cases, inl, inr,
}
use oo_o_processor.Array.{
  Ints, get, set, load-get, store-set, get-set_same, get-set_other, length-set,
}
use oo_o_processor.FcForward.{is_int}
use oo_o_processor.FcForward.Dot.{to_int-ok}
use oo_o_processor.MatrixMultRec.{State, entry, set_entry, add_term, next_column, next_row}

entry-get :
    (m : Ints) (r s : ℕ) → s < 100 → 100 * r + s < length m → entry m r s ≡ ok (get m (100 * r + s))
unfolding entry
entry-get m r s h inside = rw (lt→ltb s 100 h, load-get m (100 * r + s) inside) refl

set_entry-set :
    (m : Ints) (r s : ℕ) (v : ℤ)
    → s < 100
    → 100 * r + s < length m
    → set_entry m r s v ≡ ok (set m (100 * r + s) v)
unfolding set_entry
set_entry-set m r s v h inside = rw (lt→ltb s 100 h, store-set m (100 * r + s) v inside) refl

-- The sum of the first n terms of a cell of the product.
unfoldable pub terms : Ints → Ints → ℕ → ℕ → ℕ → ℤ
terms a b zero r s = pos 0
terms a b (suc n) r s = terms a b n r s +ℤ get a (100 * r + n) *ℤ get b (100 * n + s)

-- How many terms have been added to the cell (r, s) where the counters are i, j and k.
abbrev pub due : ℕ → ℕ → ℕ → ℕ → ℕ → ℕ → ℕ
due col1 i j k r s =
    if ltb r i
    then col1
    else if r == i
    then (if ltb s j then col1 else if s == j then k else 0)
    else 0

==_true : {m n : ℕ} → (m == n) ≡ true → m ≡ n
==_true t = ground arith

==_false : {m n : ℕ} → (m == n) ≡ false → m ≢ n
==_false t = ground arith

module _ (row1 col1 : ℕ) (a : Ints) (col2 : ℕ) (b : Ints) where
  pub record Partial (s : State) : Type 0 where
    pub size : length s.c ≡ 10000
    pub column : s.j ≤ col2
    pub term : s.k ≤ col1
    pub edge : s.j ≡ col2 → s.k ≡ 0
    pub cells :
        (r t : ℕ)
        → r < row1
        → t < col2
        → get s.c (100 * r + t) ≡ terms a b (due col1 s.i s.j s.k r t) r t

  -- All cells hold the product.
  pub record Product (s : State) : Type 0 where
    pub passed : row1 ≤ s.i
    pub full : length s.c ≡ 10000
    pub product : (r t : ℕ) → r < row1 → t < col2 → get s.c (100 * r + t) ≡ terms a b col1 r t

-- No product and no partial sum of a cell leaves an int.
abbrev pub Fits : ℕ → ℕ → Ints → ℕ → Ints → Type 0
Fits row1 col1 a col2 b =
    (r n t : ℕ)
    → r < row1
    → n < col1
    → t < col2
    → (is_int (get a (100 * r + n) *ℤ get b (100 * n + t)) ≡ true)
      × (is_int (terms a b (suc n) r t) ≡ true)

module _ (row1 col1 : ℕ) (a : Ints) (col2 : ℕ) (b : Ints) (rows : row1 ≤ 3) (inner : col1 ≤ 3)
    (columns : col2 ≤ 100) (size_a : length a ≡ 300) (size_b : length b ≡ 300)
    (small : Fits row1 col1 a col2 b) where
  due-passed : (i j k r t : ℕ) → r < row1 → row1 ≤ i → due col1 i j k r t ≡ col1
  due-passed i j k r t lt le = ground arith

  pub Partial-Product :
      (s : State) → row1 ≤ s.i → Partial row1 col1 a col2 b s → Product row1 col1 a col2 b s
  Partial-Product s le p = record {
    passed = le;
    full = p.size;
    product = λ r t lt lt'.
        p.cells r t lt lt' ∙ ap (λ n. terms a b n r t) (due-passed s.i s.j s.k r t lt le);
  }

  due-column : (i j k r t : ℕ) → k ≡ col1 → due col1 i j k r t ≡ due col1 i (j + 1) 0 r t
  due-column i j k r t e = ground arith

  due-row :
      (i j k r t : ℕ) → j ≡ col2 → k ≡ 0 → t < col2 → due col1 i j k r t ≡ due col1 (i + 1) 0 k r t
  due-row i j k r t e e' lt = ground arith

  pub Partial-column :
      (s : State)
      → s.j < col2
      → s.k ≡ col1
      → Partial row1 col1 a col2 b s
      → Partial row1 col1 a col2 b (next_column s)
  Partial-column s lt e p = record {
    size = p.size;
    column = omega arith;
    term = omega arith;
    edge = λ e'. refl;
    cells =
        λ r t lt lt'. p.cells r t lt lt' ∙ ap (λ n. terms a b n r t) (due-column s.i s.j s.k r t e);
  }

  pub Partial-row :
      (s : State)
      → s.j ≡ col2
      → Partial row1 col1 a col2 b s
      → Partial row1 col1 a col2 b (next_row s)
  Partial-row s e p = record {
    size = p.size;
    column = omega arith;
    term = p.term;
    edge = λ e'. p.edge e;
    cells = λ r t lt lt'.
        p.cells r t lt lt' ∙ ap (λ n. terms a b n r t) (due-row s.i s.j s.k r t e (p.edge e) lt');
  }

  -- The state after a term.
  unfoldable pub added : State → State
  added s = record {
    i = s.i;
    j = s.j;
    k = suc s.k;
    c =
        set s.c (100 * s.i + s.j)
          (get s.c (100 * s.i + s.j) +ℤ get a (100 * s.i + s.k) *ℤ get b (100 * s.k + s.j));
  }

  module _ (s : State) (p : Partial row1 col1 a col2 b s) (lt_i : s.i < row1) (lt_j : s.j < col2)
      (lt_k : s.k < col1) where
    here : (i j k : ℕ) → due col1 i j k i j ≡ k
    here i j k = ground arith

    cell_here : get s.c (100 * s.i + s.j) ≡ terms a b s.k s.i s.j
    cell_here = p.cells s.i s.j lt_i lt_j ∙ ap (λ n. terms a b n s.i s.j) (here s.i s.j s.k)

    sum_fits :
        is_int (get s.c (100 * s.i + s.j) +ℤ get a (100 * s.i + s.k) *ℤ get b (100 * s.k + s.j))
        ≡ true
    unfolding terms
    sum_fits = rw cell_here ((small s.i s.k s.j lt_i lt_k lt_j).1)

    pub add_term-added : add_term row1 col1 a col2 b s ≡ ok (added s)
    unfolding add_term added
    add_term-added =
        rw
          (
            entry-get a s.i s.k (omega arith) (omega arith),
            entry-get b s.k s.j (omega arith) (omega arith),
            entry-get s.c s.i s.j (omega arith) (omega (arith, p.size)),
            to_int-ok _ ((small s.i s.k s.j lt_i lt_k lt_j).0),
            to_int-ok _ sum_fits,
            set_entry-set s.c s.i s.j
                (get s.c (100 * s.i + s.j) +ℤ get a (100 * s.i + s.k) *ℤ get b (100 * s.k + s.j))
                (omega arith) (omega (arith, p.size)),
          )
          refl

    elsewhere :
        (i j k r t : ℕ) → 100 * i + j ≢ 100 * r + t → due col1 i j k r t ≡ due col1 i j (suc k) r t
    elsewhere i j k r t ne = ground arith

    pub added-Partial : Partial row1 col1 a col2 b (added s)
    unfolding added terms
    added-Partial = record {
      size = length-set s.c _ _ ∙ p.size;
      column = p.column;
      term = lt_k;
      edge = λ e. absurd (omega arith);
      cells = λ r t lt lt'. elim (Bool-cases (100 * s.i + s.j == 100 * r + t)) [
        | inl same ↦
            let e : r ≡ s.i = omega (arith, ==_true same) in
            let e' : t ≡ s.j = omega (arith, ==_true same) in
            rw
              (
                e,
                e',
                here s.i s.j (suc s.k),
                get-set_same s.c (100 * s.i + s.j)
                    (get s.c (100 * s.i + s.j)
                      +ℤ get a (100 * s.i + s.k) *ℤ get b (100 * s.k + s.j))
                    (omega (arith, p.size)),
              )
              (ap (λ z. z +ℤ get a (100 * s.i + s.k) *ℤ get b (100 * s.k + s.j)) cell_here)
        | inr other ↦
            get-set_other s.c (100 * s.i + s.j) (100 * r + t) _ (omega (arith, p.size))
              (==_false other)
            ∙ p.cells r t lt lt'
            ∙ ap (λ n. terms a b n r t) (elsewhere s.i s.j s.k r t (==_false other))
      ];
    }
