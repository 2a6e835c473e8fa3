-- ===== src/Backtrack/Search.antt =====
-- `solveKTUtil` of backtrack.c decides whether the tour can be completed.
use oo_o_processor.Common.{
  ℕ, zero, suc, ◌+◌, ◌-◌, ◌≤◌, ◌<◌, ◌≡◌, ◌≢◌, ◌⊎◌, refl, ◌∙◌, arith, true, ◌&&◌, ℤ, pos, negsuc,
  ◌+ℤ◌, ◌==◌, ◌==ℤ◌, eq_of_parts, Bool-cases, inl, inr, length, if◌then◌else◌, Run, Returns,
  returns, Returns-bind, ok, Returns-map, ◌>>=◌,
}
use mathlib.Core.Path.{subst}
use oo_o_processor.Array.{Ints, get, set, load-get, store, store-set, get-set, length-set}
use oo_o_processor.Backtrack.{on_board, cell, is_safe, try_move, try_moves, solve_kt_util}
use oo_o_processor.Backtrack.Tour.{
  Tour, complete, move, Extends, IsFresh, cell-bound, IsFresh-set, Extends-visit, set-back,
}

-- A board the search is called on: nine cells, and the numbers from `m` on not used yet.
pub record IsBoard (m : ℕ) (b : Ints) : Type 0 where
  pub size : length b ≡ 9
  pub fresh : IsFresh m b

-- The answer 1 comes with a board that has kept the visits and holds what is wanted. The answer 0
-- comes with the board as it was, and no board that extends it holds what is wanted.
pub data Decides (Wanted : Ints → Type 0) (b : Ints) : ℕ × Ints → Type 0 where
  found : {c : Ints} → length c ≡ 9 → Extends b c → Wanted c → Decides Wanted b (1, c)
  failed : ((c : Ints) → Extends b c → Wanted c → ⊥) → Decides Wanted b (0, b)

Decides-map :
    {Wanted Other : Ints → Type 0} {b : Ints} {r : ℕ × Ints}
    → ((c : Ints) → Wanted c → Other c)
    → ((c : Ints) → Extends b c → Other c → Wanted c)
    → Decides Wanted b r
    → Decides Other b r
Decides-map to from (found size kept w) = found size kept (to _ w)
Decides-map to from (failed none_wanted) = failed λ c e o. none_wanted c e (from c e o)

is_safe-run :
    (x y : ℤ) (b : Ints)
    → length b ≡ 9
    → is_safe x y b ≡ ok (on_board x y && (get b (cell x y) ==ℤ negsuc 0))
unfolding is_safe
is_safe-run x y b size = elim (Bool-cases (on_board x y)) [
  | inr off ↦ rw off refl
  | inl on ↦ rw (on, load-get b (cell x y) (let h = cell-bound x y on in omega arith)) refl
]

module _ (x_move y_move : Ints) where
  -- The cell (x, y) has number m, and the tour goes on from there.
  abbrev Visit : ℤ → ℤ → ℕ → Ints → Type 0
  Visit x y m c =
      (on_board x y ≡ true) × (get c (cell x y) ≡ pos m) × Tour x_move y_move c x y (m + 1)

  module _ (x y : ℤ) (m : ℕ) (b : Ints) (board : IsBoard m b) where
    -- Only a free cell can get the number.
    Visit-free :
        (c : Ints)
        → Extends b c
        → Visit x y m c
        → (on_board x y && (get b (cell x y) ==ℤ negsuc 0)) ≡ true
    Visit-free c kept v =
        let h = cell-bound x y v.0 in
        rw (v.0) (elim (Bool-cases (get b (cell x y) ==ℤ negsuc 0)) [
          | inl t ↦ t
          | inr f ↦ absurd (ground (arith, kept (cell x y) h, v.1, board.fresh (cell x y) m))
        ])

    free-at :
        (on_board x y && (get b (cell x y) ==ℤ negsuc 0)) ≡ true
        → (on_board x y ≡ true) × (cell x y < length b) × (get b (cell x y) ≡ negsuc 0)
    free-at t = elim (Bool-cases (on_board x y)) [
      | inr off ↦ absurd (ground (arith, t, off))
      | inl on ↦
          let h = cell-bound x y on in
          (
            on,
            omega (arith, board.size, h),
            ground (arith, t, on, eq_of_parts (get b (cell x y)) (negsuc 0)),
          )
    ]

    module _ (on : on_board x y ≡ true) (inside : cell x y < length b)
        (free : get b (cell x y) ≡ negsuc 0) where
      marked-IsBoard : IsBoard (m + 1) (set b (cell x y) (pos m))
      marked-IsBoard = record {
        size = length-set b (cell x y) (pos m) ∙ board.size;
        fresh = IsFresh-set m (cell x y) b inside board.fresh;
      }

      -- What the board holds after a visit that solves.
      found-Visit :
          (d : Ints)
          → Extends (set b (cell x y) (pos m)) d
          → Extends b d × (get d (cell x y) ≡ pos m)
      found-Visit d kept = (
        λ i h seen. ground (arith, kept i h, get-set b (cell x y) i (pos m) inside),
        ground (
          arith,
          kept (cell x y) (cell-bound x y on),
          get-set b (cell x y) (cell x y) (pos m) inside,
        ),
      )

      after-Visit :
          (others : Ints → Run (ℕ × Ints)) (Others : Ints → Type 0)
          → Returns (Decides Others b) (others b)
          → (r : ℕ × Ints)
          → Decides (λ d. Tour x_move y_move d x y (m + 1)) (set b (cell x y) (pos m)) r
          → Returns
              (Decides (λ c. Visit x y m c ⊎ Others c) b)
              (if r.0 == 1 then ok (1, r.1) else (store r.1 (cell x y) (negsuc 0) >>= others))
      after-Visit others Others rest (_, d) (found size kept tour) =
          let v = found-Visit d kept in returns (found size v.0 (inl (on, v.1, tour)))
      after-Visit others Others rest (_, _) (failed none_solves) =
          rw
            (
              store-set (set b (cell x y) (pos m)) (cell x y) (negsuc 0)
                  (omega (arith, inside, length-set b (cell x y) (pos m))),
              set-back m (cell x y) b inside free,
            )
            (Returns-map rest λ r.
              Decides-map (λ c. inr)
                λ c kept. elim [
                  | inl v ↦
                      absurd (none_solves c (Extends-visit m (cell x y) b inside c kept v.1) v.2)
                  | inr o ↦ o
                ])

    -- One round: the visit of a free cell that solves, or else what the other rounds find.
    try_move-Decides :
        (solve : ℤ → ℤ → ℕ → Ints → Run (ℕ × Ints)) (others : Ints → Run (ℕ × Ints))
        (Others : Ints → Type 0)
        → ((c : Ints)
            → IsBoard (m + 1) c
            → Returns (Decides (λ d. Tour x_move y_move d x y (m + 1)) c) (solve x y (m + 1) c))
        → Returns (Decides Others b) (others b)
        → Returns (Decides (λ c. Visit x y m c ⊎ Others c) b) (try_move solve others x y m b)
    unfolding try_move
    try_move-Decides solve others Others solves rest =
        rw (is_safe-run x y b board.size)
          (elim (Bool-cases (on_board x y && (get b (cell x y) ==ℤ negsuc 0))) [
            | inr f ↦ rw f (
                Returns-map rest λ r.
                  Decides-map (λ c. inr)
                    λ c kept. elim [
                      | inl v ↦ absurd (ground (arith, Visit-free c kept v, f))
                      | inr o ↦ o
                    ])
            | inl t ↦
                let free = free-at t in
                rw (t, store-set b (cell x y) (pos m) free.1)
                  (Returns-bind
                    (solves (set b (cell x y) (pos m)) (marked-IsBoard free.0 free.1 free.2))
                    (after-Visit free.0 free.1 free.2 others Others rest))
          ])

  -- One of the moves from number k on starts the rest of the tour.
  abbrev From : ℕ → ℤ → ℤ → ℕ → Ints → Type 0
  From k x y m c = (j : ℕ) × (k ≤ j) × (j < 8) × Visit (x +ℤ get x_move j) (y +ℤ get y_move j) m c

  Tour-From : {c : Ints} {x y : ℤ} {m : ℕ} → m ≢ 9 → Tour x_move y_move c x y m → From 0 x y m c
  Tour-From ne complete = absurd (ne refl)
  Tour-From ne (move k h on at tour) = (k, omega arith, h, (on, at, tour))

  From-first :
      (k : ℕ) (x y : ℤ) (m : ℕ) (c : Ints)
      → From k x y m c
      → Visit (x +ℤ get x_move k) (y +ℤ get y_move k) m c ⊎ From (k + 1) x y m c
  From-first k x y m c (j, p, q, v) = elim (Bool-cases (k == j)) [
    | inl e ↦ inl (subst (λ i. Visit (x +ℤ get x_move i) (y +ℤ get y_move i) m c) (ground arith) v)
    | inr ne ↦ inr (j, ground arith, q, v)
  ]

  module _ (x_size : length x_move ≡ 8) (y_size : length y_move ≡ 8) where
    try_moves-Decides :
        (solve : ℤ → ℤ → ℕ → Ints → Run (ℕ × Ints)) (m : ℕ)
        → ((x y : ℤ) (c : Ints)
            → IsBoard (m + 1) c
            → Returns (Decides (λ d. Tour x_move y_move d x y (m + 1)) c) (solve x y (m + 1) c))
        → (n k : ℕ) (x y : ℤ) (b : Ints) → k + n ≡ 8
        → IsBoard m b
        → Returns (Decides (From k x y m) b) (try_moves x_move y_move solve n k x y m b)
    unfolding try_moves
    try_moves-Decides solve m solves zero k x y b e board =
        returns (failed λ c kept start. omega (arith, start.1, start.2))
    try_moves-Decides solve m solves (suc n) k x y b e board =
        rw (load-get x_move k (omega arith), load-get y_move k (omega arith))
          (Returns-map
            (try_move-Decides _ _ m b board solve _ _ (solves _ _)
              (try_moves-Decides solve m solves n (k + 1) x y b (omega arith) board))
            λ r.
              Decides-map
                (λ c. elim [
                  | inl v ↦ (k, omega arith, omega arith, v)
                  | inr (j, p, q, v) ↦ (j, omega arith, q, v)
                ])
                (λ c kept. From-first k x y m c))

    -- With eight moves in the two arrays, on a board of nine cells with no number from m on, m at most
    -- 9, and with more fuel than moves are left, solveKTUtil returns. After 1, the board has kept the
    -- numbers it had and holds the rest of a knight's tour from (x, y). After 0, the board is as it
    -- was, and no board that keeps its numbers holds such a tour.
    pub solve_kt_util-Decides :
        (fuel : ℕ) (x y : ℤ) (m : ℕ) (b : Ints)
        → m ≤ 9
        → 9 - m < fuel
        → IsBoard m b
        → Returns
            (Decides (λ c. Tour x_move y_move c x y m) b)
            (solve_kt_util x_move y_move fuel x y m b)
    unfolding solve_kt_util
    solve_kt_util-Decides zero x y m b early enough board = absurd (omega arith)
    solve_kt_util-Decides (suc fuel) x y m b early enough board = elim (Bool-cases (m == 9)) [
      | inl t ↦ rw t (
          returns (
            found board.size (λ i h seen. refl)
              (subst (Tour x_move y_move b x y) (ground arith) complete)))
      | inr f ↦ rw f (
          Returns-map
            (try_moves-Decides (solve_kt_util x_move y_move fuel) m
              (λ x' y' c. solve_kt_util-Decides fuel x' y' (m + 1) c (ground arith) (ground arith))
              8 0 x y b refl board)
            λ r.
              Decides-map (λ c s. move s.0 s.2 s.3.0 s.3.1 s.3.2)
                λ c kept. Tour-From (ground arith))
    ]
