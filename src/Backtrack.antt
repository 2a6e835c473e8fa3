-- ===== src/Backtrack.antt =====
-- test_progs/backtrack.c: a knight's tour of an N x N board by backtracking, N = 3. The board
-- int sol[N][N] is its nine cells, row after row; a cell that is not visited holds -1.
pub mod Tour
pub mod Search
use oo_o_processor.Common.{
  ℕ, zero, suc, ◌+◌, ◌*◌, Bool, true, false, ◌&&◌, [], ◌∷◌, ℤ, pos, negsuc, pos_part, ◌+ℤ◌, ltb_ℤ,
  leb_ℤ, ◌==ℤ◌, ◌==◌, Run, ok, out_of_fuel, ◌>>=◌, if◌then◌else◌,
}
use oo_o_processor.Array.{Ints, load, store, fill}

-- x >= 0 && x < N && y >= 0 && y < N
abbrev pub on_board : ℤ → ℤ → Bool
on_board x y = leb_ℤ (pos 0) x && ltb_ℤ x (pos 3) && leb_ℤ (pos 0) y && ltb_ℤ y (pos 3)

-- The index of sol[x][y], which the source only uses on the board.
unfoldable pub cell : ℤ → ℤ → ℕ
cell x y = pos_part x * 3 + pos_part y

-- && reads sol[x][y] only on the board.
unfoldable pub is_safe : ℤ → ℤ → Ints → Run Bool
is_safe x y sol =
    if on_board x y then (do v ← load sol (cell x y); ok (v ==ℤ negsuc 0)) else ok false

-- The body of the loop over the moves: whether a tour is found (1 or 0), and the board. `solve` is
-- the recursive call, `try_others` the rounds that follow.
unfoldable pub try_move :
    (ℤ → ℤ → ℕ → Ints → Run (ℕ × Ints))
    → (Ints → Run (ℕ × Ints))
    → ℤ
    → ℤ
    → ℕ
    → Ints
    → Run (ℕ × Ints)
try_move solve try_others next_x next_y movei sol = do
  safe ← is_safe next_x next_y sol
  if safe
      then (do
        marked ← store sol (cell next_x next_y) (pos movei)
        (found, tried) ← solve next_x next_y (movei + 1) marked
        if found == 1
            then ok (1, tried)
            else (do restored ← store tried (cell next_x next_y) (negsuc 0); try_others restored))
      else try_others sol

-- for (k = 0; k < 8; k++), by the rounds left.
unfoldable pub try_moves :
    Ints → Ints → (ℤ → ℤ → ℕ → Ints → Run (ℕ × Ints)) → ℕ → ℕ → ℤ → ℤ → ℕ → Ints → Run (ℕ × Ints)
try_moves x_move y_move solve zero k x y movei sol = ok (0, sol)
try_moves x_move y_move solve (suc n) k x y movei sol = do
  dx ← load x_move k
  dy ← load y_move k
  try_move solve (try_moves x_move y_move solve n (k + 1) x y movei) (x +ℤ dx) (y +ℤ dy) movei sol

unfoldable pub solve_kt_util : Ints → Ints → ℕ → ℤ → ℤ → ℕ → Ints → Run (ℕ × Ints)
solve_kt_util x_move y_move zero x y movei sol = out_of_fuel
solve_kt_util x_move y_move (suc fuel) x y movei sol =
    if movei == 9
    then ok (1, sol)
    else try_moves x_move y_move (solve_kt_util x_move y_move fuel) 8 0 x y movei sol

-- int xMove[8], yMove[8]
abbrev pub x_moves : Ints
x_moves = pos 2 ∷ pos 1 ∷ negsuc 0 ∷ negsuc 1 ∷ negsuc 1 ∷ negsuc 0 ∷ pos 1 ∷ pos 2 ∷ []

abbrev pub y_moves : Ints
y_moves = pos 1 ∷ pos 2 ∷ pos 2 ∷ pos 1 ∷ negsuc 0 ∷ negsuc 1 ∷ negsuc 1 ∷ negsuc 0 ∷ []

-- The board before the search: all cells -1, and then sol[0][0] = 0.
unfoldable pub start_board : Run Ints
start_board = store (fill 9 0 λ _. negsuc 0) (cell (pos 0) (pos 0)) (pos 0)

unfoldable pub solve_kt : Run ℕ
solve_kt = do
  sol ← start_board
  (found, sol') ← solve_kt_util x_moves y_moves 10 (pos 0) (pos 0) 1 sol
  if found == 0 then ok 0 else ok 1
