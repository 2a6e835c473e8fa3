-- ===== src/Backtrack/Tour.antt =====
-- What the search of backtrack.c looks for: the rest of a knight's tour, as numbers on a board.
use oo_o_processor.Common.{
  ℕ, zero, suc, ap, [], ◌∷◌, ◌+◌, ◌≤◌, ◌<◌, ◌≡◌, ◌≢◌, refl, arith, true, ℤ, pos, negsuc, ◌+ℤ◌,
  length,
}
use oo_o_processor.Array.{Ints, get, set, get-set}
use oo_o_processor.Backtrack.{on_board, cell}

-- The board holds the moves from number `m` to number 8, the first of them from the cell (x, y).
pub data Tour (x_move y_move board : Ints) : ℤ → ℤ → ℕ → Type 0 where
  complete : {x y : ℤ} → Tour x_move y_move board x y 9
  move :
      {x y : ℤ} {m : ℕ} (k : ℕ)
      → k < 8
      → on_board (x +ℤ get x_move k) (y +ℤ get y_move k) ≡ true
      → get board (cell (x +ℤ get x_move k) (y +ℤ get y_move k)) ≡ pos m
      → Tour x_move y_move board (x +ℤ get x_move k) (y +ℤ get y_move k) (m + 1)
      → Tour x_move y_move board x y m

-- `c` has the number of every cell that `b` has visited.
abbrev pub Extends : Ints → Ints → Type 0
Extends b c = (i : ℕ) → i < 9 → get b i ≢ negsuc 0 → get c i ≡ get b i

-- No cell has number `m` or a later one yet.
abbrev pub IsFresh : ℕ → Ints → Type 0
IsFresh m b = (i n : ℕ) → m ≤ n → get b i ≢ pos n

pub cell-bound : (x y : ℤ) → on_board x y ≡ true → cell x y < 9
unfolding cell
cell-bound x y h = ground arith

set-set-free : (b : Ints) (i : ℕ) (v : ℤ) → get b i ≡ negsuc 0 → set (set b i v) i (negsuc 0) ≡ b
unfolding set get
set-set-free [] i v free = refl
set-set-free (x ∷ b) zero v free = cc
set-set-free (x ∷ b) (suc i) v free = ap (λ c. x ∷ c) (set-set-free b i v free)

module _ (m i : ℕ) (b : Ints) (inside : i < length b) where
  pub IsFresh-set : IsFresh m b → IsFresh (m + 1) (set b i (pos m))
  IsFresh-set fresh j n h = ground (arith, get-set b i j (pos m) inside, fresh j n)

  -- A visit of a free cell keeps the visited ones.
  pub Extends-set : get b i ≡ negsuc 0 → Extends b (set b i (pos m))
  Extends-set free j h visited = ground (arith, get-set b i j (pos m) inside)

  -- A board with the visit that extends the board before it also extends the one after.
  pub Extends-visit : (c : Ints) → Extends b c → get c i ≡ pos m → Extends (set b i (pos m)) c
  Extends-visit c extends at j h visited = ground (arith, get-set b i j (pos m) inside, extends j h)

  -- Taking the visit of a free cell back gives the board before it.
  pub set-back : get b i ≡ negsuc 0 → set (set b i (pos m)) i (negsuc 0) ≡ b
  set-back free = set-set-free b i (pos m) free
