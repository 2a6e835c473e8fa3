-- ===== src/Bfs/Reach.antt =====
-- The vertices that breadthFirstSearch is to find, and what the loop of getAdjUnvisitedVertex does.
use mathlib.Core.Path.{subst}
use oo_o_processor.Common.{
  ℕ, zero, suc, ◌+◌, ◌*◌, ◌<◌, ◌≤◌, ◌≡◌, ◌≢◌, refl, inl, inr, arith, ℤ, pos, negsuc, ◌==ℤ◌, ◌==◌,
  true, false, ok, if◌then◌else◌, length, Returns, returns, lt→ltb, Bool-cases, Returns-map,
  Returns-if, if_both,
}
use oo_o_processor.Array.{Ints, get, load-get}
use oo_o_processor.Bfs.{adj_cell, is_open, find_loop}

-- An edge of the matrix, to a vertex below n.
abbrev pub Edge : Ints → ℕ → ℕ → ℕ → Type 0
Edge m n i j = (j < n) × (get m (5 * i + j) ≡ pos 1)

-- A path from the vertex 0.
pub data Reaches (m : Ints) (n : ℕ) : ℕ → Type 0 where
  root : Reaches m n 0
  step : {i j : ℕ} → Reaches m n i → Edge m n i j → Reaches m n j

-- Every neighbour of the vertex is marked.
abbrev pub Settled : Ints → ℕ → Ints → ℕ → Type 0
Settled m n flags i = (j : ℕ) → Edge m n i j → get flags j ≢ pos 0

-- What the loop finds from i on: the first open neighbour, or -1 with all neighbours marked.
pub data Finds (m : Ints) (n : ℕ) (flags : Ints) (t i : ℕ) (w : ℤ) : Type 0 where
  found : (u : ℕ) → w ≡ pos u → Edge m n t u → get flags u ≡ pos 0 → Finds m n flags t i w
  none_left :
      w ≡ negsuc 0 → ((j : ℕ) → i ≤ j → Edge m n t j → get flags j ≢ pos 0) → Finds m n flags t i w

widen :
    {m flags : Ints} {n t i : ℕ} {u : ℤ}
    → (Edge m n t i → get flags i ≢ pos 0)
    → Finds m n flags t (i + 1) u
    → Finds m n flags t i u
widen here (found w e edge white) = found w e edge white
widen {m = m} {flags = flags} {n = n} {t = t} {i = i} here (none_left e later) =
    none_left e λ j lo edge. elim (Bool-cases (i == j)) [
      | inl e ↦
          let e' : i ≡ j = ground arith in
          subst (λ k. Edge m n t k → get flags k ≢ pos 0) e' here edge
      | inr ne ↦ later j (ground arith) edge
    ]

adj_cell-get :
    (m : Ints) (i j : ℕ) → length m ≡ 25 → i < 5 → j < 5 → adj_cell m i j ≡ ok (get m (5 * i + j))
unfolding adj_cell
adj_cell-get m i j size h k = rw (lt→ltb j 5 k, load-get m (5 * i + j) (omega arith)) refl

pub is_open_lem :
    (m flags : Ints) (t i : ℕ)
    → length m ≡ 25
    → length flags ≤ 5
    → t < 5
    → i < length flags
    → is_open t i m flags
      ≡ ok (if get m (5 * t + i) ==ℤ pos 1 then get flags i ==ℤ pos 0 else false)
unfolding is_open
is_open_lem m flags t i size small h k =
    rw (adj_cell-get m t i size h (omega arith), load-get flags i k)
      (if_both (λ r. r ≡ ok (if get m (5 * t + i) ==ℤ pos 1 then get flags i ==ℤ pos 0 else false))
        (get m (5 * t + i) ==ℤ pos 1) (λ e. rw e refl) (λ e. rw e refl))

-- What the test says of the two cells.
open_yes :
    (e f : ℤ) → (if e ==ℤ pos 1 then f ==ℤ pos 0 else false) ≡ true → (e ≡ pos 1) × (f ≡ pos 0)
open_yes e f h = ground arith

open_no : (e f : ℤ) → (if e ==ℤ pos 1 then f ==ℤ pos 0 else false) ≡ false → e ≡ pos 1 → f ≢ pos 0
open_no e f h edge = ground arith

-- With a round for each vertex, from i on, the loop ends and finds one.
pub find_loop-Finds :
    (m flags : Ints) (n rounds t i : ℕ)
    → length m ≡ 25
    → length flags ≡ n
    → n ≤ 5
    → t < 5
    → i + rounds ≡ n
    → Returns (Finds m n flags t i) (find_loop rounds i t m flags)
unfolding find_loop
find_loop-Finds m flags n zero t i size all small h e =
    returns (none_left refl λ j lo (hi, _). absurd (omega arith))
find_loop-Finds m flags n (suc rounds) t i size all small h e =
    rw (is_open_lem m flags t i size (omega arith) h (omega arith)) (
      Returns-if (if get m (5 * t + i) ==ℤ pos 1 then get flags i ==ℤ pos 0 else false)
        (λ yes.
          let (edge, white) = open_yes _ _ yes in returns (found i refl (omega arith, edge) white))
        (λ no.
          Returns-map (find_loop-Finds m flags n rounds t (i + 1) size all small h (omega arith))
            λ u. widen λ (_, edge). open_no _ _ no edge))
