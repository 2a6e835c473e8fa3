-- ===== src/InsertionSort.antt =====
-- test_progs/insertionsort.c: `insertion`, which selects the least item of the rest in each round.
pub mod Sorted
use oo_o_processor.Common.{
  ℕ, zero, suc, ◌+◌, ◌-◌, ◌%◌, ℤ, pos, ltb_ℤ, Run, ok, ◌>>=◌, if◌then◌else◌,
}
use oo_o_processor.Array.{Ints, load, store, fill}

-- The body of the inner loop: the index and value of the least item so far.
unfoldable pub min_step : Ints → ℕ → ℕ × ℤ → Run (ℕ × ℤ)
min_step arr j (min_idx, min) = do
  x ← load arr j
  ok (if ltb_ℤ x min then (j, x) else (min_idx, min))

-- for (j = i + 1; j < size; j++), by the rounds left.
unfoldable pub min_loop : ℕ → Ints → ℕ → ℕ × ℤ → Run (ℕ × ℤ)
min_loop zero arr j best = ok best
min_loop (suc n) arr j best = do best' ← min_step arr j best; min_loop n arr (j + 1) best'

-- The body of the outer loop.
unfoldable pub insertion_round : ℕ → ℕ → Ints → Run Ints
insertion_round size i arr = do
  first ← load arr i
  (min_idx, min) ← min_loop (size - (i + 1)) arr (i + 1) (i, first)
  temp ← load arr i
  arr' ← store arr i min
  store arr' min_idx temp

-- for (i = 0; i < size - 1; i++), by the rounds left.
unfoldable pub insertion_loop : ℕ → ℕ → ℕ → Ints → Run Ints
insertion_loop zero size i arr = ok arr
insertion_loop (suc n) size i arr = do
  arr' ← insertion_round size i arr
  insertion_loop n size (i + 1) arr'

unfoldable pub insertion : Ints → ℕ → Run Ints
insertion arr size = insertion_loop (size - 1) size 0 arr

-- main, with the results of rand(): arr[i] = rand() % 1023.
unfoldable pub main : (ℕ → ℕ) → Run Ints
main rand = insertion (fill 99 0 λ i. pos (rand i % 1023)) 99
