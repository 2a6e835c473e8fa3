-- ===== src/QuickSort.antt =====
-- test_progs/quicksort.c: swap, partition and quickSort over the array, with C's faults. Indices
-- are numbers, but for `high`, which is -1 when the left part of a range at 0 is empty.
pub mod Partition
pub mod Sorted
use oo_o_processor.Common.{
  ℕ, zero, suc, ◌+◌, ◌-◌, ◌%◌, ℤ, pos, pos_part, ◌-ℤ◌, ltb_ℤ, leb_ℤ, Run, ok, out_of_fuel, ◌>>=◌,
  if◌then◌else◌,
}
use oo_o_processor.Array.{Ints, load, store, fill}

-- swap(&arr[i], &arr[j])
unfoldable pub swap : Ints → ℕ → ℕ → Run Ints
swap arr i j = do t ← load arr i; u ← load arr j; arr' ← store arr i u; store arr' j t

-- One round of the loop of partition. `next` stands for the source's i + 1, so that i = low - 1
-- is no negative number: `i++; swap(&arr[i], …)` exchanges cell `next` and then raises it.
unfoldable pub partition_step : ℤ → ℕ → ℕ → Ints → Run (ℕ × Ints)
partition_step pivot next j arr = do
  x ← load arr j
  if leb_ℤ x pivot then (do arr' ← swap arr next j; ok (next + 1, arr')) else ok (next, arr)

-- for (j = low; j <= high - 1; j++), by the rounds left.
unfoldable pub partition_loop : ℕ → ℤ → ℕ → ℕ → Ints → Run (ℕ × Ints)
partition_loop zero pivot next j arr = ok (next, arr)
partition_loop (suc n) pivot next j arr = do
  (next', arr') ← partition_step pivot next j arr
  partition_loop n pivot next' (j + 1) arr'

unfoldable pub partition : Ints → ℕ → ℕ → Run (ℕ × Ints)
partition arr low high = do
  pivot ← load arr high
  (next, arr') ← partition_loop (high - low) pivot low low arr
  arr'' ← swap arr' next high
  ok (next, arr'')

unfoldable pub quick_sort : ℕ → Ints → ℕ → ℤ → Run Ints
quick_sort zero arr low high = out_of_fuel
quick_sort (suc fuel) arr low high =
    let sorted = do
      (pi, arr') ← partition arr low (pos_part high)
      arr'' ← quick_sort fuel arr' low (pos pi -ℤ pos 1)
      quick_sort fuel arr'' (pi + 1) high
    in if ltb_ℤ (pos low) high then sorted else ok arr

-- main, with the results of rand(): arr[i] = rand() & 1023.
unfoldable pub main : (ℕ → ℕ) → Run Ints
main rand = quick_sort 100 (fill 99 0 λ i. pos (rand i % 1024)) 0 (pos 99 -ℤ pos 1)
