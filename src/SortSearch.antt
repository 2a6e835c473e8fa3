-- ===== src/SortSearch.antt =====
-- test_progs/sort_search.c: the exchange sort `bubble`, and `binarySearch`.
pub mod Bubble
pub mod Main
pub mod Search
use oo_o_processor.Common.{
  ℕ, zero, suc, ◌+◌, ◌-◌, ◌/◌, ◌%◌, ℤ, pos, negsuc, pos_part, ◌-ℤ◌, ltb_ℤ, leb_ℤ, ◌==ℤ◌, Run, ok,
  out_of_fuel, ◌>>=◌, if◌then◌else◌,
}
use oo_o_processor.Array.{Ints, load, store, fill}

-- The body of the inner loop.
unfoldable pub bubble_step : ℕ → ℕ → Ints → Run Ints
bubble_step i j arr = do
  x ← load arr j
  y ← load arr i
  if ltb_ℤ x y then (do arr' ← store arr j y; store arr' i x) else ok arr

-- for (j = i + 1; j < size; j++), by the rounds left.
unfoldable pub bubble_round : ℕ → ℕ → ℕ → Ints → Run Ints
bubble_round zero i j arr = ok arr
bubble_round (suc n) i j arr = do arr' ← bubble_step i j arr; bubble_round n i (j + 1) arr'

-- for (i = 0; i < size - 1; i++), by the rounds left.
unfoldable pub bubble_loop : ℕ → ℕ → ℕ → Ints → Run Ints
bubble_loop zero size i arr = ok arr
bubble_loop (suc n) size i arr = do
  arr' ← bubble_round (size - (i + 1)) i (i + 1) arr
  bubble_loop n size (i + 1) arr'

unfoldable pub bubble : Ints → ℕ → Run Ints
bubble arr size = bubble_loop (size - 1) size 0 arr

-- `l` is never negative, `r` is -1 once the part left of index 0 is searched. `mid` is read only
-- where l <= r, so that r is the number `pos_part r` there.
unfoldable pub binary_search : ℕ → Ints → ℕ → ℤ → ℤ → Run ℤ
binary_search zero arr l r x = out_of_fuel
binary_search (suc fuel) arr l r x =
    let mid = l + (pos_part r - l) / 2 in
    let left = binary_search fuel arr l (pos mid -ℤ pos 1) x in
    let right = binary_search fuel arr (mid + 1) r x in
    let probe = do
      v ← load arr mid
      if v ==ℤ x then ok (pos mid) else if ltb_ℤ x v then left else right
    in if leb_ℤ (pos l) r then probe else ok (negsuc 0)

-- The results of the searches in main.
pub record Answers : Type 0 where
  pub result : ℤ
  pub another_result : ℤ
  pub larry : ℤ
  pub goat : ℤ
  pub brady : ℤ

-- binarySearch(arr, 0, N - 1, x)
unfoldable pub search : Ints → ℕ → Run ℤ
search arr x = binary_search 100 arr 0 (pos 99 -ℤ pos 1) (pos x)

-- main, with the results of rand(): arr[i] = rand() & 31.
unfoldable pub main : (ℕ → ℕ) → Run Answers
main rand = do
  arr ← bubble (fill 99 0 λ i. pos (rand i % 32)) 99
  result ← search arr 10
  another_result ← search arr 420
  larry ← search arr 33
  goat ← search arr 23
  brady ← search arr 12
  ok (record {
    result = result;
    another_result = another_result;
    larry = larry;
    goat = goat;
    brady = brady;
  })
