-- ===== src/MergeSort.antt =====
-- test_progs/mergesort.c: merge and mergeSort. A temporary array is the list of the cells that are
-- still to be read: L stands for L[i], ..., L[n1 - 1], and R likewise.
pub mod Merged
pub mod Overrun
pub mod Sorted
pub mod Written
use oo_o_processor.Common.{
  ℕ, zero, suc, ◌+◌, ◌-◌, ◌/◌, [], ◌∷◌, true, false, pos, map, ltb, leb_ℤ, Run, ok, out_of_fuel,
  ◌>>=◌, if◌then◌else◌,
}
use oo_o_processor.Array.{Ints, load, store}

-- for (i = 0; i < n; i++) L[i] = arr[start + i]
unfoldable pub copy_out : ℕ → ℕ → Ints → Run Ints
copy_out zero start arr = ok []
copy_out (suc n) start arr = do x ← load arr start; rest ← copy_out n (start + 1) arr; ok (x ∷ rest)

-- while (i < n1) { arr[k] = L[i]; i++; k++; }
unfoldable pub copy_back : Ints → ℕ → Ints → Run Ints
copy_back [] k arr = ok arr
copy_back (x ∷ L) k arr = do arr' ← store arr k x; copy_back L (k + 1) arr'

-- The three loops of merge: once one side is read out, the rest of the other is copied.
unfoldable pub merge_loop : Ints → Ints → ℕ → Ints → Run Ints
merge_loop [] R k arr = copy_back R k arr
merge_loop (x ∷ L) [] k arr = copy_back (x ∷ L) k arr
merge_loop (x ∷ L) (y ∷ R) k arr = elim (leb_ℤ x y) [
  | true ↦ store arr k x >>= λ arr'. merge_loop L (y ∷ R) (k + 1) arr'
  | false ↦ store arr k y >>= λ arr'. merge_loop (x ∷ L) R (k + 1) arr'
]

unfoldable pub merge : Ints → ℕ → ℕ → ℕ → Run Ints
merge arr l m r = do
  L ← copy_out (m + 1 - l) l arr
  R ← copy_out (r - m) (m + 1) arr
  merge_loop L R l arr

unfoldable pub merge_sort : ℕ → Ints → ℕ → ℕ → Run Ints
merge_sort zero arr l r = out_of_fuel
merge_sort (suc fuel) arr l r =
    let m = l + (r - l) / 2 in
    let sorted = do
      arr' ← merge_sort fuel arr l m
      arr'' ← merge_sort fuel arr' (m + 1) r
      merge arr'' l m r
    in if ltb l r then sorted else ok arr

-- main: 23 items, and 23 for the last index.
abbrev pub numbers : Ints
numbers = map pos (
    32 ∷ 15 ∷ 321 ∷ 5 ∷ 4 ∷ 3 ∷ 2 ∷ 74 ∷ 9 ∷ 4 ∷ 846 ∷ 1315 ∷ 84 ∷ 6548 ∷ 47 ∷ 6113 ∷ 1 ∷ 17 ∷ 485
    ∷ 1348 ∷ 4 ∷ 1341 ∷ 768 ∷ [])

unfoldable pub main : Run Ints
main = merge_sort 24 numbers 0 23
