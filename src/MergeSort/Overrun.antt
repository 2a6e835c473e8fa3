-- ===== src/MergeSort/Overrun.antt =====
-- mergeSort called with the length of the array for its last index, as `main` of mergesort.c does.
use oo_o_processor.Common.{
  ℕ, zero, suc, ◌+◌, ◌-◌, ◌/◌, ◌≤◌, ◌<◌, ◌≡◌, refl, arith, true, [], ◌∷◌, ltb, ok, fault,
  Returns-inv, Bool-cases, inl, inr, length,
}
use oo_o_processor.Array.{Ints, load, load-get}
use oo_o_processor.MergeSort.{copy_out, merge, merge_sort}
use oo_o_processor.MergeSort.Written.{copy_out-slice}
use oo_o_processor.MergeSort.Sorted.{merge_sort-MergeSorts}

load-fault : (a : Ints) (i : ℕ) → length a ≤ i → load a i ≡ fault
unfolding load
load-fault [] i h = refl
load-fault (x ∷ a) zero h = elim h [ ]
load-fault (x ∷ a) (suc i) h = load-fault a i (omega arith)

copy_out-fault :
    (n start : ℕ) (a : Ints) → start ≤ length a → length a < start + n → copy_out n start a ≡ fault
unfolding copy_out
copy_out-fault zero start a h k = absurd (omega arith)
copy_out-fault (suc n) start a h k = elim (Bool-cases (ltb start (length a))) [
  | inl t ↦
      let inside : start < length a = ground arith in
      rw (load-get a start inside, copy_out-fault n (start + 1) a (omega arith) (omega arith))
  | inr f ↦ let past : length a ≤ start = ground arith in rw (load-fault a start past)
]

merge-fault : (a : Ints) (l m r : ℕ) → l ≤ m → m < r → r ≡ length a → merge a l m r ≡ fault
unfolding merge
merge-fault a l m r lm mr e =
    rw
      (
        copy_out-slice (m + 1 - l) l a (omega arith),
        copy_out-fault (r - m) (m + 1) a (omega arith) (omega arith),
      )
      refl

merge_sort-single : (fuel : ℕ) (a : Ints) (r : ℕ) → 0 < fuel → merge_sort fuel a r r ≡ ok a
unfolding merge_sort
merge_sort-single zero a r h = elim h [ ]
merge_sort-single (suc fuel) a r h = ground arith

-- With the array's length for r, one past its last index, and l below that, mergeSort accesses the
-- array out of bounds.
pub merge_sort-fault :
    (fuel : ℕ) (a : Ints) (l r : ℕ)
    → l < r
    → r ≡ length a
    → r - l < fuel
    → merge_sort fuel a l r ≡ fault
unfolding merge_sort
merge_sort-fault zero a l r h e enough = absurd (omega arith)
merge_sort-fault (suc fuel) a l r h e enough =
    let m = l + (r - l) / 2 in
    let (b, eq, s) = Returns-inv (merge_sort-MergeSorts fuel a l m (omega arith) (omega arith)) in
    let t : ltb l r ≡ true = ground arith in
    elim (Bool-cases (ltb (m + 1) r)) [
      | inl more ↦
          let more' : m + 1 < r = ground arith in
          rw (t, eq, merge_sort-fault fuel b (m + 1) r more' (omega (arith, s.size)) (omega arith))
      | inr last ↦
          let end : m + 1 ≡ r = ground arith in
          rw (
            t,
            eq,
            end,
            merge_sort-single fuel b r (omega arith),
            merge-fault b l m r (omega arith) (omega arith) (omega (arith, s.size)),
          )
    ]
