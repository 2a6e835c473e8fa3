-- ===== src/MergeSort/Sorted.antt =====
-- merge and mergeSort of mergesort.c: what they leave in the array.
use oo_o_processor.Common.{
  ℕ, zero, suc, ◌+◌, ◌-◌, ◌/◌, ◌≤◌, ◌<◌, ◌≡◌, refl, ◌∙◌, ap, ◌⊎◌, arith, ltb, Returns, returns,
  Returns-bind, Returns-map, Bool-cases, inl, inr, length,
}
use oo_o_processor.Array.{Ints, get, SameItems}
use oo_o_processor.Array.Sorted.{IsSortedIn}
use oo_o_processor.MergeSort.{merge, merge_sort}
use oo_o_processor.MergeSort.Merged.{
  merged, length-merged, count-merged, IsAscending, merged-IsAscending, IsAscending-get,
}
use oo_o_processor.MergeSort.Written.{
  slice, length-slice, copy_out-slice, count-slice, slice-IsAscending, Written, copy_back-Written,
  merge_loop-merged,
}

-- `b` holds the items of `a`, each as often; it has them in ascending order in [lo, hi), and is `a`
-- outside that range.
pub record MergeSorts (lo hi : ℕ) (a b : Ints) : Type 0 where
  pub size : length b ≡ length a
  pub outside : (k : ℕ) → (k < lo) ⊎ (hi ≤ k) → get b k ≡ get a k
  pub items : SameItems a b
  pub sorted : IsSortedIn b lo hi

-- An ascending list of the range's items, written over the range, sorts it.
Written-MergeSorts :
    {xs a b : Ints} {lo hi : ℕ}
    → lo + length xs ≡ hi
    → IsAscending xs
    → SameItems (slice (length xs) lo a) xs
    → Written xs lo a b
    → MergeSorts lo hi a b
Written-MergeSorts {xs} {a} {b} {lo} {hi} e s same w =
    let at : (i : ℕ) → lo ≤ i → i < hi → get b i ≡ get xs (i - lo) = λ i p q.
      let back : i ≡ lo + (i - lo) = omega arith in
      ap (get b) back ∙ w.inside (i - lo) (omega arith) in
    record {
      size = w.size;
      outside = λ k h. w.outside k (omega arith);
      items = λ v. omega (arith, w.items v, same v);
      sorted = λ i j p q r.
          rw (at i p (omega arith), at j (omega arith) r)
            (IsAscending-get xs (i - lo) (j - lo) s (omega arith) (omega arith));
    }

module _ {a : Ints} {l m r : ℕ} (lm : l ≤ m) (mr : m < r) (fits : r < length a) where
  -- Of two ascending ranges that meet, inside the array, merge makes one: it returns, with the
  -- items of both in ascending order, the other cells as they were, and the same items in the array.
  pub merge-MergeSorts :
      IsSortedIn a l (suc m)
      → IsSortedIn a (suc m) (suc r)
      → Returns (MergeSorts l (suc r) a) (merge a l m r)
  unfolding merge
  merge-MergeSorts left right =
      let L = slice (m + 1 - l) l a in
      let R = slice (r - m) (m + 1) a in
      let nl = length-slice (m + 1 - l) l a in
      let nr = length-slice (r - m) (m + 1) a in
      let n = length-merged L R in
      rw
        (
          copy_out-slice (m + 1 - l) l a (omega arith),
          copy_out-slice (r - m) (m + 1) a (omega arith),
          merge_loop-merged L R l a,
        )
        (Returns-map (copy_back-Written (merged L R) l a (omega arith)) λ b w.
          Written-MergeSorts (omega arith)
            (merged-IsAscending L R
              (slice-IsAscending (m + 1 - l) l a λ i j p q r. left i j p q (omega arith))
              (slice-IsAscending (r - m) (m + 1) a
                λ i j p q r. right i j (omega arith) q (omega arith)))
            (λ v. omega (
              arith,
              count-merged v L R,
              count-slice v (length (merged L R)) (m + 1 - l) (r - m) l (m + 1) a (omega arith)
                  (omega arith),
            ))
            w)

MergeSorts-then :
    {lo hi m n : ℕ} {a b c d : Ints}
    → (m ≤ hi) × (lo ≤ n)
    → MergeSorts lo m a b
    → MergeSorts n hi b c
    → MergeSorts lo hi c d
    → MergeSorts lo hi a d
MergeSorts-then p s t u = record {
  size = omega (arith, s.size, t.size, u.size);
  outside = λ k h. u.outside k h ∙ (t.outside k (omega arith) ∙ s.outside k (omega arith));
  items = λ v. omega (arith, s.items v, t.items v, u.items v);
  sorted = u.sorted;
}

-- On a range l, ..., r of the array, with more fuel than r - l, mergeSort returns: the items of
-- that range are in ascending order, the other cells keep their values, and the array holds the
-- same items, each as often.
pub merge_sort-MergeSorts :
    (fuel : ℕ) (a : Ints) (l r : ℕ)
    → r < length a
    → r - l < fuel
    → Returns (MergeSorts l (suc r) a) (merge_sort fuel a l r)
unfolding merge_sort
merge_sort-MergeSorts zero a l r fits enough = absurd (omega arith)
merge_sort-MergeSorts (suc fuel) a l r fits enough = elim (Bool-cases (ltb l r)) [
  | inr f ↦ rw f (
      returns (record {
        size = refl;
        outside = λ k h. refl;
        items = λ v. refl;
        sorted = λ i j p q s. absurd (ground arith);
      }))
  | inl t ↦
      let h : l < r = ground arith in
      let m = l + (r - l) / 2 in
      rw t (
        Returns-bind (merge_sort-MergeSorts fuel a l m (omega arith) (omega arith)) λ b s.
          Returns-bind
            (merge_sort-MergeSorts fuel b (m + 1) r (omega (arith, s.size)) (omega arith))
            λ c u.
              Returns-map
                (merge-MergeSorts {a = c} {l = l} {m = m} {r = r} (omega arith) (omega arith)
                  (omega (arith, s.size, u.size))
                  (λ i j p q w.
                    rw (u.outside i (omega arith), u.outside j (omega arith)) (s.sorted i j p q w))
                  (λ i j p q w. u.sorted i j (omega arith) q w))
                λ d v. MergeSorts-then (omega arith) s u v)
]
