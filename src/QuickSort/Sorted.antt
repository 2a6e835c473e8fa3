-- ===== src/QuickSort/Sorted.antt =====
-- quickSort of quicksort.c sorts the range that it is given.
use mathlib.Core.Path.{subst}
use oo_o_processor.Common.{
  ℕ, zero, suc, ◌+◌, ◌-◌, ◌≤◌, ◌<◌, ◌≡◌, inl, inr, true, false, arith, pos, pos_part, ◌≤ℤ◌, ◌-ℤ◌,
  ltb_ℤ, Bool-cases, Returns, returns, Returns-bind, Returns-map, length,
}
use oo_o_processor.Array.{Ints, get}
use oo_o_processor.Array.Swaps
use oo_o_processor.Array.Swaps.{Swaps, done, length-Swaps, get-Swaps, all-Swaps, widen}
use oo_o_processor.Array.Sorted.{Sorts}
use oo_o_processor.QuickSort.{partition, quick_sort}
use oo_o_processor.QuickSort.Partition.{IsPartition, partition-IsPartition}

-- high = end - 1, as an `int`.
end_bounds :
    (low end : ℕ)
    → ltb_ℤ (pos low) (pos end -ℤ pos 1) ≡ true
    → (low + 1 < end) × (pos_part (pos end -ℤ pos 1) ≡ end - 1)
unfolding ◌-ℤ◌
end_bounds low end h = ground arith

end_empty : (low end : ℕ) → ltb_ℤ (pos low) (pos end -ℤ pos 1) ≡ false → end ≤ low + 1
unfolding ◌-ℤ◌
end_empty low end h = ground arith

module _ {low end p : ℕ} {a b c d : Ints} (fits : end ≤ length a) where
  -- The two halves sorted on either side of the pivot make a sorted range.
  glue : IsPartition low end a p b → Sorts low p b c → Sorts (p + 1) end c d → Sorts low end a d
  glue s l r =
      let sb = length-Swaps s.swaps in
      let sc = length-Swaps l.swaps in
      let kc = λ (k : ℕ). get-Swaps {lo = low} {hi = p} {a = b} (omega arith) k l.swaps in
      let kd = λ (k : ℕ). get-Swaps {lo = p + 1} {hi = end} {a = c} (omega arith) k r.swaps in
      let small =
        all-Swaps {lo = low} {hi = p} {a = b} (omega arith) (λ v. v ≤ℤ get b p) l.swaps s.small in
      let large =
        all-Swaps {lo = p + 1} {hi = end} {a = c} (omega arith) (λ v. get b p ≤ℤ v) r.swaps
          (λ k x y. rw (kc k (omega arith)) (s.large k (omega arith) y)) in
      record {
        swaps = Swaps.trans s.swaps (
            Swaps.trans (widen low end (omega arith) (omega arith) l.swaps)
              (widen low end (omega arith) (omega arith) r.swaps));
        sorted = λ i j x y z. ground (
          arith,
          l.sorted i j,
          r.sorted i j,
          kd i,
          kd j,
          kc p,
          kd p,
          small i,
          large j,
          small j,
          large i,
        );
      }

partition-end :
    (a : Ints) (low end : ℕ)
    → low < end
    → end ≤ length a
    → Returns (λ r. IsPartition low end a r.0 r.1) (partition a low (end - 1))
partition-end a low end h fits =
    let e : suc (end - 1) ≡ end = omega arith in
    subst (λ n. Returns (λ r. IsPartition low n a r.0 r.1) (partition a low (end - 1))) e
      (partition-IsPartition a low (end - 1) (omega arith) (omega arith))

-- On a range [low, end) inside the array, with more fuel than the range is long, quickSort with
-- high = end - 1 returns, has sorted the range in ascending order, and has only exchanged cells
-- inside the range.
pub quick_sort-Sorts :
    (fuel : ℕ) (a : Ints) (low end : ℕ)
    → end ≤ length a
    → end - low < fuel
    → Returns (Sorts low end a) (quick_sort fuel a low (pos end -ℤ pos 1))
unfolding quick_sort
quick_sort-Sorts zero a low end fits enough = absurd (omega arith)
quick_sort-Sorts (suc fuel) a low end fits enough =
    elim (Bool-cases (ltb_ℤ (pos low) (pos end -ℤ pos 1))) [
      | inr f ↦
          let short = end_empty low end f in
          rw f (returns (record { swaps = done; sorted = λ i j x y z. absurd (omega arith) }))
      | inl t ↦
          let bounds = end_bounds low end t in
          rw (t, bounds.1)
            (Returns-bind (partition-end a low end (omega arith) fits) λ r s.
              let sb = length-Swaps s.swaps in
              Returns-bind (quick_sort-Sorts fuel r.1 low r.0 (omega arith) (omega arith)) λ c l.
                let sc = length-Swaps l.swaps in
                Returns-map (quick_sort-Sorts fuel c (r.0 + 1) end (omega arith) (omega arith))
                  λ d r'. glue fits s l r')
    ]
