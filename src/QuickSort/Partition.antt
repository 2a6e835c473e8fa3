-- ===== src/QuickSort/Partition.antt =====
-- partition of quicksort.c splits a range at its pivot.
use native.Mathlib.Numerals.{add-one}
use mathlib.Core.Path.{subst}
use oo_o_processor.Common.{
  ℕ, zero, suc, ◌+◌, ◌-◌, ◌≤◌, ◌<◌, ◌≡◌, arith, ℤ, ◌≤ℤ◌, leb_ℤ, ok, Returns, returns, Returns-bind,
  Returns-if, length,
}
use oo_o_processor.Array.{Ints, get, load-get, store-set, length-set}
use oo_o_processor.Array.Swaps.{Swaps, done, swapped, get-swapped, widen, length-Swaps, get-Swaps}
use oo_o_processor.QuickSort.{swap, partition_step, partition_loop, partition}

pub swap-swapped :
    (a : Ints) (i j : ℕ) → i < length a → j < length a → swap a i j ≡ ok (swapped a i j)
unfolding swap swapped
swap-swapped a i j hi hj =
    rw (load-get a i hi, load-get a j hj, store-set a i (get a j) hi)
      (store-set _ j (get a i) (omega (arith, length-set a i (get a j))))

-- Cells from `low` on below `next` are at most the pivot, those from there below `j` exceed it.
record Split (pivot : ℤ) (low h : ℕ) (a : Ints) (next j : ℕ) (b : Ints) : Type 0 where
  bounds : (low ≤ next) × (next ≤ j)
  swaps : Swaps low h a b
  small : (k : ℕ) → low ≤ k → k < next → get b k ≤ℤ pivot
  large : (k : ℕ) → next ≤ k → k < j → pivot ≤ℤ get b k

Split-start : {pivot : ℤ} {low h : ℕ} {a : Ints} → Split pivot low h a low low a
Split-start = record {
  bounds = omega arith;
  swaps = done;
  small = λ k p q. absurd (omega arith);
  large = λ k p q. absurd (omega arith);
}

module _ {pivot : ℤ} {low h : ℕ} {a : Ints} (fits : h < length a) where
  partition_step-Split :
      (next j : ℕ) (b : Ints)
      → j < h
      → Split pivot low h a next j b
      → Returns (λ r. Split pivot low h a r.0 (suc j) r.1) (partition_step pivot next j b)
  unfolding partition_step
  partition_step-Split next j b jh s =
      let size = length-Swaps s.swaps in
      rw (load-get b j (omega arith), swap-swapped b next j (omega arith) (omega arith))
        (Returns-if (leb_ℤ (get b j) pivot)
          (λ t.
            let at = get-swapped b next j in
            returns (record {
              bounds = omega arith;
              swaps = Swaps.swap next j (omega arith) (omega arith) s.swaps;
              small = λ k p q. ground (arith, at k, s.small k);
              large = λ k p q. ground (arith, at k, s.large k, s.large next);
            }))
          (λ f. returns (record {
            bounds = omega arith;
            swaps = s.swaps;
            small = s.small;
            large = λ k p q. ground (arith, s.large k);
          })))

  partition_loop-Split :
      (n next j : ℕ) (b : Ints)
      → j + n ≡ h
      → Split pivot low h a next j b
      → Returns (λ r. Split pivot low h a r.0 h r.1) (partition_loop n pivot next j b)
  unfolding partition_loop
  partition_loop-Split zero next j b e s =
      let e' : j ≡ h = omega arith in returns (subst (λ m. Split pivot low h a next m b) e' s)
  partition_loop-Split (suc n) next j b e s =
      Returns-bind (partition_step-Split next j b (omega arith) s)
        λ r t. partition_loop-Split n r.0 (j + 1) r.1 (omega arith) (rw add-one t)

-- `b` comes from `a` by exchanges in [low, end), and cell `p` splits that range by its value.
pub record IsPartition (low end : ℕ) (a : Ints) (p : ℕ) (b : Ints) : Type 0 where
  pub inside : (low ≤ p) × (p < end)
  pub swaps : Swaps low end a b
  pub small : (k : ℕ) → low ≤ k → k < p → get b k ≤ℤ get b p
  pub large : (k : ℕ) → p < k → k < end → get b p ≤ℤ get b k

Split-IsPartition :
    {low h next : ℕ} {a b : Ints}
    → h < length a
    → low ≤ h
    → Split (get a h) low h a next h b
    → IsPartition low (suc h) a next (swapped b next h)
Split-IsPartition {low} {h} {next} {a} {b} fits lh s =
    let size = length-Swaps s.swaps in
    let at = get-swapped b next h in
    let pivot = get-Swaps (omega arith) h s.swaps (omega arith) in
    record {
      inside = omega arith;
      swaps =
          Swaps.swap next h (omega arith) (omega arith)
            (widen low (suc h) (omega arith) (omega arith) s.swaps);
      small = λ k p q. ground (arith, at k, at next, pivot, s.small k);
      large = λ k p q. ground (arith, at k, at next, pivot, s.large k, s.large next);
    }

-- On a range of the array that is not empty, partition returns an index that splits it: the cells
-- below hold values at most that cell's, the cells above at least; it only exchanges cells inside.
pub partition-IsPartition :
    (a : Ints) (low h : ℕ)
    → low ≤ h
    → h < length a
    → Returns (λ r. IsPartition low (suc h) a r.0 r.1) (partition a low h)
unfolding partition
partition-IsPartition a low h lh fits = rw (load-get a h fits) (
    Returns-bind (partition_loop-Split fits (h - low) low low a (omega arith) Split-start) λ r s.
      let size = length-Swaps s.swaps in
      rw (swap-swapped r.1 r.0 h (omega arith) (omega arith))
        (returns (Split-IsPartition fits lh s)))
