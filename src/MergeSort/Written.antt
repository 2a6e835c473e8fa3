-- ===== src/MergeSort/Written.antt =====
-- Reading a range of the array out, and writing a list back over it.
use mathlib.Core.Path.{fun_ext}
use oo_o_processor.Common.{
  ℕ, zero, suc, ◌+◌, ◌≤◌, ◌<◌, ◌≡◌, refl, ap, ◌∙◌, ◌⊎◌, [], ◌∷◌, arith, ℤ, ◌≤ℤ◌, leb_ℤ, Bool-cases,
  inl, inr, ok, ◌>>=◌, Returns, returns, Returns-map, length,
}
use oo_o_processor.Array.{
  Ints, get, set, store, count, load-get, store-set, length-set, get-set, count-set,
}
use oo_o_processor.Array.Sorted.{IsSortedIn}
use oo_o_processor.MergeSort.Merged.{merged, IsBelow, IsAscending}
use oo_o_processor.MergeSort.{copy_out, copy_back, merge_loop}

-- The items of the cells [start, start + n).
unfoldable pub slice : ℕ → ℕ → Ints → Ints
slice zero start a = []
slice (suc n) start a = get a start ∷ slice n (start + 1) a

pub length-slice : (n start : ℕ) (a : Ints) → length (slice n start a) ≡ n
unfolding slice
length-slice zero start a = refl
length-slice (suc n) start a = ap suc (length-slice n (start + 1) a)

pub copy_out-slice :
    (n start : ℕ) (a : Ints) → start + n ≤ length a → copy_out n start a ≡ ok (slice n start a)
unfolding copy_out slice
copy_out-slice zero start a h = refl
copy_out-slice (suc n) start a h =
    rw (load-get a start (omega arith), copy_out-slice n (start + 1) a (omega arith))

slice-set :
    (n start : ℕ) (a : Ints) (k : ℕ) (v : ℤ)
    → k < start
    → k < length a
    → slice n start (set a k v) ≡ slice n start a
unfolding slice
slice-set zero start a k v h fits = refl
slice-set (suc n) start a k v h fits =
    ground (arith, get-set a k start v, slice-set n (start + 1) a k v)

-- The items of a range are those of its two parts; the length and the end come with equations.
pub count-slice :
    (v : ℤ) (total m n start mid : ℕ) (a : Ints)
    → total ≡ m + n
    → mid ≡ start + m
    → count v (slice total start a) ≡ count v (slice m start a) + count v (slice n mid a)
unfolding slice count
count-slice v total zero n start mid a e f =
    let e' : total ≡ n = omega arith in
    let f' : mid ≡ start = omega arith in rw (e', f') (omega arith)
count-slice v zero (suc m) n start mid a e f = absurd (omega arith)
count-slice v (suc total) (suc m) n start mid a e f =
    omega (arith, count-slice v total m n (start + 1) mid a (omega arith) (omega arith))

slice-IsBelow :
    (x : ℤ) (n start : ℕ) (a : Ints)
    → ((k : ℕ) → start ≤ k → k < start + n → x ≤ℤ get a k)
    → IsBelow x (slice n start a)
unfolding slice
slice-IsBelow x zero start a h = tt
slice-IsBelow x (suc n) start a h = (
  h start (omega arith) (omega arith),
  slice-IsBelow x n (start + 1) a λ k p q. h k (omega arith) (omega arith),
)

pub slice-IsAscending :
    (n start : ℕ) (a : Ints) → IsSortedIn a start (start + n) → IsAscending (slice n start a)
unfolding slice
slice-IsAscending zero start a s = tt
slice-IsAscending (suc n) start a s = (
  slice-IsBelow (get a start) n (start + 1) a
      λ k p q. s start k (omega arith) (omega arith) (omega arith),
  slice-IsAscending n (start + 1) a λ i j p q r. s i j (omega arith) q (omega arith),
)

-- `b` is `a` with `xs` written over the cells from `k` on.
pub record Written (xs : Ints) (k : ℕ) (a b : Ints) : Type 0 where
  pub size : length b ≡ length a
  pub inside : (j : ℕ) → j < length xs → get b (k + j) ≡ get xs j
  pub outside : (j : ℕ) → (j < k) ⊎ (k + length xs ≤ j) → get b j ≡ get a j
  pub items : (v : ℤ) → count v b + count v (slice (length xs) k a) ≡ count v a + count v xs

Written-head :
    (x : ℤ) {xs : Ints} (k : ℕ) (a : Ints) {b : Ints}
    → k + suc (length xs) ≤ length a
    → Written xs (k + 1) (set a k x) b
    → (j : ℕ) → j < suc (length xs)
    → get b (k + j) ≡ get (x ∷ xs) j
unfolding get
Written-head x k a fits w zero h =
    w.outside (k + 0) (inl (omega arith)) ∙ (get-set a k (k + 0) x (omega arith) ∙ ground arith)
Written-head x k a fits w (suc j) h =
    let e : k + suc j ≡ k + 1 + j = omega arith in rw e (w.inside j (omega arith))

Written-cons :
    {x : ℤ} {xs : Ints} {k : ℕ} {a b : Ints}
    → k + suc (length xs) ≤ length a
    → Written xs (k + 1) (set a k x) b
    → Written (x ∷ xs) k a b
unfolding slice count get
Written-cons {x} {xs} {k} {a} {b} fits w = record {
  size = omega (arith, w.size, length-set a k x);
  inside = λ j h. Written-head x k a fits w j h;
  outside = λ j h. ground (arith, w.outside j, get-set a k j x);
  items = λ v. ground (arith, w.items v, slice-set (length xs) (k + 1) a k x, count-set v a k x);
}

pub copy_back-Written :
    (xs : Ints) (k : ℕ) (a : Ints)
    → k + length xs ≤ length a
    → Returns (Written xs k a) (copy_back xs k a)
unfolding copy_back slice count
copy_back-Written [] k a h = returns (record {
  size = refl;
  inside = λ j h. elim h [ ];
  outside = λ j h. refl;
  items = λ v. omega arith;
})
copy_back-Written (x ∷ xs) k a h = rw (store-set a k x (omega arith)) (
    Returns-map (copy_back-Written xs (k + 1) (set a k x) (omega (arith, length-set a k x)))
      λ b w. Written-cons (omega arith) w)

-- The loops of merge write the merged list.
pub merge_loop-merged :
    (L R : Ints) (k : ℕ) (a : Ints) → merge_loop L R k a ≡ copy_back (merged L R) k a
unfolding merge_loop merged copy_back
merge_loop-merged [] R k a = refl
merge_loop-merged (x ∷ L) [] k a = refl
merge_loop-merged (x ∷ L) (y ∷ R) k a = elim (Bool-cases (leb_ℤ x y)) [
  | inl t ↦
      rw (t, merge_loop, merged)
        (ap (λ f. store a k x >>= f) (fun_ext (merge_loop-merged L (y ∷ R) (k + 1))))
  | inr f ↦
      rw (f, merge_loop, merged)
        (ap (λ f. store a k y >>= f) (fun_ext (merge_loop-merged (x ∷ L) R (k + 1))))
]
