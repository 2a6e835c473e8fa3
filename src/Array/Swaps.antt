-- ===== src/Array/Swaps.antt =====
-- Exchanges of two cells of an array, and what a series of exchanges inside a range leaves alone.
use mathlib.Core.Path.{subst}
use oo_o_processor.Common.{
  ℕ, ◌≤◌, ◌<◌, ◌≡◌, refl, ◌∙◌, ◌⊎◌, Bool, true, false, arith, ℤ, ok, ◌>>=◌, ◌==◌, if◌then◌else◌,
  length,
}
use oo_o_processor.Array.{
  Ints, store, get, set, store-set, SameItems, length-set, get-set, count-set,
}

-- The array in which cells `i` and `j` have traded values.
unfoldable pub swapped : Ints → ℕ → ℕ → Ints
swapped a i j = set (set a i (get a j)) j (get a i)

-- arr[i] = arr[j]; arr[j] = temp, where temp holds the old arr[i].
pub store-store :
    (a : Ints) (i j : ℕ)
    → i < length a
    → j < length a
    → (store a i (get a j) >>= λ b. store b j (get a i)) ≡ ok (swapped a i j)
unfolding swapped
store-store a i j hi hj =
    rw (store-set a i (get a j) hi)
      (store-set _ j (get a i) (omega (arith, length-set a i (get a j))))

pub length-swapped : (a : Ints) (i j : ℕ) → length (swapped a i j) ≡ length a
unfolding swapped
length-swapped a i j =
    omega (arith, length-set (set a i (get a j)) j (get a i), length-set a i (get a j))

pub get-swapped :
    (a : Ints) (i j k : ℕ)
    → i < length a
    → j < length a
    → get (swapped a i j) k ≡ (if j == k then get a i else if i == k then get a j else get a k)
unfolding swapped
get-swapped a i j k hi hj = rw (
  get-set (set a i (get a j)) j k (get a i) (omega (arith, length-set a i (get a j))),
  get-set a i k (get a j) hi,
)

pub count-swapped : (a : Ints) (i j : ℕ) → i < length a → j < length a → SameItems a (swapped a i j)
unfolding swapped
count-swapped a i j hi hj v = ground (
  arith,
  length-set a i (get a j),
  count-set v (set a i (get a j)) j (get a i),
  count-set v a i (get a j),
  get-set a i j (get a j),
)

pick {ℓ} :
    {x y z : ℤ} (P : ℤ → Type ℓ) (b c : Bool)
    → P x
    → P y
    → P z
    → P (if b then x else if c then y else z)
pick P true c p q r = p
pick P false true p q r = q
pick P false false p q r = r

-- The exchange of two cells undoes itself.
old :
    (f : ℕ → ℤ) (i j k : ℕ) {u v w : ℤ}
    → u ≡ (if j == i then f i else if i == i then f j else f i)
    → v ≡ (if j == j then f i else if i == j then f j else f j)
    → w ≡ (if j == k then f i else if i == k then f j else f k)
    → (if k == i then v else if k == j then u else w) ≡ f k
old f i j k p q r = ground arith

-- `b` comes from `a` by exchanges of cells inside [lo, hi).
pub data Swaps (lo hi : ℕ) (a : Ints) : Ints → Type 0 where
  done : Swaps lo hi a a
  swap :
      {b : Ints} (i j : ℕ)
      → (lo ≤ i) × (i < hi)
      → (lo ≤ j) × (j < hi)
      → Swaps lo hi a b
      → Swaps lo hi a (swapped b i j)

module _ {lo hi : ℕ} {a : Ints} where
  pub trans : {b c : Ints} → Swaps lo hi a b → Swaps lo hi b c → Swaps lo hi a c
  trans s done = s
  trans s (swap i j p q t) = swap i j p q (trans s t)

  pub widen : {b : Ints} (l h : ℕ) → l ≤ lo → hi ≤ h → Swaps lo hi a b → Swaps l h a b
  widen l h p q done = done
  widen l h p q (swap i j hi hj s) = swap i j (omega arith) (omega arith) (widen l h p q s)

  pub length-Swaps : {b : Ints} → Swaps lo hi a b → length b ≡ length a
  length-Swaps done = refl
  length-Swaps (swap {b} i j p q s) = length-swapped b i j ∙ length-Swaps s

module _ {lo hi : ℕ} {a : Ints} (fits : hi ≤ length a) where
  -- Cells outside the range keep their values.
  pub get-Swaps : {b : Ints} (k : ℕ) → Swaps lo hi a b → (k < lo) ⊎ (hi ≤ k) → get b k ≡ get a k
  get-Swaps k done out = refl
  get-Swaps k (swap {b} i j p q s) out =
      ground (arith, length-Swaps s, get-swapped b i j k, get-Swaps k s out)

  -- The array holds the same items.
  pub count-Swaps : {b : Ints} → Swaps lo hi a b → SameItems a b
  count-Swaps done v = refl
  count-Swaps (swap {b} i j p q s) v =
      count-swapped b i j (omega (arith, length-Swaps s)) (omega (arith, length-Swaps s)) v
      ∙ count-Swaps s v

  -- What holds of all items in the range still does.
  pub all-Swaps {ℓ} :
      {b : Ints} (P : ℤ → Type ℓ)
      → Swaps lo hi a b
      → ((k : ℕ) → lo ≤ k → k < hi → P (get a k))
      → (k : ℕ) → lo ≤ k
      → k < hi
      → P (get b k)
  all-Swaps P done all k l h = all k l h
  all-Swaps P (swap {b} i j p q s) all k l h =
      let ih = all-Swaps P s all in
      rw (get-swapped b i j k (omega (arith, length-Swaps s)) (omega (arith, length-Swaps s)))
        (pick P (j == k) (i == k) (ih i p.0 p.1) (ih j q.0 q.1) (ih k l h))

  -- What holds of all items in the range now held of them before.
  pub all-Swaps_back {ℓ} :
      {b : Ints} (P : ℤ → Type ℓ)
      → Swaps lo hi a b
      → ((k : ℕ) → lo ≤ k → k < hi → P (get b k))
      → (k : ℕ) → lo ≤ k
      → k < hi
      → P (get a k)
  all-Swaps_back P done all k l h = all k l h
  all-Swaps_back P (swap {b} i j p q s) all n l h =
      let size = length-Swaps s in
      let at = λ (c : ℕ). get-swapped b i j c (omega arith) (omega arith) in
      all-Swaps_back P s
        (λ k l h.
          subst P (old (get b) i j k (at i) (at j) (at k))
            (pick P (k == i) (k == j) (all j q.0 q.1) (all i p.0 p.1) (all k l h)))
        n l h
