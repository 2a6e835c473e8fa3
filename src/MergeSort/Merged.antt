-- ===== src/MergeSort/Merged.antt =====
-- Merging as a function of two lists: ascending lists give an ascending list of the same items.
use oo_o_processor.Common.{
  ℕ, zero, suc, ◌+◌, ◌<◌, ◌≡◌, [], ◌∷◌, true, false, arith, ℤ, ◌≤ℤ◌, leb_ℤ, Bool-cases, inl, inr,
  length,
}
use oo_o_processor.Array.{Ints, get, count}

unfoldable pub merged : Ints → Ints → Ints
merged [] R = R
merged (x ∷ L) [] = x ∷ L
merged (x ∷ L) (y ∷ R) = elim (leb_ℤ x y) [
  | true ↦ x ∷ merged L (y ∷ R)
  | false ↦ y ∷ merged (x ∷ L) R
]

pub length-merged : (L R : Ints) → length (merged L R) ≡ length L + length R
unfolding merged
length-merged [] R = omega arith
length-merged (x ∷ L) [] = omega arith
length-merged (x ∷ L) (y ∷ R) = ground (arith, length-merged L (y ∷ R), length-merged (x ∷ L) R)

pub count-merged : (v : ℤ) (L R : Ints) → count v (merged L R) ≡ count v L + count v R
unfolding merged count
count-merged v [] R = omega arith
count-merged v (x ∷ L) [] = omega arith
count-merged v (x ∷ L) (y ∷ R) = ground (arith, count-merged v L (y ∷ R), count-merged v (x ∷ L) R)

-- `x` is at most each item.
abbrev pub IsBelow : ℤ → Ints → Type 0
IsBelow x [] = Unit {0}
IsBelow x (y ∷ ys) = (x ≤ℤ y) × IsBelow x ys

abbrev pub IsAscending : Ints → Type 0
IsAscending [] = Unit {0}
IsAscending (x ∷ xs) = IsBelow x xs × IsAscending xs

IsBelow-trans : (x y : ℤ) (ys : Ints) → x ≤ℤ y → IsBelow y ys → IsBelow x ys
IsBelow-trans x y [] h b = tt
IsBelow-trans x y (z ∷ ys) h b = (omega arith, IsBelow-trans x y ys h b.1)

merged-IsBelow : (z : ℤ) (L R : Ints) → IsBelow z L → IsBelow z R → IsBelow z (merged L R)
unfolding merged
merged-IsBelow z [] R p q = q
merged-IsBelow z (x ∷ L) [] p q = p
merged-IsBelow z (x ∷ L) (y ∷ R) p q =
    ground (arith, merged-IsBelow z L (y ∷ R) p.1 q, merged-IsBelow z (x ∷ L) R p q.1)

pub merged-IsAscending : (L R : Ints) → IsAscending L → IsAscending R → IsAscending (merged L R)
unfolding merged
merged-IsAscending [] R p q = q
merged-IsAscending (x ∷ L) [] p q = p
merged-IsAscending (x ∷ L) (y ∷ R) p q = elim (Bool-cases (leb_ℤ x y)) [
  | inl t ↦
      rw (t, merged)
        (
          merged-IsBelow x L (y ∷ R) p.0 (ground arith, IsBelow-trans x y R (ground arith) q.0),
          merged-IsAscending L (y ∷ R) p.1 q,
        )
  | inr f ↦
      rw (f, merged)
        (
          merged-IsBelow y (x ∷ L) R (ground arith, IsBelow-trans y x L (ground arith) p.0) q.0,
          merged-IsAscending (x ∷ L) R p q.1,
        )
]

pub IsBelow-get : (x : ℤ) (xs : Ints) (j : ℕ) → IsBelow x xs → j < length xs → x ≤ℤ get xs j
unfolding get
IsBelow-get x [] j b h = elim h [ ]
IsBelow-get x (y ∷ ys) zero b h = b.0
IsBelow-get x (y ∷ ys) (suc j) b h = IsBelow-get x ys j b.1 (omega arith)

pub IsAscending-get :
    (xs : Ints) (i j : ℕ) → IsAscending xs → i < j → j < length xs → get xs i ≤ℤ get xs j
unfolding get
IsAscending-get [] i j s h k = elim k [ ]
IsAscending-get (x ∷ xs) i zero s h k = elim h [ ]
IsAscending-get (x ∷ xs) zero (suc j) s h k = IsBelow-get x xs j s.0 (omega arith)
IsAscending-get (x ∷ xs) (suc i) (suc j) s h k =
    IsAscending-get xs i j s.1 (omega arith) (omega arith)
