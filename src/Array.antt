-- ===== src/Array.antt =====
-- C arrays of `int`: a list read and written by index, where an access out of bounds faults.
pub mod Swaps
pub mod Sorted
use oo_o_processor.Common.{
  ℕ, zero, suc, ◌+◌, ◌<◌, ◌≡◌, refl, ap, ◌∙◌, List, [], ◌∷◌, arith, ℤ, pos, Run, ok, fault, ◌>>=◌,
  ◌==◌, ◌==ℤ◌, ◌≢◌, if◌then◌else◌, length,
}

abbrev pub Ints : Type 0
Ints = List ℤ

-- a[i]
unfoldable pub load : Ints → ℕ → Run ℤ
load [] i = fault
load (x ∷ a) zero = ok x
load (x ∷ a) (suc i) = load a i

-- The list after a[i] = v, for an index within the bounds.
unfoldable pub set : Ints → ℕ → ℤ → Ints
set [] i v = []
set (x ∷ a) zero v = v ∷ a
set (x ∷ a) (suc i) v = x ∷ set a i v

-- a[i] = v
unfoldable pub store : Ints → ℕ → ℤ → Run Ints
unfolding load set
store a i v = do x ← load a i; ok (set a i v)

-- A total read for statements: every use stands under a bound on the index.
unfoldable pub get : Ints → ℕ → ℤ
get [] i = pos 0
get (x ∷ a) zero = x
get (x ∷ a) (suc i) = get a i

-- How often a value occurs.
unfoldable pub count : ℤ → Ints → ℕ
count v [] = 0
count v (x ∷ a) = (if x ==ℤ v then 1 else 0) + count v a

-- `b` holds the items of `a`, each as often.
abbrev pub SameItems : Ints → Ints → Type 0
SameItems a b = (v : ℤ) → count v b ≡ count v a

pub load-get : (a : Ints) (i : ℕ) → i < length a → load a i ≡ ok (get a i)
unfolding load get
load-get [] i h = elim h [ ]
load-get (x ∷ a) zero h = refl
load-get (x ∷ a) (suc i) h = load-get a i (omega arith)

pub store-set : (a : Ints) (i : ℕ) (v : ℤ) → i < length a → store a i v ≡ ok (set a i v)
unfolding store
store-set a i v h = rw (load-get a i h)

pub get-set :
    (a : Ints) (i j : ℕ) (v : ℤ)
    → i < length a
    → get (set a i v) j ≡ (if i == j then v else get a j)
unfolding get set
get-set [] i j v h = elim h [ ]
get-set (x ∷ a) zero zero v h = refl
get-set (x ∷ a) zero (suc j) v h = ground arith
get-set (x ∷ a) (suc i) zero v h = ground arith
get-set (x ∷ a) (suc i) (suc j) v h = ground (arith, get-set a i j v)

-- A cell of an array after a write elsewhere, and of the cell itself.
pub get-set_other :
    (a : Ints) (i j : ℕ) (v : ℤ) → i < length a → i ≢ j → get (set a i v) j ≡ get a j
get-set_other a i j v h ne = rw (get-set a i j v h) (ground arith)

pub get-set_same : (a : Ints) (i : ℕ) (v : ℤ) → i < length a → get (set a i v) i ≡ v
get-set_same a i v h = rw (get-set a i i v h) (ground arith)

-- A write keeps the size.
pub length-set : (a : Ints) (i : ℕ) (v : ℤ) → length (set a i v) ≡ length a
unfolding set
length-set [] j w = refl
length-set (y ∷ b) zero w = refl
length-set (y ∷ b) (suc j) w = ap suc (length-set b j w)

-- A write trades one occurrence of the old value for one of the new.
pub count-set :
    (w : ℤ) (a : Ints) (i : ℕ) (v : ℤ)
    → i < length a
    → count w (set a i v) + (if get a i ==ℤ w then 1 else 0)
      ≡ count w a + (if v ==ℤ w then 1 else 0)
unfolding count set get
count-set w [] i v h = elim h [ ]
count-set w (x ∷ a) zero v h = omega arith
count-set w (x ∷ a) (suc i) v h = omega (arith, count-set w a i v)

-- for (i = 0; i < n; i++) arr[i] = value(i), on a fresh array of n cells; `i` counts on from there.
unfoldable pub fill : ℕ → ℕ → (ℕ → ℤ) → Ints
fill zero i value = []
fill (suc n) i value = value i ∷ fill n (i + 1) value

pub length-fill : (n i : ℕ) (value : ℕ → ℤ) → length (fill n i value) ≡ n
unfolding fill
length-fill zero i value = refl
length-fill (suc n) i value = ap suc (length-fill n (i + 1) value)

pub get-fill : (n i k : ℕ) (value : ℕ → ℤ) → k < n → get (fill n i value) k ≡ value (i + k)
unfolding fill get
get-fill zero i k value h = elim h [ ]
get-fill (suc n) i zero value h = ap value (omega arith)
get-fill (suc n) i (suc k) value h =
    get-fill n (i + 1) k value (omega arith) ∙ ap value (omega arith)
