-- ===== src/Words.antt =====
-- `uint32_t` arithmetic on native numbers below 2 ^ 32: shifts, fields and `|`.
mod Digits
use Prim.Native.Nat.{bit_or, bit_or-bitwise}
use native.Mathlib.Nat.{pow-suc}
use oo_o_processor.Common.{ℕ, zero, suc, ◌+◌, ◌*◌, ◌/◌, ◌%◌, ◌^◌, ◌<◌, ◌≡◌, refl, ap, arith}
use Digits.{bit_or_halves}

-- x << k, with what leaves the word dropped.
abbrev pub shl32 : ℕ → ℕ → ℕ
shl32 x k = x * 2 ^ k % 2 ^ 32

-- (x >> k) & (2 ^ n - 1)
abbrev pub field : ℕ → ℕ → ℕ → ℕ
field x k n = x / 2 ^ k % 2 ^ n

or-zero_fuel : (n a : ℕ) → a < n → bit_or a 0 ≡ a
or-zero_fuel zero a h = elim h [ ]
or-zero_fuel (suc n) zero h = refl
or-zero_fuel (suc n) (suc a) h =
    omega (arith, bit_or_halves (suc a) 0, or-zero_fuel n (suc a / 2) (omega arith))

or-zero : (a : ℕ) → bit_or a 0 ≡ a
or-zero a = or-zero_fuel (suc a) a (omega arith)

zero-or : (b : ℕ) → bit_or 0 b ≡ b
zero-or b = bit_or-bitwise 0 b

double : (q k : ℕ) → q * 2 ^ suc k ≡ 2 * (q * 2 ^ k)
double q k = omega (arith, ap (λ (t : ℕ). q * t) (pow-suc 2 k))

-- A value that fits below bit m, put into a word that has nothing there.
pub or_low : (m hi q : ℕ) → q < 2 ^ m → bit_or (hi * 2 ^ m) q ≡ hi * 2 ^ m + q
or_low zero hi q h = let e : q ≡ 0 = omega arith in rw e (omega (arith, or-zero (hi * 1)))
or_low (suc m) hi q h =
    ground (arith, bit_or_halves (hi * 2 ^ suc m) q, double hi m, pow-suc 2 m, or_low m hi (q / 2))

-- A field put into a gap of zeros: the word holds `lo` below bit k and `hi` from bit m on.
pub or_gap :
    (k m hi lo q : ℕ)
    → lo < 2 ^ k
    → q * 2 ^ k < 2 ^ m
    → bit_or (hi * 2 ^ m + lo) (q * 2 ^ k) ≡ hi * 2 ^ m + lo + q * 2 ^ k
or_gap zero m hi lo q l h = let e : lo ≡ 0 = omega arith in rw e (ground (arith, or_low m hi q))
or_gap (suc k) zero hi lo q l h = ground (arith, or-zero (hi * 1 + lo))
or_gap (suc k) (suc m) hi lo q l h = ground (
  arith,
  bit_or_halves (hi * 2 ^ suc m + lo) (q * 2 ^ suc k),
  double hi m,
  double q k,
  pow-suc 2 m,
  pow-suc 2 k,
  or_gap k m hi (lo / 2) q,
)

-- A field put above all that the word holds.
pub or_top : (k lo q : ℕ) → lo < 2 ^ k → bit_or lo (q * 2 ^ k) ≡ lo + q * 2 ^ k
or_top zero lo q h = let e : lo ≡ 0 = omega arith in rw e (ground (arith, zero-or (q * 1)))
or_top (suc k) lo q h =
    ground (arith, bit_or_halves lo (q * 2 ^ suc k), double q k, pow-suc 2 k, or_top k (lo / 2) q)

-- The same for a field that is shifted inside the word.
pub put_gap :
    (k m hi lo q : ℕ)
    → lo < 2 ^ k
    → q * 2 ^ k < 2 ^ m
    → q * 2 ^ k < 2 ^ 32
    → bit_or (hi * 2 ^ m + lo) (shl32 q k) ≡ hi * 2 ^ m + lo + q * 2 ^ k
put_gap k m hi lo q l h fits =
    let e : shl32 q k ≡ q * 2 ^ k = omega arith in rw e (or_gap k m hi lo q l h)

pub put_top :
    (k lo q : ℕ) → lo < 2 ^ k → q * 2 ^ k < 2 ^ 32 → bit_or lo (shl32 q k) ≡ lo + q * 2 ^ k
put_top k lo q l fits = let e : shl32 q k ≡ q * 2 ^ k = omega arith in rw e (or_top k lo q l)

-- The key of the arithmetic operations is a sum.
pub key_sum : (f g : ℕ) → g < 8 → bit_or (shl32 f 4) g ≡ f % 2 ^ 28 * 2 ^ 4 + g
key_sum f g h =
    let e : shl32 f 4 ≡ f % 2 ^ 28 * 2 ^ 4 = omega arith in
    rw e (or_low 4 (f % 2 ^ 28) g (omega arith))
