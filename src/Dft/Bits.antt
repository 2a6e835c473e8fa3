-- ===== src/Dft/Bits.antt =====
-- to_poly of dft.c writes the bits of the low byte.
use oo_o_processor.Common.{
  ℕ, ◌-◌, ◌/◌, ◌%◌, ◌^◌, ◌<◌, ◌≡◌, refl, arith, List, map, ℤ, pos, negsuc, ok, ◌==ℤ◌, if◌then◌else◌,
}
use oo_o_processor.Array.{load, store, set, fill}
use oo_o_processor.Dft.{low_bit, shift_right, to_poly_loop, to_poly}
use oo_o_processor.Dft.Fourier.{value, points}

-- The low byte of a short in two's complement.
abbrev pub low_byte : ℤ → ℕ
low_byte (pos n) = n % 256
low_byte (negsuc n) = 255 - n % 256

-- Bit k of the low byte.
abbrev pub bit : ℕ → ℕ → ℕ
bit k x = x / 2 ^ k % 2

abbrev pub bits : ℕ → List ℕ
bits x = points (bit 0 x) (bit 1 x) (bit 2 x) (bit 3 x) (bit 4 x) (bit 5 x) (bit 6 x) (bit 7 x)

pub bits-value : (x : ℕ) → x < 256 → value 2 (bits x) ≡ x
unfolding value
bits-value x h = omega arith

digit : (m : ℕ) → m < 2 → (if pos m ==ℤ pos 0 then pos 0 else pos 1) ≡ pos m
digit m h = ground arith

pos-bits :
    (n : ℕ)
    → (n % 2 ≡ bit 0 (n % 256))
      × ((n / 2) % 2 ≡ bit 1 (n % 256))
      × (((n / 2) / 2) % 2 ≡ bit 2 (n % 256))
      × ((((n / 2) / 2) / 2) % 2 ≡ bit 3 (n % 256))
      × (((((n / 2) / 2) / 2) / 2) % 2 ≡ bit 4 (n % 256))
      × ((((((n / 2) / 2) / 2) / 2) / 2) % 2 ≡ bit 5 (n % 256))
      × (((((((n / 2) / 2) / 2) / 2) / 2) / 2) % 2 ≡ bit 6 (n % 256))
      × ((((((((n / 2) / 2) / 2) / 2) / 2) / 2) / 2) % 2 ≡ bit 7 (n % 256))
pos-bits n = omega arith

negsuc-bits :
    (n : ℕ)
    → (1 - n % 2 ≡ bit 0 (255 - n % 256))
      × (1 - (n / 2) % 2 ≡ bit 1 (255 - n % 256))
      × (1 - ((n / 2) / 2) % 2 ≡ bit 2 (255 - n % 256))
      × (1 - (((n / 2) / 2) / 2) % 2 ≡ bit 3 (255 - n % 256))
      × (1 - ((((n / 2) / 2) / 2) / 2) % 2 ≡ bit 4 (255 - n % 256))
      × (1 - (((((n / 2) / 2) / 2) / 2) / 2) % 2 ≡ bit 5 (255 - n % 256))
      × (1 - ((((((n / 2) / 2) / 2) / 2) / 2) / 2) % 2 ≡ bit 6 (255 - n % 256))
      × (1 - (((((((n / 2) / 2) / 2) / 2) / 2) / 2) / 2) % 2 ≡ bit 7 (255 - n % 256))
negsuc-bits n = omega arith

-- to_poly writes the bits of the low byte, the lowest first.
pub to_poly-bits :
    (x : ℤ) (unset : ℕ → ℤ) → to_poly x (fill 8 0 unset) ≡ ok (map pos (bits (low_byte x)))
unfolding to_poly to_poly_loop store load set fill low_bit shift_right
to_poly-bits (pos n) unset =
    let e = pos-bits n in
    rw
      (
        digit (n % 2) (omega arith),
        digit ((n / 2) % 2) (omega arith),
        digit (((n / 2) / 2) % 2) (omega arith),
        digit ((((n / 2) / 2) / 2) % 2) (omega arith),
        digit (((((n / 2) / 2) / 2) / 2) % 2) (omega arith),
        digit ((((((n / 2) / 2) / 2) / 2) / 2) % 2) (omega arith),
        digit (((((((n / 2) / 2) / 2) / 2) / 2) / 2) % 2) (omega arith),
        digit ((((((((n / 2) / 2) / 2) / 2) / 2) / 2) / 2) % 2) (omega arith),
      )
      (rw (e.0, e.1, e.2, e.3, e.4, e.5, e.6, e.7) refl)
to_poly-bits (negsuc n) unset =
    let e = negsuc-bits n in
    rw
      (
        digit (1 - n % 2) (omega arith),
        digit (1 - (n / 2) % 2) (omega arith),
        digit (1 - ((n / 2) / 2) % 2) (omega arith),
        digit (1 - (((n / 2) / 2) / 2) % 2) (omega arith),
        digit (1 - ((((n / 2) / 2) / 2) / 2) % 2) (omega arith),
        digit (1 - (((((n / 2) / 2) / 2) / 2) / 2) % 2) (omega arith),
        digit (1 - ((((((n / 2) / 2) / 2) / 2) / 2) / 2) % 2) (omega arith),
        digit (1 - (((((((n / 2) / 2) / 2) / 2) / 2) / 2) / 2) % 2) (omega arith),
      )
      (rw (e.0, e.1, e.2, e.3, e.4, e.5, e.6, e.7) refl)

pub low_byte-bound : (x : ℤ) → low_byte x < 256
low_byte-bound (pos n) = omega arith
low_byte-bound (negsuc n) = omega arith
