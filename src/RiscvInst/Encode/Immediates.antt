-- ===== src/RiscvInst/Encode/Immediates.antt =====
-- The immediates that analyze extracts, as sums of their fields.
use Prim.Native.Nat.{bit_or}
use oo_o_processor.Common.{ℕ, ◌+◌, ◌-◌, ◌*◌, ◌^◌, ◌<◌, ◌≡◌, Bool-cases, inl, inr, ◌==◌, arith}
use oo_o_processor.Words.{shl32, field, or_top, put_top}
use oo_o_processor.RiscvInst.Decode.{extend, imask, bmask, jmask}

-- A mask of ones above the value copies the sign bit.
extend_lem :
    (w k x : ℕ)
    → x < 2 ^ k
    → extend w ((2 ^ (32 - k) - 1) * 2 ^ k) x ≡ x + field w 31 1 * ((2 ^ (32 - k) - 1) * 2 ^ k)
extend_lem w k x h = elim (Bool-cases (field w 31 1 == 1)) [
  | inl t ↦
      let one : field w 31 1 ≡ 1 = ground arith in
      rw (t, or_top k x (2 ^ (32 - k) - 1) h, one) (omega arith)
  | inr f ↦ let none : field w 31 1 ≡ 0 = ground arith in rw (f, none) (omega arith)
]

pub i_value :
    (w : ℕ) → extend w imask (field w 20 11) ≡ field w 20 11 + field w 31 1 * (2 ^ 32 - 2 ^ 11)
i_value w = extend_lem w 11 (field w 20 11) (omega arith)

pub s_value :
    (w : ℕ)
    → extend w imask (bit_or (field w 7 5) (shl32 (field w 25 6) 5))
      ≡ field w 7 5 + field w 25 6 * 2 ^ 5 + field w 31 1 * (2 ^ 32 - 2 ^ 11)
s_value w =
    rw (put_top 5 (field w 7 5) (field w 25 6) (omega arith) (omega arith))
      (extend_lem w 11 (field w 7 5 + field w 25 6 * 2 ^ 5) (omega arith))

pub b_value :
    (w : ℕ)
    → extend w bmask
        (shl32 (bit_or (bit_or (field w 8 4) (shl32 (field w 25 6) 4)) (shl32 (field w 7 1) 10)) 1)
      ≡ 2 * (field w 8 4 + field w 25 6 * 2 ^ 4 + field w 7 1 * 2 ^ 10)
        + field w 31 1 * (2 ^ 32 - 2 ^ 12)
b_value w =
    let y = field w 8 4 + field w 25 6 * 2 ^ 4 + field w 7 1 * 2 ^ 10 in
    let e : shl32 y 1 ≡ 2 * y = omega arith in
    rw
      (
        put_top 4 (field w 8 4) (field w 25 6) (omega arith) (omega arith),
        put_top 10 (field w 8 4 + field w 25 6 * 2 ^ 4) (field w 7 1) (omega arith) (omega arith),
        e,
      )
      (extend_lem w 12 (2 * y) (omega arith))

pub j_value :
    (w : ℕ)
    → extend w jmask (
        shl32
          (bit_or (bit_or (field w 21 10) (shl32 (field w 20 1) 10)) (shl32 (field w 12 8) 11))
          1)
      ≡ 2 * (field w 21 10 + field w 20 1 * 2 ^ 10 + field w 12 8 * 2 ^ 11)
        + field w 31 1 * (2 ^ 32 - 2 ^ 20)
j_value w =
    let y = field w 21 10 + field w 20 1 * 2 ^ 10 + field w 12 8 * 2 ^ 11 in
    let e : shl32 y 1 ≡ 2 * y = omega arith in
    rw
      (
        put_top 10 (field w 21 10) (field w 20 1) (omega arith) (omega arith),
        put_top 11 (field w 21 10 + field w 20 1 * 2 ^ 10) (field w 12 8) (omega arith)
            (omega arith),
        e,
      )
      (extend_lem w 20 (2 * y) (omega arith))
