-- ===== src/RiscvInst/Encode/Fields.antt =====
-- The fields that encode puts together are the fields of the word that they came from.
use Prim.Native.Nat.{bit_or}
use oo_o_processor.Common.{ℕ, ◌+◌, ◌-◌, ◌*◌, ◌/◌, ◌%◌, ◌^◌, ◌<◌, ◌≡◌, arith}
use oo_o_processor.Words.{shl32, field, put_top, put_gap}

-- opcode, rd, funct3 and rs1, the fields that most formats share.
abbrev pub low_fields : ℕ → ℕ
low_fields w =
    bit_or (bit_or (bit_or (field w 0 7) (shl32 (field w 7 5) 7)) (shl32 (field w 12 3) 12))
      (shl32 (field w 15 5) 15)

pub low_fields_lem : (w : ℕ) → low_fields w ≡ w % 2 ^ 20
low_fields_lem w =
    rw
      (
        put_top 7 (field w 0 7) (field w 7 5) (omega arith) (omega arith),
        put_top 12 (field w 0 7 + field w 7 5 * 2 ^ 7) (field w 12 3) (omega arith) (omega arith),
        put_top 15 (field w 0 7 + field w 7 5 * 2 ^ 7 + field w 12 3 * 2 ^ 12) (field w 15 5)
            (omega arith) (omega arith),
      )
      (omega arith)

pub r_fields :
    (w : ℕ)
    → w < 2 ^ 32
    → bit_or (bit_or (low_fields w) (shl32 (field w 20 5) 20)) (shl32 (w / 2 ^ 25) 25) ≡ w
r_fields w h =
    rw
      (
        low_fields_lem w,
        put_top 20 (w % 2 ^ 20) (field w 20 5) (omega arith) (omega arith),
        put_top 25 (w % 2 ^ 20 + field w 20 5 * 2 ^ 20) (w / 2 ^ 25) (omega arith) (omega arith),
      )
      (omega arith)

pub p_fields : (w : ℕ) → w < 2 ^ 32 → bit_or (low_fields w) (shl32 (w / 2 ^ 20) 20) ≡ w
p_fields w h =
    rw (low_fields_lem w, put_top 20 (w % 2 ^ 20) (w / 2 ^ 20) (omega arith) (omega arith))
      (omega arith)

-- opcode, funct3, rs1 and rs2, with the gap of the low immediate.
abbrev pub s_low : ℕ → ℕ
s_low w =
    bit_or (bit_or (bit_or (field w 0 7) (shl32 (field w 12 3) 12)) (shl32 (field w 15 5) 15))
      (shl32 (field w 20 5) 20)

s_low_lem : (w : ℕ) → s_low w ≡ field w 12 13 * 2 ^ 12 + field w 0 7
s_low_lem w =
    rw
      (
        put_top 12 (field w 0 7) (field w 12 3) (omega arith) (omega arith),
        put_top 15 (field w 0 7 + field w 12 3 * 2 ^ 12) (field w 15 5) (omega arith) (omega arith),
        put_top 20 (field w 0 7 + field w 12 3 * 2 ^ 12 + field w 15 5 * 2 ^ 15) (field w 20 5)
            (omega arith) (omega arith),
      )
      (omega arith)

-- A store's word without its sign bit.
pub s_fields :
    (w : ℕ)
    → bit_or (bit_or (s_low w) (shl32 (field w 7 5) 7)) (shl32 (field w 25 6) 25) ≡ w % 2 ^ 31
s_fields w =
    rw
      (
        s_low_lem w,
        put_gap 7 12 (field w 12 13) (field w 0 7) (field w 7 5) (omega arith) (omega arith)
            (omega arith),
        put_top 25 (field w 12 13 * 2 ^ 12 + field w 0 7 + field w 7 5 * 2 ^ 7) (field w 25 6)
            (omega arith) (omega arith),
      )
      (omega arith)

pub b_fields :
    (w : ℕ)
    → w < 2 ^ 32
    → bit_or
        (bit_or
          (bit_or (bit_or (s_low w) (shl32 (field w 7 1) 7)) (shl32 (field w 8 4) 8))
          (shl32 (field w 25 6) 25))
        (shl32 (field w 31 1) 31)
      ≡ w
b_fields w h =
    let e : field w 12 13 * 2 ^ 12 + field w 0 7 + field w 7 1 * 2 ^ 7
        ≡ field w 12 13 * 2 ^ 12 + (field w 0 7 + field w 7 1 * 2 ^ 7) =
      omega arith in
    rw
      (
        s_low_lem w,
        put_gap 7 12 (field w 12 13) (field w 0 7) (field w 7 1) (omega arith) (omega arith)
            (omega arith),
        e,
        put_gap 8 12 (field w 12 13) (field w 0 7 + field w 7 1 * 2 ^ 7) (field w 8 4) (omega arith)
            (omega arith) (omega arith),
        put_top 25
            (field w 12 13 * 2 ^ 12 + (field w 0 7 + field w 7 1 * 2 ^ 7) + field w 8 4 * 2 ^ 8)
            (field w 25 6) (omega arith) (omega arith),
        put_top 31
            (field w 12 13 * 2 ^ 12
              + (field w 0 7 + field w 7 1 * 2 ^ 7)
              + field w 8 4 * 2 ^ 8
              + field w 25 6 * 2 ^ 25)
            (field w 31 1) (omega arith) (omega arith),
      )
      (omega arith)

pub u_fields :
    (w : ℕ)
    → w < 2 ^ 32
    → bit_or (bit_or (field w 0 7) (shl32 (field w 7 5) 7)) (shl32 (field w 12 20) 12) ≡ w
u_fields w h =
    rw
      (
        put_top 7 (field w 0 7) (field w 7 5) (omega arith) (omega arith),
        put_top 12 (field w 0 7 + field w 7 5 * 2 ^ 7) (field w 12 20) (omega arith) (omega arith),
      )
      (omega arith)

pub j_fields :
    (w : ℕ)
    → w < 2 ^ 32
    → bit_or
        (bit_or
          (bit_or
            (bit_or (bit_or (field w 0 7) (shl32 (field w 7 5) 7)) (shl32 (field w 12 8) 12))
            (shl32 (field w 20 1) 20))
          (shl32 (field w 21 10) 21))
        (shl32 (field w 31 1) 31)
      ≡ w
j_fields w h =
    rw
      (
        put_top 7 (field w 0 7) (field w 7 5) (omega arith) (omega arith),
        put_top 12 (field w 0 7 + field w 7 5 * 2 ^ 7) (field w 12 8) (omega arith) (omega arith),
        put_top 20 (field w 0 7 + field w 7 5 * 2 ^ 7 + field w 12 8 * 2 ^ 12) (field w 20 1)
            (omega arith) (omega arith),
        put_top 21
            (field w 0 7 + field w 7 5 * 2 ^ 7 + field w 12 8 * 2 ^ 12 + field w 20 1 * 2 ^ 20)
            (field w 21 10) (omega arith) (omega arith),
        put_top 31
            (field w 0 7
              + field w 7 5 * 2 ^ 7
              + field w 12 8 * 2 ^ 12
              + field w 20 1 * 2 ^ 20
              + field w 21 10 * 2 ^ 21)
            (field w 31 1) (omega arith) (omega arith),
      )
      (omega arith)

-- The immediate of the I format, shifted to its place.
pub i_fields :
    (w : ℕ)
    → w < 2 ^ 32
    → bit_or (low_fields w) (shl32 (field w 20 11 + field w 31 1 * (2 ^ 32 - 2 ^ 11)) 20) ≡ w
i_fields w h =
    let e : shl32 (field w 20 11 + field w 31 1 * (2 ^ 32 - 2 ^ 11)) 20 ≡ shl32 (w / 2 ^ 20) 20 =
      omega arith in
    rw e (p_fields w h)
