-- ===== src/RiscvInst/Signs.antt =====
-- The sign extension of immediates: sign, sign64, sign_imm and analyze of inst_t against the formats.
use oo_o_processor.Common.{
  ℕ, ◌+◌, ◌-◌, ◌*◌, ◌^◌, ◌<◌, ◌≡◌, refl, ◌∙◌, arith, ap, ◌&&◌, ◌||◌, ℤ, pos, negsuc, ltb, ◌==◌,
  if◌then◌else◌, Bool-cases, inl, inr,
}
use oo_o_processor.Words.{field}
use oo_o_processor.RiscvInst.{
  InstT, ImmT, i_imm, s_imm, b_imm, u_imm, j_imm, r_imm, num_imm_t, sign, sign64, sign_imm,
}
use oo_o_processor.RiscvInst.Decode.{analyze, immediate}
use oo_o_processor.RiscvInst.Encode.Immediates.{i_value, s_value, b_value, j_value}

-- The value of an n-bit word in two's complement.
abbrev pub signed : ℕ → ℕ → ℤ
signed n x = if ltb x (2 ^ (n - 1)) then pos x else negsuc (2 ^ n - 1 - x)

-- On a 32-bit word sign64 gives the integer that sign gives, although it works in 64 bits.
pub sign64-sign : (x : ℕ) → x < 2 ^ 32 → sign64 x ≡ sign x
unfolding sign64 sign
sign64-sign x h = ground arith

sign12 :
    (x s : ℕ) → x < 2 ^ 11 → s < 2 → sign (x + s * (2 ^ 32 - 2 ^ 11)) ≡ signed 12 (x + s * 2 ^ 11)
unfolding sign
sign12 x s h b = ground arith

sign13 :
    (x s : ℕ) → x < 2 ^ 12 → s < 2 → sign (x + s * (2 ^ 32 - 2 ^ 12)) ≡ signed 13 (x + s * 2 ^ 12)
unfolding sign
sign13 x s h b = ground arith

sign21 :
    (x s : ℕ) → x < 2 ^ 20 → s < 2 → sign (x + s * (2 ^ 32 - 2 ^ 20)) ≡ signed 21 (x + s * 2 ^ 20)
unfolding sign
sign21 x s h b = ground arith

-- The immediate of a word as the RISC-V manual composes it for the format, signed. The shifts have a
-- five-bit amount; of a U-type word it is the twenty bits, not shifted, as the source's note says.
unfoldable pub offset : InstT → ℤ
offset self =
    let w = self.inst in
    elim self.imm [
      | i_imm ↦
          if self.opcode == 0x13 && (self.funct3 == 0b001 || self.funct3 == 0b101)
          then pos (field w 20 5)
          else signed 12 (field w 20 12)
      | s_imm ↦ signed 12 (field w 25 7 * 2 ^ 5 + field w 7 5)
      | b_imm ↦
          signed 13
            (field w 31 1 * 2 ^ 12 + field w 7 1 * 2 ^ 11 + field w 25 6 * 2 ^ 5 + field w 8 4 * 2)
      | u_imm ↦ pos (field w 12 20)
      | j_imm ↦ signed 21 (
          field w 31 1 * 2 ^ 20 + field w 12 8 * 2 ^ 12 + field w 20 1 * 2 ^ 11 + field w 21 10 * 2)
      | r_imm ↦ sign self.imm_value
      | num_imm_t ↦ sign self.imm_value
    ]

sign-small : (x : ℕ) → x < 2 ^ 31 → sign x ≡ pos x
unfolding sign
sign-small x h = ground arith

immediate-offset : (f : ImmT) (self : InstT) → self.imm ≡ f → sign (immediate f self) ≡ offset self
unfolding immediate offset
immediate-offset i_imm self e =
    let w = self.inst in
    rw e
      (elim (Bool-cases (self.opcode == 0x13 && (self.funct3 == 0b001 || self.funct3 == 0b101))) [
        | inl t ↦ rw t (sign-small (field w 20 5) (omega arith))
        | inr f ↦
            rw (f, i_value w)
              (sign12 (field w 20 11) (field w 31 1) (omega arith) (omega arith)
                ∙ ap (signed 12) (omega arith))
      ])
immediate-offset s_imm self e =
    let w = self.inst in
    rw (e, s_value w)
      (sign12 (field w 7 5 + field w 25 6 * 2 ^ 5) (field w 31 1) (omega arith) (omega arith)
        ∙ ap (signed 12) (omega arith))
immediate-offset b_imm self e =
    let w = self.inst in
    rw (e, b_value w)
      (sign13 (2 * (field w 8 4 + field w 25 6 * 2 ^ 4 + field w 7 1 * 2 ^ 10)) (field w 31 1)
          (omega arith) (omega arith)
        ∙ ap (signed 13) (omega arith))
immediate-offset u_imm self e = rw e (sign-small (field self.inst 12 20) (omega arith))
immediate-offset j_imm self e =
    let w = self.inst in
    rw (e, j_value w)
      (sign21 (2 * (field w 21 10 + field w 20 1 * 2 ^ 10 + field w 12 8 * 2 ^ 11)) (field w 31 1)
          (omega arith) (omega arith)
        ∙ ap (signed 21) (omega arith))
immediate-offset r_imm self e = rw e refl
immediate-offset num_imm_t self e = rw e refl

-- After analyze, sign_imm is the signed immediate that the format gives the word: its twelve, thirteen
-- or twenty-one bits in two's complement for I, S, B and J, but the amount of a shift and the twenty
-- bits of a U-type word as they are. Without an immediate format it is the sign of the old value.
pub sign_imm-analyze : (self : InstT) → sign_imm (analyze self) ≡ offset self
unfolding sign_imm analyze
sign_imm-analyze self = immediate-offset self.imm self refl
