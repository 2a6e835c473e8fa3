-- ===== src/RiscvInst/Decode.antt =====
-- inst_t::decode and inst_t::analyze of testbench/riscv_inst.h. Each inner switch of decode is a
-- function of its own. A case that does not set `riscv` and `imm` leaves what they held before.
use Prim.Native.Nat.{bit_or}
use Prim.Native.String.{String}
use oo_o_processor.Common.{ℕ, ◌-◌, ◌/◌, ◌^◌, true, ◌&&◌, ◌||◌, ◌==◌, if◌then◌else◌}
use oo_o_processor.Words.{shl32, field}
use oo_o_processor.RiscvInst.{
  OpT, lui, addi, slti, sltiu, andi, ori, xori, slli, srli, srai, auipc, add, slt, sltu, and, or,
  xor, sll, srl, sra, sub, jal, jalr, beq, bne, blt, bltu, bge, bgeu, lb, lh, lw, lbu, lhu, sb, sh,
  sw, mul, mulh, mulhu, mulhsu, wfi, invalid, RiscvT, r_type, i_type, s_type, u_type, p_type, ImmT,
  r_imm, i_imm, s_imm, b_imm, u_imm, j_imm, num_imm_t, InstT,
}

abbrev pub named : InstT → String → OpT → InstT
named self t o = record self { str = t; op = o }

abbrev pub formatted : InstT → RiscvT → ImmT → InstT
formatted self r i = record self { riscv = r; imm = i }

-- switch (funct3) of the branches.
unfoldable pub decode_branch : InstT → InstT
decode_branch self =
    if self.funct3 == 0b000
    then named self "beq" beq
    else if self.funct3 == 0b001
    then named self "bne" bne
    else if self.funct3 == 0b100
    then named self "blt" blt
    else if self.funct3 == 0b101
    then named self "bge" bge
    else if self.funct3 == 0b110
    then named self "bltu" bltu
    else if self.funct3 == 0b111
    then named self "bgeu" bgeu
    else named self "invalid" invalid

-- switch (funct3) of the loads.
unfoldable pub decode_load : InstT → InstT
decode_load self =
    if self.funct3 == 0b000
    then named self "lb" lb
    else if self.funct3 == 0b001
    then named self "lh" lh
    else if self.funct3 == 0b010
    then named self "lw" lw
    else if self.funct3 == 0b100
    then named self "lbu" lbu
    else if self.funct3 == 0b101
    then named self "lhu" lhu
    else named self "invalid" invalid

-- switch (funct3) of the stores.
unfoldable pub decode_store : InstT → InstT
decode_store self =
    if self.funct3 == 0b000
    then named self "sb" sb
    else if self.funct3 == 0b001
    then named self "sh" sh
    else if self.funct3 == 0b010
    then named self "sw" sw
    else named self "invalid" invalid

-- Case 0b001 of the immediate operations.
unfoldable pub decode_shift_left : InstT → InstT
decode_shift_left self =
    if self.funct7 == 0x00 then named self "slli" slli else named self "invalid" invalid

-- Case 0b101 of the immediate operations.
unfoldable pub decode_shift_right : InstT → InstT
decode_shift_right self =
    if self.funct7 == 0x00
    then named self "srli" srli
    else if self.funct7 == 0x20
    then named self "srai" srai
    else named self "invalid" invalid

-- switch (funct3) of the immediate operations, which has no default.
unfoldable pub decode_immediate : InstT → InstT
decode_immediate self =
    if self.funct3 == 0b000
    then named self "addi" addi
    else if self.funct3 == 0b010
    then named self "slti" slti
    else if self.funct3 == 0b011
    then named self "sltiu" sltiu
    else if self.funct3 == 0b100
    then named self "xori" xori
    else if self.funct3 == 0b110
    then named self "ori" ori
    else if self.funct3 == 0b111
    then named self "andi" andi
    else if self.funct3 == 0b001
    then decode_shift_left self
    else if self.funct3 == 0b101
    then decode_shift_right self
    else self

-- switch (funct7 << 4 | funct3), from the M extension's first case on.
unfoldable pub decode_multiply : ℕ → InstT → InstT
decode_multiply key self =
    if key == 0x010
    then named self "mul" mul
    else if key == 0x011
    then named self "mulh" mulh
    else if key == 0x012
    then named self "mulhsu" mulhsu
    else if key == 0x013
    then named self "mulhu" mulhu
    else if key == 0x014
    then named self "div" invalid
    else if key == 0x015
    then named self "divu" invalid
    else if key == 0x016
    then named self "rem" invalid
    else if key == 0x017
    then named self "remu" invalid
    else named self "invalid" invalid

-- The cases above those.
unfoldable pub decode_key : ℕ → InstT → InstT
decode_key key self =
    if key == 0x000
    then named self "add" add
    else if key == 0x200
    then named self "sub" sub
    else if key == 0x001
    then named self "sll" sll
    else if key == 0x002
    then named self "slt" slt
    else if key == 0x003
    then named self "sltu" sltu
    else if key == 0x004
    then named self "xor" xor
    else if key == 0x005
    then named self "srl" srl
    else if key == 0x205
    then named self "sra" sra
    else if key == 0x006
    then named self "or" or
    else if key == 0x007
    then named self "and" and
    else decode_multiply key self

unfoldable pub decode_arithmetic : InstT → InstT
decode_arithmetic self = decode_key (bit_or (shl32 self.funct7 4) self.funct3) self

-- switch (funct12), for funct3 = 0b000.
unfoldable pub decode_environment : InstT → InstT
decode_environment self =
    if self.funct12 == 0x000
    then named self "ecall" invalid
    else if self.funct12 == 0x001
    then named self "ebreak" invalid
    else if self.funct12 == 0x105
    then named self "wfi" wfi
    else named self "system" invalid

-- switch (funct3) of the system instructions.
unfoldable pub decode_system : InstT → InstT
decode_system self =
    if self.funct3 == 0b000
    then decode_environment self
    else if self.funct3 == 0b001
    then named self "csrrw" invalid
    else if self.funct3 == 0b010
    then named self "csrrs" invalid
    else if self.funct3 == 0b011
    then named self "csrrc" invalid
    else if self.funct3 == 0b101
    then named self "csrrwi" invalid
    else if self.funct3 == 0b110
    then named self "csrrsi" invalid
    else if self.funct3 == 0b111
    then named self "csrrci" invalid
    else named self "invalid" invalid

-- switch (opcode)
unfoldable pub decode_opcode : InstT → InstT
decode_opcode self =
    if self.opcode == 0x37
    then named (formatted self u_type u_imm) "LUI" lui
    else if self.opcode == 0x17
    then named (formatted self u_type u_imm) "auipc" auipc
    else if self.opcode == 0x6f
    then named (formatted self u_type j_imm) "jal" jal
    else if self.opcode == 0x67
    then named (formatted self i_type i_imm) "jalr" jalr
    else if self.opcode == 0x63
    then decode_branch (formatted self s_type b_imm)
    else if self.opcode == 0x03
    then decode_load (formatted self i_type i_imm)
    else if self.opcode == 0x23
    then decode_store (formatted self s_type s_imm)
    else if self.opcode == 0x13
    then decode_immediate (formatted self i_type i_imm)
    else if self.opcode == 0x33
    then decode_arithmetic (formatted self r_type r_imm)
    else if self.opcode == 0x0f
    then named self "fence" invalid
    else if self.opcode == 0x73
    then decode_system (formatted self p_type r_imm)
    else named self "invalid" invalid

-- The masks of ones that analyze puts above an immediate whose sign bit is set.
abbrev pub imask : ℕ
imask = shl32 (2 ^ 22 - 1) 11

abbrev pub bmask : ℕ
bmask = shl32 (2 ^ 21 - 1) 12

abbrev pub jmask : ℕ
jmask = shl32 (2 ^ 13 - 1) 20

-- if (sign) imm_value |= mask
abbrev pub extend : ℕ → ℕ → ℕ → ℕ
extend w mask value = if field w 31 1 == 1 then bit_or value mask else value

-- switch (imm): the immediate of the word, or what `imm_value` held.
unfoldable pub immediate : ImmT → InstT → ℕ
immediate i_imm self =
    if self.opcode == 0x13 && (self.funct3 == 0b001 || self.funct3 == 0b101)
    then field self.inst 20 5
    else extend self.inst imask (field self.inst 20 11)
immediate s_imm self =
    extend self.inst imask (bit_or (field self.inst 7 5) (shl32 (field self.inst 25 6) 5))
immediate b_imm self = extend self.inst bmask (
    shl32
      (bit_or (bit_or (field self.inst 8 4) (shl32 (field self.inst 25 6) 4))
        (shl32 (field self.inst 7 1) 10))
      1)
immediate u_imm self = field self.inst 12 20
immediate j_imm self = extend self.inst jmask (
    shl32
      (bit_or (bit_or (field self.inst 21 10) (shl32 (field self.inst 20 1) 10))
        (shl32 (field self.inst 12 8) 11))
      1)
immediate r_imm self = self.imm_value
immediate num_imm_t self = self.imm_value

unfoldable pub analyze : InstT → InstT
analyze self = record self {
  rs2 = field self.inst 20 5;
  rs1 = field self.inst 15 5;
  rd = field self.inst 7 5;
  imm_value = immediate self.imm self;
}

-- The fields that decode sets before its switch.
unfoldable pub split_word : InstT → ℕ → InstT
split_word self w = record self {
  is_valid = true;
  inst = w;
  opcode = field w 0 7;
  funct3 = field w 12 3;
  funct7 = w / 2 ^ 25;
  funct12 = w / 2 ^ 20;
  str = "invalid";
  op = invalid;
}

unfoldable pub decode : InstT → ℕ → InstT
decode self w = analyze (decode_opcode (split_word self w))
