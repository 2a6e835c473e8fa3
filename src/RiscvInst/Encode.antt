-- ===== src/RiscvInst/Encode.antt =====
-- inst_t::select, assign and encode of testbench/riscv_inst.h.
pub mod Selects
mod Fields
mod Names
mod Shapes
pub mod Immediates
pub mod RoundTrip
use Prim.Native.Nat.{bit_or}
use oo_o_processor.Common.{ℕ, ◌%◌, ◌^◌, Bool, true, false, if◌then◌else◌}
use oo_o_processor.Words.{shl32, field}
use oo_o_processor.RiscvInst.{
  OpT, lui, addi, slti, sltiu, andi, ori, xori, slli, srli, srai, auipc, add, slt, sltu, and, or,
  xor, sll, srl, sra, sub, nop, jal, jalr, beq, bne, blt, bltu, bge, bgeu, lb, lh, lw, lbu, lhu, sb,
  sh, sw, mul, mulh, mulhu, mulhsu, wfi, invalid, num_op_t, RiscvT, r_type, i_type, s_type, u_type,
  p_type, num_riscv_t, ImmT, r_imm, i_imm, s_imm, b_imm, u_imm, j_imm, InstT,
}

-- select_t
pub record SelectT : Type 0 where
  pub riscv : RiscvT
  pub imm : ImmT
  pub opcode : ℕ
  pub funct3 : ℕ
  pub funct7 : ℕ
  pub funct12 : ℕ

unfoldable pub assign : InstT → SelectT → InstT
assign self sel = record self {
  riscv = sel.riscv;
  imm = sel.imm;
  opcode = sel.opcode;
  funct3 = sel.funct3;
  funct7 = sel.funct7;
  funct12 = sel.funct12;
}

-- The assignments of the cases of select, by format. A member that a case does not set keeps what
-- the local variable held, `sel`.
abbrev select_i : SelectT → ℕ → ℕ → SelectT
select_i sel op f3 = record sel { funct3 = f3; opcode = op; imm = i_imm; riscv = i_type }

abbrev select_shift : SelectT → ℕ → ℕ → SelectT
select_shift sel f3 f7 = record sel {
  funct3 = f3;
  funct7 = f7;
  opcode = 0x13;
  imm = i_imm;
  riscv = i_type;
}

abbrev select_r : SelectT → ℕ → ℕ → SelectT
select_r sel f3 f7 = record sel {
  funct3 = f3;
  funct7 = f7;
  opcode = 0x33;
  imm = r_imm;
  riscv = r_type;
}

abbrev select_u : SelectT → ℕ → SelectT
select_u sel op = record sel { opcode = op; imm = u_imm; riscv = u_type }

abbrev select_s : SelectT → ℕ → ImmT → ℕ → SelectT
select_s sel op i f3 = record sel { funct3 = f3; opcode = op; imm = i; riscv = s_type }

-- select, with the local variable as it is before it is assigned.
unfoldable pub select : SelectT → OpT → SelectT
select sel addi = select_i sel 0x13 0b000
select sel slti = select_i sel 0x13 0b010
select sel sltiu = select_i sel 0x13 0b011
select sel andi = select_i sel 0x13 0b111
select sel ori = select_i sel 0x13 0b110
select sel xori = select_i sel 0x13 0b100
select sel slli = select_shift sel 0b001 0x00
select sel srli = select_shift sel 0b101 0x00
select sel srai = select_shift sel 0b101 0x20
select sel lui = select_u sel 0x37
select sel auipc = select_u sel 0x17
select sel add = select_r sel 0b000 0x00
select sel slt = select_r sel 0b010 0x00
select sel sltu = select_r sel 0b011 0x00
select sel and = select_r sel 0b111 0x00
select sel or = select_r sel 0b110 0x00
select sel xor = select_r sel 0b100 0x00
select sel sll = select_r sel 0b001 0x00
select sel srl = select_r sel 0b101 0x00
select sel sra = select_r sel 0b101 0x20
select sel sub = select_r sel 0b000 0x20
select sel jal = select_u sel 0x6f
select sel jalr = select_i sel 0x67 0b000
select sel beq = select_s sel 0x63 b_imm 0b000
select sel bne = select_s sel 0x63 b_imm 0b001
select sel blt = select_s sel 0x63 b_imm 0b100
select sel bltu = select_s sel 0x63 b_imm 0b110
select sel bge = select_s sel 0x63 b_imm 0b101
select sel bgeu = select_s sel 0x63 b_imm 0b111
select sel lb = select_i sel 0x03 0b000
select sel lh = select_i sel 0x03 0b001
select sel lw = select_i sel 0x03 0b010
select sel lbu = select_i sel 0x03 0b100
select sel lhu = select_i sel 0x03 0b101
select sel sb = select_s sel 0x23 s_imm 0b000
select sel sh = select_s sel 0x23 s_imm 0b001
select sel sw = select_s sel 0x23 s_imm 0b010
select sel mul = select_r sel 0b000 0x01
select sel mulh = select_r sel 0b001 0x01
select sel mulhu = select_r sel 0b011 0x01
select sel mulhsu = select_r sel 0b010 0x01
select sel wfi = record sel {
  opcode = 0x73;
  funct3 = 0b000;
  funct12 = 0x105;
  imm = r_imm;
  riscv = p_type;
}
select sel nop = sel
select sel invalid = sel
select sel num_op_t = sel

abbrev pub is_shift : OpT → Bool
is_shift slli = true
is_shift srli = true
is_shift srai = true
is_shift _ = false

unfoldable pub encode_r : InstT → ℕ
encode_r self =
    let v = bit_or self.opcode (shl32 self.rd 7) in
    let v' = bit_or (bit_or v (shl32 self.funct3 12)) (shl32 self.rs1 15) in
    bit_or (bit_or v' (shl32 self.rs2 20)) (shl32 self.funct7 25)

unfoldable pub encode_i : InstT → ℕ
encode_i self =
    let v = bit_or self.opcode (shl32 self.rd 7) in
    let v' = bit_or (bit_or v (shl32 self.funct3 12)) (shl32 self.rs1 15) in
    if is_shift self.op
    then bit_or (bit_or v' (shl32 (self.imm_value % 2 ^ 5) 20)) (shl32 self.funct7 25)
    else bit_or v' (shl32 self.imm_value 20)

-- Where `imm` is neither Simm nor Bimm the source prints a message and adds no immediate.
abbrev encode_s_imm : ImmT → ℕ → ℕ → ℕ
encode_s_imm s_imm value v =
    bit_or (bit_or v (shl32 (value % 2 ^ 5) 7)) (shl32 (field value 5 6) 25)
encode_s_imm b_imm value v =
    let v' = bit_or (bit_or v (shl32 (field value 11 1) 7)) (shl32 (field value 1 4) 8) in
    bit_or (bit_or v' (shl32 (field value 5 6) 25)) (shl32 (field value 12 1) 31)
encode_s_imm _ value v = v

unfoldable pub encode_s : InstT → ℕ
encode_s self =
    let v = bit_or self.opcode (shl32 self.funct3 12) in
    let v' = bit_or (bit_or v (shl32 self.rs1 15)) (shl32 self.rs2 20) in
    encode_s_imm self.imm self.imm_value v'

abbrev encode_u_imm : ImmT → ℕ → ℕ → ℕ
encode_u_imm u_imm value v = bit_or v (shl32 (field value 0 20) 12)
encode_u_imm j_imm value v =
    let v' = bit_or (bit_or v (shl32 (field value 12 8) 12)) (shl32 (field value 11 1) 20) in
    bit_or (bit_or v' (shl32 (field value 1 10) 21)) (shl32 (field value 20 1) 31)
encode_u_imm _ value v = v

unfoldable pub encode_u : InstT → ℕ
encode_u self = encode_u_imm self.imm self.imm_value (bit_or self.opcode (shl32 self.rd 7))

unfoldable pub encode_p : InstT → ℕ
encode_p self =
    let v = bit_or self.opcode (shl32 self.rd 7) in
    bit_or (bit_or (bit_or v (shl32 self.funct3 12)) (shl32 self.rs1 15)) (shl32 self.funct12 20)

-- switch (riscv)
abbrev encode_as : RiscvT → InstT → ℕ
encode_as r_type self = encode_r self
encode_as i_type self = encode_i self
encode_as s_type self = encode_s self
encode_as u_type self = encode_u self
encode_as p_type self = encode_p self
encode_as num_riscv_t self = 0

-- The word of an instruction. On the empty word the first `|=` leaves the opcode.
unfoldable pub encode : InstT → ℕ
encode self = encode_as self.riscv self
