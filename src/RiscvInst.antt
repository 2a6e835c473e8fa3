-- ===== src/RiscvInst.antt =====
-- testbench/riscv_inst.h: the instruction class inst_t of the simulator's view, with its enums.
pub mod Decode
pub mod Encode
pub mod Signs
use Prim.Native.String.{String}
use oo_o_processor.Common.{
  ℕ, ◌+◌, ◌*◌, ◌/◌, ◌%◌, ◌-◌, ◌^◌, Bool, true, false, ◌&&◌, ltb, leb, ℤ, pos, negsuc, ◌==◌,
  if◌then◌else◌,
}

-- op_t
pub data OpT : Type 0 where
  lui addi slti sltiu andi ori xori slli srli srai auipc : OpT
  add slt sltu and or xor sll srl sra sub nop : OpT
  jal jalr beq bne blt bltu bge bgeu : OpT
  lb lh lw lbu lhu sb sh sw : OpT
  mul mulh mulhu mulhsu wfi invalid num_op_t : OpT

-- riscv_t
pub data RiscvT : Type 0 where
  r_type i_type s_type u_type p_type num_riscv_t : RiscvT

-- imm_t
pub data ImmT : Type 0 where
  r_imm i_imm s_imm b_imm u_imm j_imm num_imm_t : ImmT

-- inst_t. The words are uint32_t; `str` is the text that it points to.
pub record InstT : Type 0 where
  pub is_valid : Bool
  pub opcode : ℕ
  pub funct3 : ℕ
  pub funct7 : ℕ
  pub funct12 : ℕ
  pub rs1 : ℕ
  pub rs2 : ℕ
  pub rd : ℕ
  pub imm_value : ℕ
  pub inst : ℕ
  pub op : OpT
  pub riscv : RiscvT
  pub imm : ImmT
  pub str : String

abbrev pub is_addi : OpT → Bool
is_addi addi = true
is_addi _ = false

-- A nop is addi x0, x0, 0.
unfoldable pub is_nop : InstT → Bool
is_nop self =
    if is_addi self.op then (self.rd == 0) && (self.rs1 == 0) && (self.imm_value == 0) else false

-- sign: the `int32_t` whose pattern the word is. The last return is not reached.
unfoldable pub sign : ℕ → ℤ
sign value =
    if leb value (2 ^ 31 - 1)
    then pos value
    else if leb (2 ^ 31) value
    then negsuc (2 ^ 31 - 1 - (value - 2 ^ 31))
    else negsuc (2 ^ 32 - 1 - value)

-- The int64_t whose pattern the 64-bit word is.
abbrev pub int64 : ℕ → ℤ
int64 x = if ltb x (2 ^ 63) then pos x else negsuc (2 ^ 64 - 1 - x)

-- mask + value in uint64_t, where the sign bit 0x80000000 & value is set.
unfoldable pub sign64 : ℕ → ℤ
sign64 value =
    if value / 2 ^ 31 % 2 == 1 then int64 (((2 ^ 32 - 1) * 2 ^ 32 + value) % 2 ^ 64) else pos value

unfoldable pub sign_imm : InstT → ℤ
sign_imm self = sign self.imm_value
