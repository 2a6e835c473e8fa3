-- ===== src/PipePrint/Mnemonic.antt =====
-- The mnemonics of print_stage in testbench/pipe_print.c. An `int` is its 32-bit pattern here.
use Prim.Native.Nat.{bit_or}
use Prim.Native.String.{String}
use oo_o_processor.Common.{ℕ, ◌+◌, ◌-◌, ◌/◌, ◌%◌, ◌^◌, ltb, ◌==◌, if◌then◌else◌}
use oo_o_processor.Words.{shl32, field}

-- inst >> k on an `int`, which copies the sign bit.
abbrev pub sar32 : ℕ → ℕ → ℕ
sar32 w k = if ltb w (2 ^ 31) then w / 2 ^ k else w / 2 ^ k + (2 ^ 32 - 2 ^ (32 - k))

-- switch (funct3) of the branches.
unfoldable pub branch_name : ℕ → String
branch_name funct3 =
    if funct3 == 0b000
    then "beq"
    else if funct3 == 0b001
    then "bne"
    else if funct3 == 0b100
    then "blt"
    else if funct3 == 0b101
    then "bge"
    else if funct3 == 0b110
    then "bltu"
    else if funct3 == 0b111
    then "bgeu"
    else "invalid"

-- switch (funct3) of the loads.
unfoldable pub load_name : ℕ → String
load_name funct3 =
    if funct3 == 0b000
    then "lb"
    else if funct3 == 0b001
    then "lh"
    else if funct3 == 0b010
    then "lw"
    else if funct3 == 0b100
    then "lbu"
    else if funct3 == 0b101
    then "lhu"
    else "invalid"

-- switch (funct3) of the stores.
unfoldable pub store_name : ℕ → String
store_name funct3 =
    if funct3 == 0b000
    then "sb"
    else if funct3 == 0b001
    then "sh"
    else if funct3 == 0b010
    then "sw"
    else "invalid"

-- Case 0b101 of the immediate operations.
unfoldable pub shift_right_name : ℕ → String
shift_right_name funct7 =
    if funct7 == 0x00 then "srli" else if funct7 == 0x20 then "srai" else "invalid"

-- switch (funct3) of the immediate operations. It has no default: the last text stands for the
-- pointer that would be left unset, for a funct3 of more than three bits.
unfoldable pub immediate_name : ℕ → ℕ → String
immediate_name funct3 funct7 =
    if funct3 == 0b000
    then "addi"
    else if funct3 == 0b010
    then "slti"
    else if funct3 == 0b011
    then "sltiu"
    else if funct3 == 0b100
    then "xori"
    else if funct3 == 0b110
    then "ori"
    else if funct3 == 0b111
    then "andi"
    else if funct3 == 0b001
    then if funct7 == 0x00 then "slli" else "invalid"
    else if funct3 == 0b101
    then shift_right_name funct7
    else "invalid"

-- switch (funct7 << 4 | funct3), from the M extension's first case on.
unfoldable pub multiply_name : ℕ → String
multiply_name key =
    if key == 0x010
    then "mul"
    else if key == 0x011
    then "mulh"
    else if key == 0x012
    then "mulhsu"
    else if key == 0x013
    then "mulhu"
    else if key == 0x014
    then "div"
    else if key == 0x015
    then "divu"
    else if key == 0x016
    then "rem"
    else if key == 0x017
    then "remu"
    else "invalid"

-- The cases above those.
unfoldable pub arithmetic_name : ℕ → String
arithmetic_name key =
    if key == 0x000
    then "add"
    else if key == 0x200
    then "sub"
    else if key == 0x001
    then "sll"
    else if key == 0x002
    then "slt"
    else if key == 0x003
    then "sltu"
    else if key == 0x004
    then "xor"
    else if key == 0x005
    then "srl"
    else if key == 0x205
    then "sra"
    else if key == 0x006
    then "or"
    else if key == 0x007
    then "and"
    else multiply_name key

-- switch (funct12), for funct3 = 0b000.
unfoldable pub environment_name : ℕ → String
environment_name funct12 =
    if funct12 == 0x000
    then "ecall"
    else if funct12 == 0x001
    then "ebreak"
    else if funct12 == 0x105
    then "wfi"
    else "system"

-- switch (funct3) of the system instructions.
unfoldable pub system_name : ℕ → ℕ → String
system_name funct3 funct12 =
    if funct3 == 0b000
    then environment_name funct12
    else if funct3 == 0b001
    then "csrrw"
    else if funct3 == 0b010
    then "csrrs"
    else if funct3 == 0b011
    then "csrrc"
    else if funct3 == 0b101
    then "csrrwi"
    else if funct3 == 0b110
    then "csrrsi"
    else if funct3 == 0b111
    then "csrrci"
    else "invalid"

-- switch (opcode)
unfoldable pub inst_name : ℕ → String
inst_name inst =
    let opcode = field inst 0 7 in
    let funct3 = sar32 inst 12 % 2 ^ 3 in
    let funct7 = sar32 inst 25 in
    let funct12 = sar32 inst 20 in
    if opcode == 0x37
    then "lui"
    else if opcode == 0x17
    then "auipc"
    else if opcode == 0x6f
    then "jal"
    else if opcode == 0x67
    then "jalr"
    else if opcode == 0x63
    then branch_name funct3
    else if opcode == 0x03
    then load_name funct3
    else if opcode == 0x23
    then store_name funct3
    else if opcode == 0x13
    then immediate_name funct3 funct7
    else if opcode == 0x33
    then arithmetic_name (bit_or (shl32 funct7 4) funct3)
    else if opcode == 0x0f
    then "fence"
    else if opcode == 0x73
    then system_name funct3 funct12
    else "invalid"

abbrev pub noop_inst : ℕ
noop_inst = 0x00000013

-- The text `str` of print_stage.
unfoldable pub stage_name : ℕ → ℕ → String
stage_name inst valid_inst =
    if valid_inst == 0 then "-" else if inst == noop_inst then "nop" else inst_name inst
