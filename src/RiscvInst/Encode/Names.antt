-- ===== src/RiscvInst/Encode/Names.antt =====
-- The inner switches of decode set only the name and the operation.
use oo_o_processor.Common.{ℕ, ◌≡◌, ◌≢◌, false, ◌==◌, ◌||◌, arith}
use oo_o_processor.RiscvInst.{invalid, InstT}
use oo_o_processor.RiscvInst.Decode.{
  named, decode_branch, decode_load, decode_store, decode_immediate, decode_shift_left,
  decode_shift_right, decode_key, decode_multiply, decode_system, decode_environment,
}
use oo_o_processor.RiscvInst.Encode.{is_shift}

-- `x` is `s` but for its name and operation.
abbrev pub Names : InstT → InstT → Type 0
Names s x = x ≡ named s x.str x.op

pub decode_branch-Names : (s : InstT) → Names s (decode_branch s)
unfolding decode_branch
decode_branch-Names s = ground arith

pub decode_load-Names : (s : InstT) → Names s (decode_load s)
unfolding decode_load
decode_load-Names s = ground arith

pub decode_load-shift : (s : InstT) → is_shift (decode_load s).op ≡ false
unfolding decode_load
decode_load-shift s = ground arith

pub decode_store-Names : (s : InstT) → Names s (decode_store s)
unfolding decode_store
decode_store-Names s = ground arith

pub decode_multiply-Names : (k : ℕ) (s : InstT) → Names s (decode_multiply k s)
unfolding decode_multiply
decode_multiply-Names k s = ground arith

pub decode_key-Names : (k : ℕ) (s : InstT) → Names s (decode_key k s)
unfolding decode_key
decode_key-Names k s = ground (arith, decode_multiply-Names k s)

pub decode_system-Names : (s : InstT) → Names s (decode_system s)
unfolding decode_system decode_environment
decode_system-Names s = ground arith

pub decode_immediate-Names : (s : InstT) → Names s (decode_immediate s)
unfolding decode_immediate decode_shift_left decode_shift_right
decode_immediate-Names s = ground arith

pub decode_immediate-shift :
    (s : InstT)
    → (decode_immediate s).op ≢ invalid
    → s.op ≡ invalid
    → is_shift (decode_immediate s).op ≡ (s.funct3 == 0b001 || s.funct3 == 0b101)
unfolding decode_immediate decode_shift_left decode_shift_right
decode_immediate-shift s v n = ground arith
