-- ===== src/PipePrint.antt =====
-- testbench/pipe_print.c: the trace of the pipeline. `ppfile` is the file's text while it is open, as
-- the list of the fprintf calls that wrote it; a call on the null file faults.
pub mod Mnemonic
pub mod Agree
pub mod Numbers
use Prim.Native.String.{String}
use oo_o_processor.Common.{
  ℕ, ◌+◌, Bool, true, false, ◌&&◌, ◌||◌, Option, none, some, List, [], ◌∷◌, ◌++◌, ℤ, pos, negsuc,
  ltb_ℤ, ◌==ℤ◌, ◌==◌, if◌then◌else◌, Run, ok, fault,
}
use oo_o_processor.PipePrint.Mnemonic.{stage_name}

-- One fprintf: its format, and its arguments.
pub data Printed : Type 0 where
  -- "%s"
  text : String → Printed
  -- "\n%5d:"
  cycle : ℕ → Printed
  -- "%s%4d:%-8s"
  stage : String → ℤ → String → Printed
  -- "\n"
  newline : Printed
  -- "r%d=%d  " and "r%d=0x%x%x  "
  reg_decimal : ℤ → ℤ → Printed
  reg_hex : ℤ → ℤ → ℤ → Printed
  -- "BUS_LOAD  MEM[", "BUS_STORE MEM[", "]" and "] = "
  bus_load bus_store close_load close_store : Printed
  -- "%d" and "0x%x%x"
  decimal : ℤ → Printed
  hex : ℤ → ℤ → Printed
  -- " accepted %d" and " rejected"
  accepted : ℤ → Printed
  rejected : Printed

pub record Trace : Type 0 where
  pub cycle_count : ℕ
  pub ppfile : Option (List Printed)

abbrev prints : Trace → List Printed → List Printed → Trace
prints s old new = record s { ppfile = some (old ++ new) }

-- `opened` is whether fopen succeeds; it empties the file.
unfoldable pub print_header : Bool → String → Trace → Run Trace
print_header opened str s = elim s.ppfile [
  | some out ↦ ok (prints s out (text str ∷ []))
  | none ↦ if opened then ok (prints s [] (text str ∷ [])) else fault
]

unfoldable pub print_cycles : Trace → Trace
print_cycles s = elim s.ppfile [
  | some out ↦ record s {
    cycle_count = s.cycle_count + 1;
    ppfile = some (out ++ cycle s.cycle_count ∷ []);
  }
  | none ↦ s
]

-- `inst` is the pattern of the source's int.
unfoldable pub print_stage : String → ℕ → ℤ → ℕ → Trace → Trace
print_stage div inst npc valid_inst s = elim s.ppfile [
  | some out ↦ prints s out (stage div npc (stage_name inst valid_inst) ∷ [])
  | none ↦ s
]

unfoldable pub print_close : Trace → Run Trace
print_close s = elim s.ppfile [ some out ↦ ok (record s { ppfile = none }) | none ↦ fault ]

-- (hi == 0) || ((hi == -1) && (lo < 0))
unfoldable pub is_decimal : ℤ → ℤ → Bool
is_decimal hi lo = (hi ==ℤ pos 0) || ((hi ==ℤ negsuc 0) && ltb_ℤ lo (pos 0))

unfoldable pub print_reg : ℤ → ℤ → ℤ → ℤ → Trace → Trace
print_reg hi lo idx wr_en s = elim s.ppfile [
  | none ↦ s
  | some out ↦
      if wr_en ==ℤ pos 0
      then s
      else if is_decimal hi lo
      then prints s out (reg_decimal idx lo ∷ [])
      else prints s out (reg_hex idx hi lo ∷ [])
]

-- The address or the data of a bus transaction.
unfoldable pub number : ℤ → ℤ → Printed
number hi lo = if is_decimal hi lo then decimal lo else hex hi lo

unfoldable pub response : ℤ → Printed
response r = if r ==ℤ pos 0 then rejected else accepted r

unfoldable pub print_membus : ℤ → ℤ → ℤ → ℤ → ℤ → ℤ → Trace → Trace
print_membus command mem_response addr_hi addr_lo data_hi data_lo s = elim s.ppfile [
  | none ↦ s
  | some out ↦
      if command ==ℤ pos 1
      then prints s out
          (bus_load ∷ number addr_hi addr_lo ∷ close_load ∷ response mem_response ∷ [])
      else if command ==ℤ pos 2
      then prints s out (
          bus_store
          ∷ number addr_hi addr_lo
          ∷ close_store
          ∷ number data_hi data_lo
          ∷ response mem_response
          ∷ [])
      else s
]
