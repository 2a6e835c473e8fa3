-- ===== src/PipePrint/Agree.antt =====
-- print_stage names an instruction as inst_t::decode does.
use Prim.Native.Nat.{bit_or}
use Prim.Native.String.{String}
use oo_o_processor.Common.{
  ℕ, ◌+◌, ◌-◌, ◌*◌, ◌/◌, ◌%◌, ◌^◌, ◌≤◌, ◌<◌, ◌≡◌, ◌⊎◌, ◌∙◌, sym, refl, true, ltb, ◌==◌,
  if◌then◌else◌, Bool-cases, inl, inr, if_pair, arith,
}
use oo_o_processor.Words.{shl32, field, key_sum}
use oo_o_processor.RiscvInst.{InstT, r_type, i_type, s_type, p_type, r_imm, i_imm, s_imm, b_imm}
use oo_o_processor.RiscvInst.Decode.{
  formatted, split_word, analyze, decode_branch, decode_load, decode_store, decode_immediate,
  decode_shift_left, decode_shift_right, decode_arithmetic, decode_key, decode_multiply,
  decode_system, decode_environment, decode_opcode, decode,
}
use oo_o_processor.PipePrint.Mnemonic.{
  sar32, branch_name, load_name, store_name, shift_right_name, immediate_name, multiply_name,
  arithmetic_name, environment_name, system_name, inst_name,
}

branch-str : (s : InstT) → branch_name s.funct3 ≡ (decode_branch s).str
unfolding branch_name decode_branch
branch-str s = ground arith

load-str : (s : InstT) → load_name s.funct3 ≡ (decode_load s).str
unfolding load_name decode_load
load-str s = ground arith

store-str : (s : InstT) → store_name s.funct3 ≡ (decode_store s).str
unfolding store_name decode_store
store-str s = ground arith

-- The two decoders read funct7 and funct12 by an arithmetic and a logical shift.
immediate-str :
    (s : InstT) (f : ℕ)
    → s.str ≡ "invalid"
    → (f ≡ s.funct7) ⊎ ((0x20 < f) × (0x20 < s.funct7))
    → immediate_name s.funct3 f ≡ (decode_immediate s).str
unfolding immediate_name shift_right_name decode_immediate decode_shift_left decode_shift_right
immediate-str s f n e = ground arith

multiply-str : (s : InstT) (k : ℕ) → multiply_name k ≡ (decode_multiply k s).str
unfolding multiply_name decode_multiply
multiply-str s k = ground arith

arithmetic-str : (s : InstT) (k : ℕ) → arithmetic_name k ≡ (decode_key k s).str
unfolding arithmetic_name decode_key
arithmetic-str s k = ground (arith, multiply-str s k)

large_key : (k : ℕ) → 0x205 < k → arithmetic_name k ≡ "invalid"
unfolding arithmetic_name multiply_name
large_key k h = ground arith

system-str :
    (s : InstT) (f : ℕ)
    → (f ≡ s.funct12) ⊎ ((0x105 < f) × (0x105 < s.funct12))
    → system_name s.funct3 f ≡ (decode_system s).str
unfolding system_name environment_name decode_system decode_environment
system-str s f e = ground arith

sar32-field : (w : ℕ) → w < 2 ^ 32 → sar32 w 12 % 2 ^ 3 ≡ field w 12 3
sar32-field w h = ground arith

sar32-funct7 :
    (w : ℕ) → w < 2 ^ 32 → (sar32 w 25 ≡ w / 2 ^ 25) ⊎ ((0x20 < sar32 w 25) × (0x20 < w / 2 ^ 25))
sar32-funct7 w h = elim (Bool-cases (ltb w (2 ^ 31))) [
  | inl t ↦ rw t (inl refl)
  | inr f ↦ let high : 2 ^ 31 ≤ w = ground arith in rw f (inr (omega arith))
]

sar32-funct12 :
    (w : ℕ) → w < 2 ^ 32 → (sar32 w 20 ≡ w / 2 ^ 20) ⊎ ((0x105 < sar32 w 20) × (0x105 < w / 2 ^ 20))
sar32-funct12 w h = elim (Bool-cases (ltb w (2 ^ 31))) [
  | inl t ↦ rw t (inl refl)
  | inr f ↦ let high : 2 ^ 31 ≤ w = ground arith in rw f (inr (omega arith))
]

key_agree :
    (w : ℕ)
    → w < 2 ^ 32
    → arithmetic_name (bit_or (shl32 (sar32 w 25) 4) (field w 12 3))
      ≡ arithmetic_name (bit_or (shl32 (w / 2 ^ 25) 4) (field w 12 3))
key_agree w h = elim (Bool-cases (ltb w (2 ^ 31))) [
  | inl t ↦ rw t
  | inr n ↦
      let high : 2 ^ 31 ≤ w = ground arith in
      let f = w / 2 ^ 25 in
      let g = field w 12 3 in
      rw (n, key_sum f g (omega arith), key_sum (f + (2 ^ 32 - 2 ^ 7)) g (omega arith))
        (large_key ((f + (2 ^ 32 - 2 ^ 7)) % 2 ^ 28 * 2 ^ 4 + g) (omega arith)
          ∙ sym (large_key (f % 2 ^ 28 * 2 ^ 4 + g) (omega arith)))
]

abbrev SameText : String → InstT → Type 0
SameText t x = t ≡ x.str

-- The table of print_stage, by the text of decode.
inst_name-unless :
    (self : InstT) (w : ℕ)
    → w < 2 ^ 32
    → inst_name w ≡ (if field w 0 7 == 0x37 then "lui" else (decode self w).str)
unfolding inst_name decode analyze decode_opcode split_word decode_arithmetic
inst_name-unless self w h =
    let s = split_word self w in
    rw (sar32-field w h) (elim (Bool-cases (field w 0 7 == 0x37)) [
      | inl t ↦ rw t
      | inr f ↦ rw f (
          if_pair SameText (field w 0 7 == 0x17) (λ _. refl)
            λ _.
              if_pair SameText (field w 0 7 == 0x6f) (λ _. refl)
                λ _.
                  if_pair SameText (field w 0 7 == 0x67) (λ _. refl)
                    λ _.
                      if_pair SameText (field w 0 7 == 0x63)
                        (λ _. branch-str (formatted s s_type b_imm))
                        λ _.
                          if_pair SameText (field w 0 7 == 0x03)
                            (λ _. load-str (formatted s i_type i_imm))
                            λ _.
                              if_pair SameText (field w 0 7 == 0x23)
                                (λ _. store-str (formatted s s_type s_imm))
                                λ _.
                                  if_pair SameText (field w 0 7 == 0x13)
                                    (λ _.
                                      immediate-str (formatted s i_type i_imm) (sar32 w 25) refl
                                        (sar32-funct7 w h))
                                    λ _.
                                      if_pair SameText (field w 0 7 == 0x33)
                                        (λ _.
                                          key_agree w h
                                          ∙ arithmetic-str (formatted s r_type r_imm) _)
                                        λ _.
                                          if_pair SameText (field w 0 7 == 0x0f) (λ _. refl)
                                            λ _.
                                              if_pair SameText (field w 0 7 == 0x73)
                                                (λ _.
                                                  system-str (formatted s p_type r_imm) (sar32 w 20)
                                                    (sar32-funct12 w h))
                                                λ _. refl)
    ])

decode-lui : (self : InstT) (w : ℕ) → (field w 0 7 == 0x37) ≡ true → (decode self w).str ≡ "LUI"
unfolding decode analyze decode_opcode split_word
decode-lui self w t = rw t refl

-- For a 32-bit word print_stage's table and inst_t::decode give the same text, but for opcode 0x37,
-- where the one writes lui and the other LUI.
pub inst_name-decode :
    (self : InstT) (w : ℕ)
    → w < 2 ^ 32
    → (inst_name w ≡ (if field w 0 7 == 0x37 then "lui" else (decode self w).str))
      × ((decode self w).str ≡ (if field w 0 7 == 0x37 then "LUI" else inst_name w))
inst_name-decode self w h =
    let named = inst_name-unless self w h in
    (
      named,
      elim (Bool-cases (field w 0 7 == 0x37)) [
        | inl t ↦ rw t (decode-lui self w t)
        | inr f ↦ rw (named, f) refl
      ],
    )
