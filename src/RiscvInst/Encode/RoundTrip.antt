-- ===== src/RiscvInst/Encode/RoundTrip.antt =====
-- encode undoes decode, but for the sign of a store's offset.
use oo_o_processor.Common.{
  ℕ, ◌%◌, ◌^◌, ◌<◌, ◌≡◌, ◌≢◌, ◌∙◌, Bool, ap, refl, true, false, ◌==◌, if◌then◌else◌, Bool-cases,
  inl, inr, if_both, arith,
}
use oo_o_processor.Words.{field}
use oo_o_processor.RiscvInst.{
  invalid, r_type, i_type, s_type, p_type, r_imm, i_imm, s_imm, b_imm, InstT,
}
use oo_o_processor.RiscvInst.Decode.{
  named, formatted, split_word, analyze, decode_branch, decode_load, decode_store, decode_immediate,
  decode_arithmetic, decode_system, decode_opcode, decode,
}
use oo_o_processor.RiscvInst.Encode.{encode}
use oo_o_processor.RiscvInst.Encode.Names.{
  decode_branch-Names, decode_load-Names, decode_load-shift, decode_store-Names, decode_key-Names,
  decode_system-Names, decode_immediate-Names, decode_immediate-shift,
}
use oo_o_processor.RiscvInst.Encode.Shapes.{
  is_shamt, encode-r, encode-p, encode-u, encode-j, encode-b, encode-s, encode-i, encode-shift,
}

plain : (w c : ℕ) → (field w 0 7 == c) ≡ true → c ≢ 0x13 → is_shamt w ≡ false
plain w c t ne = ground arith

module _ (self : InstT) (w : ℕ) (h : w < 2 ^ 32) where
  word_branch : encode (analyze (decode_branch (formatted (split_word self w) s_type b_imm))) ≡ w
  unfolding split_word
  word_branch =
      let s = formatted (split_word self w) s_type b_imm in
      ap (λ x. encode (analyze x)) (decode_branch-Names s) ∙ encode-b self w _ _ h

  word_arithmetic :
      encode (analyze (decode_arithmetic (formatted (split_word self w) r_type r_imm))) ≡ w
  unfolding split_word decode_arithmetic
  word_arithmetic =
      let s = formatted (split_word self w) r_type r_imm in
      ap (λ x. encode (analyze x)) (decode_key-Names _ s) ∙ encode-r self w _ _ h

  word_system : encode (analyze (decode_system (formatted (split_word self w) p_type r_imm))) ≡ w
  unfolding split_word
  word_system =
      let s = formatted (split_word self w) p_type r_imm in
      ap (λ x. encode (analyze x)) (decode_system-Names s) ∙ encode-p self w _ _ h

  word_store :
      encode (analyze (decode_store (formatted (split_word self w) s_type s_imm))) ≡ w % 2 ^ 31
  unfolding split_word
  word_store =
      let s = formatted (split_word self w) s_type s_imm in
      ap (λ x. encode (analyze x)) (decode_store-Names s) ∙ encode-s self w _ _ h

  word_load :
      field w 0 7 ≡ 0x03
      → encode (analyze (decode_load (formatted (split_word self w) i_type i_imm))) ≡ w
  unfolding split_word
  word_load e =
      let s = formatted (split_word self w) i_type i_imm in
      let n : is_shamt w ≡ false = rw e refl in
      ap (λ x. encode (analyze x)) (decode_load-Names s)
      ∙ encode-i self w _ _ h n (decode_load-shift s)

  word_immediate :
      field w 0 7 ≡ 0x13
      → (decode_immediate (formatted (split_word self w) i_type i_imm)).op ≢ invalid
      → encode (analyze (decode_immediate (formatted (split_word self w) i_type i_imm))) ≡ w
  unfolding split_word
  word_immediate e v =
      let s = formatted (split_word self w) i_type i_imm in
      let shift = decode_immediate-shift s v refl in
      ap (λ x. encode (analyze x)) (decode_immediate-Names s) ∙ (elim (Bool-cases (is_shamt w)) [
        | inl t ↦ encode-shift self w _ _ h t (shift ∙ ground arith)
        | inr f ↦ encode-i self w _ _ h f (shift ∙ ground arith)
      ])

  -- What the round trip states of a decoded instruction.
  record Back (x : InstT) : Type 0 where
    encoded : x.op ≢ invalid → encode (analyze x) ≡ (if field w 0 7 == 0x23 then w % 2 ^ 31 else w)

  Back-same :
      (x : InstT) (c : ℕ) (t : (field w 0 7 == c) ≡ true)
      → c ≢ 0x23
      → (x.op ≢ invalid → encode (analyze x) ≡ w)
      → Back x
  Back-same x c t ne e = record { encoded = λ v. e v ∙ ground arith }

  Back-store : (x : InstT) → (field w 0 7 == 0x23) ≡ true → encode (analyze x) ≡ w % 2 ^ 31 → Back x
  Back-store x t e = record { encoded = λ v. rw t e }

  Back-invalid : (x : InstT) → x.op ≡ invalid → Back x
  Back-invalid x e = record { encoded = λ v. absurd (v e) }

  -- One case of the switch, with its opcode at hand, and the cases after it.
  infixr 5 ◌otherwise◌
  ◌otherwise◌ : {b : Bool} {x y : InstT} → (b ≡ true → Back x) → Back y → Back (if b then x else y)
  case otherwise rest = if_both Back _ case λ _. rest

  opcode_Back : Back (decode_opcode (split_word self w))
  unfolding decode_opcode split_word
  opcode_Back =
      (λ t. Back-same _ 0x37 t (omega arith) λ v. encode-u self w _ _ h)
      otherwise (λ t. Back-same _ 0x17 t (omega arith) λ v. encode-u self w _ _ h)
      otherwise (λ t. Back-same _ 0x6f t (omega arith) λ v. encode-j self w _ _ h)
      otherwise (λ t.
          Back-same _ 0x67 t (omega arith)
            λ v. encode-i self w _ _ h (plain w 0x67 t (omega arith)) refl)
      otherwise (λ t. Back-same _ 0x63 t (omega arith) λ v. word_branch)
      otherwise (λ t. Back-same _ 0x03 t (omega arith) λ v. word_load (ground arith))
      otherwise (λ t. Back-store _ t word_store)
      otherwise (λ t. Back-same _ 0x13 t (omega arith) λ v. word_immediate (ground arith) v)
      otherwise (λ t. Back-same _ 0x33 t (omega arith) λ v. word_arithmetic)
      otherwise (λ t. Back-invalid (named (split_word self w) "fence" invalid) refl)
      otherwise (λ t. Back-same _ 0x73 t (omega arith) λ v. word_system)
      otherwise Back-invalid (named (split_word self w) "invalid" invalid) refl

  -- For a 32-bit word in which decode finds an operation, encode gives the word back, but for a
  -- store (opcode 0x23): there it gives the word with bit 31, the sign of the offset, cleared.
  pub encode-decode :
      (decode self w).op ≢ invalid
      → encode (decode self w) ≡ (if field w 0 7 == 0x23 then w % 2 ^ 31 else w)
  unfolding decode analyze
  encode-decode = opcode_Back.encoded
