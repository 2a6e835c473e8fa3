-- ===== src/RiscvInst/Encode/Selects.antt =====
-- The table of select, which assembles an instruction, against the switches of decode.
use Prim.Native.String.{String}
use oo_o_processor.Common.{
  ap, sym, ℕ, ◌+◌, ◌*◌, ◌<◌, ◌^◌, ◌≡◌, ◌≢◌, ◌∙◌, refl, ◌==◌, if◌then◌else◌, if_both, arith,
}
use oo_o_processor.Words.{key_sum}
use oo_o_processor.RiscvInst.{
  OpT, addi, slti, sltiu, xori, ori, andi, InstT, lui, auipc, jal, jalr, invalid, r_type, i_type,
  s_type, u_type, p_type, r_imm, i_imm, s_imm, b_imm, u_imm, j_imm,
}
use oo_o_processor.RiscvInst.Decode.{
  named, formatted, split_word, analyze, decode_branch, decode_load, decode_store, decode_immediate,
  decode_shift_left, decode_shift_right, decode_arithmetic, decode_key, decode_multiply,
  decode_system, decode_environment, decode_opcode, decode,
}
use oo_o_processor.RiscvInst.Encode.{SelectT, select}

-- What select gives for the operation is what decode has set.
pub record Selects (sel : SelectT) (x : InstT) : Type 0 where
  pub opcode : x.op ≢ invalid → (select sel x.op).opcode ≡ x.opcode
  pub riscv : x.op ≢ invalid → (select sel x.op).riscv ≡ x.riscv
  pub funct3 :
      x.op ≢ invalid → x.riscv ≢ u_type → x.opcode ≢ 0x67 → (select sel x.op).funct3 ≡ x.funct3
  pub funct7 : x.op ≢ invalid → x.riscv ≡ r_type → (select sel x.op).funct7 ≡ x.funct7
  pub imm : x.op ≢ invalid → (select sel x.op).imm ≡ (if x.opcode == 0x6f then u_imm else x.imm)

module _ (sel : SelectT) (s : InstT) where
  branch-Selects : s.opcode ≡ 0x63 → Selects sel (decode_branch (formatted s s_type b_imm))
  unfolding decode_branch select
  branch-Selects e = record {
    opcode = ground arith;
    riscv = ground arith;
    imm = ground arith;
    funct3 = ground arith;
    funct7 = ground arith;
  }

  load-Selects : s.opcode ≡ 0x03 → Selects sel (decode_load (formatted s i_type i_imm))
  unfolding decode_load select
  load-Selects e = record {
    opcode = ground arith;
    riscv = ground arith;
    imm = ground arith;
    funct3 = ground arith;
    funct7 = ground arith;
  }

  store-Selects : s.opcode ≡ 0x23 → Selects sel (decode_store (formatted s s_type s_imm))
  unfolding decode_store select
  store-Selects e = record {
    opcode = ground arith;
    riscv = ground arith;
    imm = ground arith;
    funct3 = ground arith;
    funct7 = ground arith;
  }

  system-Selects : s.opcode ≡ 0x73 → Selects sel (decode_system (formatted s p_type r_imm))
  unfolding decode_system decode_environment select
  system-Selects e = record {
    opcode = ground arith;
    riscv = ground arith;
    imm = ground arith;
    funct3 = ground arith;
    funct7 = ground arith;
  }

  shift_left-Selects :
      s.funct3 ≡ 0b001
      → s.opcode ≡ 0x13
      → Selects sel (decode_shift_left (formatted s i_type i_imm))
  unfolding decode_shift_left select
  shift_left-Selects f e = record {
    opcode = ground arith;
    riscv = ground arith;
    imm = ground arith;
    funct3 = ground arith;
    funct7 = ground arith;
  }

  shift_right-Selects :
      s.funct3 ≡ 0b101
      → s.opcode ≡ 0x13
      → Selects sel (decode_shift_right (formatted s i_type i_imm))
  unfolding decode_shift_right select
  shift_right-Selects f e = record {
    opcode = ground arith;
    riscv = ground arith;
    imm = ground arith;
    funct3 = ground arith;
    funct7 = ground arith;
  }

  multiply-Selects :
      (k : ℕ)
      → s.opcode ≡ 0x33
      → k ≡ s.funct7 * 2 ^ 4 + s.funct3
      → s.funct3 < 8
      → Selects sel (decode_multiply k (formatted s r_type r_imm))
  unfolding decode_multiply select
  multiply-Selects k e sum small = record {
    opcode = ground arith;
    riscv = ground arith;
    imm = ground arith;
    funct3 = ground arith;
    funct7 = ground arith;
  }

  key-Selects :
      (k : ℕ)
      → s.opcode ≡ 0x33
      → k ≡ s.funct7 * 2 ^ 4 + s.funct3
      → s.funct3 < 8
      → Selects sel (decode_key k (formatted s r_type r_imm))
  unfolding decode_key select
  key-Selects k e sum small =
      let m = multiply-Selects k e sum small in
      record {
        opcode = ground (arith, m.opcode);
        riscv = ground (arith, m.riscv);
        imm = ground (arith, m.imm);
        funct3 = ground (arith, m.funct3);
        funct7 = ground (arith, m.funct7);
      }

  none-Selects : (x : InstT) → x.op ≡ invalid → Selects sel x
  none-Selects x e = record {
    opcode = λ v. absurd (v e);
    riscv = λ v. absurd (v e);
    imm = λ v. absurd (v e);
    funct3 = λ v. absurd (v e);
    funct7 = λ v. absurd (v e);
  }

  -- An immediate operation that select gives the format I, its opcode and its funct3.
  constant-Selects :
      (text : String) (o : OpT) (f3 : ℕ)
      → select sel o ≡ record sel { funct3 = f3; opcode = 0x13; imm = i_imm; riscv = i_type }
      → s.opcode ≡ 0x13
      → s.funct3 ≡ f3
      → Selects sel (named (formatted s i_type i_imm) text o)
  constant-Selects text o f3 q e f = record {
    opcode = λ v. ap (λ x. x.opcode) q ∙ sym e;
    riscv = λ v. ap (λ x. x.riscv) q;
    imm = λ v. rw e (ap (λ x. x.imm) q);
    funct3 = λ v _ _. ap (λ x. x.funct3) q ∙ sym f;
    funct7 = λ v r. absurd (ground (arith, r));
  }

  -- One case of the switch over funct3, and the cases after it.
  infix 1 funct3_is◌take◌otherwise◌
  funct3_is◌take◌otherwise◌ :
      (c : ℕ) {x y : InstT}
      → (s.funct3 ≡ c → Selects sel x)
      → Selects sel y
      → Selects sel (if s.funct3 == c then x else y)
  funct3_is c take case otherwise rest =
      if_both (Selects sel) (s.funct3 == c) (λ t. case (ground arith)) λ _. rest

  immediate-Selects :
      s.op ≡ invalid → s.opcode ≡ 0x13 → Selects sel (decode_immediate (formatted s i_type i_imm))
  unfolding decode_immediate select
  immediate-Selects n e =
      funct3_is 0b000
      take constant-Selects _ addi 0b000 refl e
      otherwise funct3_is 0b010
      take constant-Selects _ slti 0b010 refl e
      otherwise funct3_is 0b011
      take constant-Selects _ sltiu 0b011 refl e
      otherwise funct3_is 0b100
      take constant-Selects _ xori 0b100 refl e
      otherwise funct3_is 0b110
      take constant-Selects _ ori 0b110 refl e
      otherwise funct3_is 0b111
      take constant-Selects _ andi 0b111 refl e
      otherwise funct3_is 0b001
      take (λ f. shift_left-Selects f e)
      otherwise funct3_is 0b101
      take (λ f. shift_right-Selects f e)
      otherwise none-Selects (formatted s i_type i_imm) n

  lui-Selects : s.opcode ≡ 0x37 → Selects sel (named (formatted s u_type u_imm) "LUI" lui)
  unfolding select
  lui-Selects e = record {
    opcode = ground arith;
    riscv = ground arith;
    imm = ground arith;
    funct3 = ground arith;
    funct7 = ground arith;
  }

  auipc-Selects : s.opcode ≡ 0x17 → Selects sel (named (formatted s u_type u_imm) "auipc" auipc)
  unfolding select
  auipc-Selects e = record {
    opcode = ground arith;
    riscv = ground arith;
    imm = ground arith;
    funct3 = ground arith;
    funct7 = ground arith;
  }

  jal-Selects : s.opcode ≡ 0x6f → Selects sel (named (formatted s u_type j_imm) "jal" jal)
  unfolding select
  jal-Selects e = record {
    opcode = ground arith;
    riscv = ground arith;
    imm = ground arith;
    funct3 = ground arith;
    funct7 = ground arith;
  }

  jalr-Selects : s.opcode ≡ 0x67 → Selects sel (named (formatted s i_type i_imm) "jalr" jalr)
  unfolding select
  jalr-Selects e = record {
    opcode = ground arith;
    riscv = ground arith;
    imm = ground arith;
    funct3 = ground arith;
    funct7 = ground arith;
  }

  -- One case of the switch, with its opcode, and the cases after it.
  infix 1 on◌take◌otherwise◌
  on◌take◌otherwise◌ :
      (c : ℕ) {x y : InstT}
      → (s.opcode ≡ c → Selects sel x)
      → Selects sel y
      → Selects sel (if s.opcode == c then x else y)
  on c take case otherwise rest =
      if_both (Selects sel) (s.opcode == c) (λ t. case (ground arith)) λ _. rest

  opcode-Selects : s.op ≡ invalid → s.funct3 < 8 → s.funct7 < 2 ^ 7 → Selects sel (decode_opcode s)
  unfolding decode_opcode decode_arithmetic
  opcode-Selects n small seven =
      on 0x37
      take lui-Selects
      otherwise on 0x17
      take auipc-Selects
      otherwise on 0x6f
      take jal-Selects
      otherwise on 0x67
      take jalr-Selects
      otherwise on 0x63
      take branch-Selects
      otherwise on 0x03
      take load-Selects
      otherwise on 0x23
      take store-Selects
      otherwise on 0x13
      take immediate-Selects n
      otherwise on 0x33
      take (λ e. key-Selects _ e (key_sum s.funct7 s.funct3 small ∙ omega arith) small)
      otherwise on 0x0f
      take (λ e. none-Selects (named s "fence" invalid) refl)
      otherwise on 0x73
      take system-Selects
      otherwise none-Selects (named s "invalid" invalid) refl

module _ (sel : SelectT) (self : InstT) (w : ℕ) (h : w < 2 ^ 32) where
  decode-Selects : Selects sel (decode_opcode (split_word self w))
  unfolding split_word
  decode-Selects = opcode-Selects sel (split_word self w) refl (omega arith) (omega arith)

  -- For a register operation, select also gives the word's funct3 and funct7.
  pub select-functs :
      (decode self w).op ≢ invalid
      → (decode self w).riscv ≡ r_type
      → (decode self w).opcode ≢ 0x67
      → ((select sel (decode self w).op).funct3 ≡ (decode self w).funct3)
        × ((select sel (decode self w).op).funct7 ≡ (decode self w).funct7)
  unfolding decode analyze
  select-functs v r n = let s = decode-Selects in (s.funct3 v (ground (arith, r)) n, s.funct7 v r)
