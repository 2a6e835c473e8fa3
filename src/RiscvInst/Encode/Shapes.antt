-- ===== src/RiscvInst/Encode/Shapes.antt =====
-- What encode makes of a decoded word, for each pair of a format and an immediate.
use Prim.Native.String.{String}
use oo_o_processor.Common.{
  ℕ, ◌+◌, ◌-◌, ◌*◌, ◌%◌, ◌^◌, ◌<◌, ◌≡◌, Bool, true, false, ◌&&◌, ◌||◌, ◌==◌, arith,
}
use oo_o_processor.Words.{field}
use oo_o_processor.RiscvInst.{
  OpT, RiscvT, r_type, i_type, s_type, u_type, p_type, ImmT, r_imm, i_imm, s_imm, b_imm, u_imm,
  j_imm, InstT,
}
use oo_o_processor.RiscvInst.Decode.{split_word, analyze, immediate}
use oo_o_processor.RiscvInst.Encode.{
  is_shift, encode, encode_r, encode_i, encode_s, encode_u, encode_p,
}
use oo_o_processor.RiscvInst.Encode.Fields.{
  r_fields, p_fields, s_fields, b_fields, u_fields, j_fields, i_fields,
}
use oo_o_processor.RiscvInst.Encode.Immediates.{i_value, s_value, b_value, j_value}

-- A word taken apart, with the name and the format that the switches of decode gave it.
abbrev pub shaped : InstT → ℕ → RiscvT → ImmT → String → OpT → InstT
shaped self w r i t o = record (split_word self w) { riscv = r; imm = i; str = t; op = o }

-- The test of analyze for a shift by a constant.
abbrev pub is_shamt : ℕ → Bool
is_shamt w = (field w 0 7 == 0x13) && ((field w 12 3 == 0b001) || (field w 12 3 == 0b101))

module _ (self : InstT) (w : ℕ) (t : String) (o : OpT) (h : w < 2 ^ 32) where
  pub encode-r : encode (analyze (shaped self w r_type r_imm t o)) ≡ w
  unfolding encode encode_r analyze split_word
  encode-r = r_fields w h

  pub encode-p : encode (analyze (shaped self w p_type r_imm t o)) ≡ w
  unfolding encode encode_p analyze split_word
  encode-p = p_fields w h

  pub encode-u : encode (analyze (shaped self w u_type u_imm t o)) ≡ w
  unfolding encode encode_u analyze split_word immediate
  encode-u = let e : field (field w 12 20) 0 20 ≡ field w 12 20 = omega arith in rw e (u_fields w h)

  pub encode-j : encode (analyze (shaped self w u_type j_imm t o)) ≡ w
  unfolding encode encode_u analyze split_word immediate
  encode-j =
      let v =
        2 * (field w 21 10 + field w 20 1 * 2 ^ 10 + field w 12 8 * 2 ^ 11)
        + field w 31 1 * (2 ^ 32 - 2 ^ 20) in
      let e12 : field v 12 8 ≡ field w 12 8 = omega arith in
      let e11 : field v 11 1 ≡ field w 20 1 = omega arith in
      let e1 : field v 1 10 ≡ field w 21 10 = omega arith in
      let e20 : field v 20 1 ≡ field w 31 1 = omega arith in
      rw (j_value w, e12, e11, e1, e20) (j_fields w h)

  pub encode-b : encode (analyze (shaped self w s_type b_imm t o)) ≡ w
  unfolding encode encode_s analyze split_word immediate
  encode-b =
      let v =
        2 * (field w 8 4 + field w 25 6 * 2 ^ 4 + field w 7 1 * 2 ^ 10)
        + field w 31 1 * (2 ^ 32 - 2 ^ 12) in
      let e11 : field v 11 1 ≡ field w 7 1 = omega arith in
      let e1 : field v 1 4 ≡ field w 8 4 = omega arith in
      let e5 : field v 5 6 ≡ field w 25 6 = omega arith in
      let e12 : field v 12 1 ≡ field w 31 1 = omega arith in
      rw (b_value w, e11, e1, e5, e12) (b_fields w h)

  pub encode-s : encode (analyze (shaped self w s_type s_imm t o)) ≡ w % 2 ^ 31
  unfolding encode encode_s analyze split_word immediate
  encode-s =
      let v = field w 7 5 + field w 25 6 * 2 ^ 5 + field w 31 1 * (2 ^ 32 - 2 ^ 11) in
      let e0 : v % 2 ^ 5 ≡ field w 7 5 = omega arith in
      let e5 : field v 5 6 ≡ field w 25 6 = omega arith in rw (s_value w, e0, e5) (s_fields w)

  pub encode-i :
      is_shamt w ≡ false
      → is_shift o ≡ false
      → encode (analyze (shaped self w i_type i_imm t o)) ≡ w
  unfolding encode encode_i analyze split_word immediate
  encode-i n m = rw (n, m, i_value w) (i_fields w h)

  pub encode-shift :
      is_shamt w ≡ true → is_shift o ≡ true → encode (analyze (shaped self w i_type i_imm t o)) ≡ w
  unfolding encode encode_i analyze split_word immediate
  encode-shift n m =
      let e : field w 20 5 % 2 ^ 5 ≡ field w 20 5 = omega arith in rw (n, m, e) (r_fields w h)
