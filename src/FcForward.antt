-- ===== src/FcForward.antt =====
-- test_progs/fc_forward.c: kernel and main. A sum or a product that leaves an `int` is a fault.
pub mod Dot
use oo_o_processor.Common.{
  ℕ, ◌+◌, ◌-◌, ◌*◌, ◌%◌, ◌^◌, ℤ, pos, negsuc, ◌+ℤ◌, ◌*ℤ◌, ltb_ℤ, leb_ℤ, Bool, ◌&&◌, Run, ok, fault,
  ◌>>=◌, if◌then◌else◌, for_loop, replicate,
}
use oo_o_processor.Array.{Ints, load, store}

-- The value of an operation on `int`.
unfoldable pub is_int : ℤ → Bool
is_int v = leb_ℤ (negsuc (2 ^ 31 - 1)) v && ltb_ℤ v (pos (2 ^ 31))

unfoldable pub to_int : ℤ → Run ℤ
to_int v = if is_int v then ok v else fault

-- A round of kernel: the array result, and dot.
unfoldable pub kernel_round : Ints → Ints → ℕ → Ints × ℤ → Run (Ints × ℤ)
kernel_round vec_a vec_b i (result, dot) = do
  x ← load vec_a i
  y ← load vec_b i
  p ← to_int (x *ℤ y)
  result' ← store result i p
  r ← load result' i
  dot' ← to_int (dot +ℤ r)
  ok (result', dot')

-- The array result, and *out.
unfoldable pub kernel : ℕ → Ints → Ints → Ints → ℤ → Run (Ints × ℤ)
kernel n vec_a vec_b result b = do
  (result', dot) ← for_loop n 0 (kernel_round vec_a vec_b) (result, pos 0)
  out ← to_int (dot +ℤ b)
  ok (result', out)

-- The arrays of main; `rand` gives the results of the calls of rand() in their order.
unfoldable pub init_round : (ℕ → ℕ) → ℕ → Ints × Ints × Ints → Run (Ints × Ints × Ints)
init_round rand i (x, w, inner) = do
  x' ← store x i (pos (rand (2 * i) % 2 ^ 16))
  w' ← store w i (pos (rand (2 * i + 1) % 2 ^ 16))
  inner' ← store inner i (pos 0)
  ok (x', w', inner')

unfoldable pub main : (ℕ → ℕ) → Ints → Ints → Ints → Run (Ints × ℤ)
main rand x w inner = do
  (x', w', inner') ← for_loop 4 0 (init_round rand) (x, w, inner)
  kernel 4 x' w' inner' (pos (rand 8))
