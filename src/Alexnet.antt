-- ===== src/Alexnet.antt =====
-- test_progs/alexnet.c: the shift register random_gen, the fully connected layer, its generators and
-- fc_soft_max. An array of several dimensions is one list, row after row; `lfsr` is passed on.
pub mod Convolution
pub mod Main
pub mod Bounds
pub mod Volumes
pub mod Pooling
pub mod Safety
pub mod Maximum
pub mod Dense
pub mod Register
use Prim.Native.Nat.{bit_xor}
use oo_o_processor.Common.{
  ℕ, ◌+◌, ◌-◌, ◌*◌, ◌/◌, ◌%◌, ◌^◌, ℤ, pos, negsuc, ◌+ℤ◌, ◌-ℤ◌, ◌*ℤ◌, ltb, ltb_ℤ, ◌==◌, ◌&&◌, Run,
  ok, fault, ◌>>=◌, if◌then◌else◌, for_loop,
}
use oo_o_processor.Array.{Ints, load, store}

-- What an `int` register holds after a sum or a product: its low 32 bits, in two's complement. C leaves
-- an overflow undefined; this is what the processor computes.
unfoldable pub wrap_int : ℤ → ℤ
wrap_int (pos n) =
    if ltb (n % 2 ^ 32) (2 ^ 31) then pos (n % 2 ^ 32) else negsuc (2 ^ 32 - 1 - n % 2 ^ 32)
wrap_int (negsuc n) =
    if ltb (n % 2 ^ 32) (2 ^ 31) then negsuc (n % 2 ^ 32) else pos (2 ^ 32 - 1 - n % 2 ^ 32)

-- random_gen: the new lfsr, which is its result too.
unfoldable pub random_gen : ℕ → ℕ
random_gen lfsr = if lfsr % 2 == 1 then bit_xor (lfsr / 2) 46080 else lfsr / 2

-- (random_gen() & 15) - 5, from the new lfsr.
unfoldable pub sample : ℕ → ℤ
sample lfsr = pos (lfsr % 16) -ℤ pos 5

-- a[i] = (random_gen() & 15) - 5
unfoldable pub generate : ℕ → Ints × ℕ → Run (Ints × ℕ)
generate i (a, lfsr) = do a' ← store a i (sample (random_gen lfsr)); ok (a', random_gen lfsr)

unfoldable pub relu_af : ℤ → ℤ
relu_af in_af = if ltb_ℤ in_af (pos 0) then pos 0 else in_af

-- The cell [i][j] of an array of rows of five.
unfoldable pub at2 : ℕ → ℕ → Run ℕ
at2 i j = if ltb j 5 then ok (5 * i + j) else fault

-- outputs[i] = relu_af(outputs[i])
unfoldable pub rectify : ℕ → Ints → Run Ints
rectify i outputs = do o ← load outputs i; store outputs i (relu_af o)

-- switch (af_num), on the cell i.
unfoldable pub activate : ℕ → ℕ → Ints → Run Ints
activate af_num i outputs =
    if af_num == 0
    then rectify i outputs
    else (if af_num == 1 then rectify i outputs else ok outputs)

-- outputs[i] += weights[i][j] * inputs[j]
unfoldable pub fc_term : Ints → Ints → ℕ → ℕ → Ints → Run Ints
fc_term weights inputs i j outputs = do
  o ← load outputs i
  k ← at2 i j
  w ← load weights k
  x ← load inputs j
  store outputs i (wrap_int (o +ℤ wrap_int (w *ℤ x)))

-- A round of fc_layer.
unfoldable pub fc_output : Ints → Ints → Ints → ℕ → ℕ → ℕ → Ints → Run Ints
fc_output weights biasses inputs input_num af_num i outputs = do
  b ← load biasses i
  outputs' ← store outputs i b
  outputs'' ← for_loop input_num 0 (fc_term weights inputs i) outputs'
  activate af_num i outputs''

unfoldable pub fc_layer : Ints → Ints → Ints → Ints → ℕ → ℕ → ℕ → Run Ints
fc_layer weights biasses inputs outputs input_num output_num af_num =
    for_loop output_num 0 (fc_output weights biasses inputs input_num af_num) outputs

unfoldable pub fc_input_generator : Ints → ℕ → ℕ → Run (Ints × ℕ)
fc_input_generator inputs input_num lfsr = for_loop input_num 0 generate (inputs, lfsr)

-- A round of fc_weight_generator: the bias, then the row of weights.
unfoldable pub fc_weight_row : ℕ → ℕ → Ints × Ints × ℕ → Run (Ints × Ints × ℕ)
fc_weight_row input_num i (weights, biasses, lfsr) = do
  (biasses', lfsr') ← generate i (biasses, lfsr)
  (weights', lfsr'') ← for_loop input_num 0 (λ j s. do k ← at2 i j; generate k s) (weights, lfsr')
  ok (weights', biasses', lfsr'')

unfoldable pub fc_weight_generator : Ints → Ints → ℕ → ℕ → ℕ → Run (Ints × Ints × ℕ)
fc_weight_generator weights biasses input_num output_num lfsr =
    for_loop output_num 0 (fc_weight_row input_num) (weights, biasses, lfsr)

-- A round of fc_soft_max.
unfoldable pub fc_max_round : Ints → ℕ → ℕ → Run ℕ
fc_max_round features i max = do
  u ← load features max
  v ← load features i
  ok (if ltb_ℤ u v then i else max)

unfoldable pub fc_soft_max : Ints → ℕ → Run ℕ
fc_soft_max features feature_num = for_loop (feature_num - 1) 1 (fc_max_round features) 0
