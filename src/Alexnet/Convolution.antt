-- ===== src/Alexnet/Convolution.antt =====
-- test_progs/alexnet.c: the convolution layer, the pooling, their generators and cnn_to_fc.
use oo_o_processor.Common.{
  ℕ, ◌+◌, ◌-◌, ◌*◌, ◌/◌, ◌^◌, ℤ, pos, negsuc, ◌+ℤ◌, ◌-ℤ◌, ◌*ℤ◌, ltb, ltb_ℤ, leb_ℤ, ◌==◌, Bool, ◌&&◌,
  ◌||◌, Run, ok, fault, ◌>>=◌, if◌then◌else◌, for_loop,
}
use oo_o_processor.Array.{Ints, load, store}
use oo_o_processor.Alexnet.{wrap_int, generate, activate}

-- The cells [i][j][k] and [i][j][k][l], with five to a row.
unfoldable pub at3 : ℕ → ℕ → ℕ → Run ℕ
at3 i j k = if ltb j 5 && ltb k 5 then ok (25 * i + 5 * j + k) else fault

unfoldable pub at4 : ℕ → ℕ → ℕ → ℕ → Run ℕ
at4 i j k l = do row ← at3 i j k; if ltb l 5 then ok (5 * row + l) else fault

-- An `int` as an index.
unfoldable pub row_index : ℤ → Run ℕ
row_index (pos i) = ok i
row_index (negsuc n) = fault

-- ((input_size + 2 * zero_pad - kernel_size) >> stride) + 1, or 0 where that is negative or 0.
unfoldable pub output_size : ℕ → ℕ → ℕ → ℕ → ℕ
output_size input_size kernel_size stride zero_pad =
    if ltb (input_size + 2 * zero_pad) kernel_size
    then 0
    else (input_size + 2 * zero_pad - kernel_size) / 2 ^ stride + 1

-- An index r or c of cnn_layer lies on the zero padding.
unfoldable pub off_input : ℤ → ℕ → Bool
off_input i input_size = ltb_ℤ i (pos 0) || leb_ℤ (pos input_size) i

module _ (weights inputs : Ints) (input_size stride zero_pad o_ch o_r o_c : ℕ) where
  -- The product that is added for a cell of the kernel, and the addition.
  unfoldable pub cnn_product : ℕ → ℕ → ℕ → Run ℤ
  cnn_product i_ch k_r k_c =
      let r = pos (stride * o_r + k_r) -ℤ pos zero_pad in
      let c = pos (stride * o_c + k_c) -ℤ pos zero_pad in
      let product = do
        i ← row_index r
        j ← row_index c
        k ← at3 i_ch i j
        x ← load inputs k
        l ← at4 o_ch i_ch k_r k_c
        w ← load weights l
        ok (wrap_int (x *ℤ w))
      in if off_input r input_size || off_input c input_size then ok (pos 0) else product

  unfoldable pub cnn_term : ℕ → ℕ → ℕ → Ints → Run Ints
  cnn_term i_ch k_r k_c outputs = do
    k ← at3 o_ch o_r o_c
    o ← load outputs k
    p ← cnn_product i_ch k_r k_c
    store outputs k (wrap_int (o +ℤ p))

module _ (weights biasses inputs : Ints)
    (input_channel input_size kernel_size stride zero_pad af_num : ℕ) where
  -- The rounds of the three outer loops of cnn_layer.
  unfoldable pub cnn_output : ℕ → ℕ → ℕ → Ints → Run Ints
  cnn_output o_ch o_r o_c outputs = do
    b ← load biasses o_ch
    k ← at3 o_ch o_r o_c
    outputs' ← store outputs k b
    outputs'' ←
        for_loop input_channel 0
          (λ i_ch. for_loop kernel_size 0 λ k_r.
            for_loop kernel_size 0
              (cnn_term weights inputs input_size stride zero_pad o_ch o_r o_c i_ch k_r))
          outputs'
    activate af_num k outputs''

unfoldable pub cnn_layer : Ints → Ints → Ints → Ints → ℕ → ℕ → ℕ → ℕ → ℕ → ℕ → ℕ → Run Ints
cnn_layer weights biasses inputs outputs input_channel output_channel input_size kernel_size stride
      zero_pad af_num =
    let size = output_size input_size kernel_size stride zero_pad in
    for_loop output_channel 0
      (λ o_ch. for_loop size 0 λ o_r. for_loop size 0 (
        cnn_output weights biasses inputs input_channel input_size kernel_size stride zero_pad
          af_num o_ch o_r))
      outputs

module _ (inputs : Ints) (kernel_size stride pool_num ch o_r o_c : ℕ) where
  -- The first switch of cnn_pool; `k` is the cell of the output.
  unfoldable pub pool_start : ℕ → Ints → Run Ints
  pool_start k outputs =
      let first = do j ← at3 ch (stride * o_r) (stride * o_c); x ← load inputs j; store outputs k x
      in if pool_num == 0
        then first
        else (if pool_num == 1 then store outputs k (pos 0) else ok outputs)

  -- The switch on a candidate.
  unfoldable pub pool_candidate : ℕ → ℕ → ℕ → Ints → Run Ints
  pool_candidate k k_r k_c outputs =
      let greatest : ℤ → Run Ints =
        λ x. (do o ← load outputs k; store outputs k (if ltb_ℤ o x then x else o)) in
      let sum : ℤ → Run Ints = λ x. (do o ← load outputs k; store outputs k (wrap_int (o +ℤ x))) in
      do
        j ← at3 ch (stride * o_r + k_r) (stride * o_c + k_c)
        x ← load inputs j
        (if pool_num == 0 then greatest x else (if pool_num == 1 then sum x else ok outputs))

  -- The last switch.
  unfoldable pub pool_end : ℕ → Ints → Run Ints
  pool_end k outputs =
      let less = do
        o ← load outputs k
        store outputs k (wrap_int (o -ℤ wrap_int (pos (kernel_size * kernel_size))))
      in if pool_num == 1 then less else ok outputs

  -- The rounds of the three outer loops.
  unfoldable pub pool_output : Ints → Run Ints
  pool_output outputs = do
    k ← at3 ch o_r o_c
    outputs' ← pool_start k outputs
    outputs'' ←
        for_loop kernel_size 0 (λ k_r. for_loop kernel_size 0 (pool_candidate k k_r)) outputs'
    pool_end k outputs''

unfoldable pub cnn_pool : Ints → Ints → ℕ → ℕ → ℕ → ℕ → ℕ → ℕ → Run Ints
cnn_pool inputs outputs feature_channel input_size kernel_size stride zero_pad pool_num =
    let size = output_size input_size kernel_size stride zero_pad in
    for_loop feature_channel 0
      (λ ch.
        for_loop size 0
          λ o_r. for_loop size 0 (λ o_c. pool_output inputs kernel_size stride pool_num ch o_r o_c))
      outputs

unfoldable pub cnn_input_generator : Ints → ℕ → ℕ → ℕ → Run (Ints × ℕ)
cnn_input_generator inputs input_channel input_size lfsr =
    for_loop input_channel 0
      (λ i_ch.
        for_loop input_size 0
          λ i_r. for_loop input_size 0 λ i_c s. (do k ← at3 i_ch i_r i_c; generate k s))
      (inputs, lfsr)

-- A round of the outer loop of cnn_weight_generator: the bias, then the kernels.
unfoldable pub cnn_weight_round : ℕ → ℕ → ℕ → Ints × Ints × ℕ → Run (Ints × Ints × ℕ)
cnn_weight_round input_channel kernel_size o_ch (weights, biasses, lfsr) = do
  (biasses', lfsr') ← generate o_ch (biasses, lfsr)
  (weights', lfsr'') ←
      for_loop input_channel 0
        (λ i_ch.
          for_loop kernel_size 0
            λ k_r. for_loop kernel_size 0 λ k_c s. (do k ← at4 o_ch i_ch k_r k_c; generate k s))
        (weights, lfsr')
  ok (weights', biasses', lfsr'')

unfoldable pub cnn_weight_generator : Ints → Ints → ℕ → ℕ → ℕ → ℕ → Run (Ints × Ints × ℕ)
cnn_weight_generator weights biasses input_channel output_channel kernel_size lfsr =
    for_loop output_channel 0 (cnn_weight_round input_channel kernel_size) (weights, biasses, lfsr)

unfoldable pub cnn_to_fc : Ints → ℕ → ℕ → Ints → Run Ints
cnn_to_fc cnn_feature cnn_feature_channel size fc_feature =
    for_loop cnn_feature_channel 0
      (λ ch. for_loop size 0 λ r. for_loop size 0 λ c a. (do
        k ← at3 ch r c
        x ← load cnn_feature k
        store a (ch * size * size + r * size + c) x))
      fc_feature
