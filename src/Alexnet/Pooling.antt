-- ===== src/Alexnet/Pooling.antt =====
-- The sizes that the pooling and cnn_to_fc in alexnet.c keep.
use oo_o_processor.Common.{
  ℕ, ◌+◌, ◌*◌, ◌≤◌, ◌<◌, ◌≡◌, arith, pos, ◌==◌, for_loop-keeps, length, returns, Returns-bind,
  Returns-if,
}
use oo_o_processor.Array.{Ints}
use oo_o_processor.Alexnet.Convolution.{
  output_size, pool_start, pool_candidate, pool_end, pool_output, cnn_pool, cnn_to_fc,
}
use oo_o_processor.Alexnet.Volumes.{at3-lt, for_cube}
use oo_o_processor.Alexnet.Bounds.{load-Returns, store-Returns, Keeps}

module _ (inputs : Ints) (x : length inputs ≡ 125) (kernel_size stride pool_num : ℕ) where
  -- The window of each output cell lies in the input.
  abbrev pub Fits : ℕ → Type 0
  Fits size = (o k : ℕ) → o < size → k < kernel_size → stride * o + k < 5

  module _ (ch o_r o_c k : ℕ) (in_ch : ch < 5) (below : k < 125) where
    pool_start-Keeps :
        stride * o_r < 5
        → stride * o_c < 5
        → Keeps 125 (pool_start inputs kernel_size stride pool_num ch o_r o_c k)
    unfolding pool_start
    pool_start-Keeps h h' a size =
        Returns-if (pool_num == 0)
          (λ _.
            Returns-bind (at3-lt ch (stride * o_r) (stride * o_c) in_ch h h') λ j lt.
              Returns-bind (load-Returns inputs j x lt) λ u _. store-Returns a k u size below)
          λ _.
            Returns-if (pool_num == 1) (λ _. store-Returns a k (pos 0) size below) λ _. returns size

    pool_candidate-Keeps :
        (k_r k_c : ℕ)
        → stride * o_r + k_r < 5
        → stride * o_c + k_c < 5
        → Keeps 125 (pool_candidate inputs kernel_size stride pool_num ch o_r o_c k k_r k_c)
    unfolding pool_candidate
    pool_candidate-Keeps k_r k_c h h' a size =
        Returns-bind (at3-lt ch (stride * o_r + k_r) (stride * o_c + k_c) in_ch h h') λ j lt.
          Returns-bind (load-Returns inputs j x lt) λ u _.
            Returns-if (pool_num == 0)
              (λ _.
                Returns-bind (load-Returns a k size below) λ o _. store-Returns a k _ size below)
              λ _.
                Returns-if (pool_num == 1)
                  (λ _.
                    Returns-bind (load-Returns a k size below)
                      λ o _. store-Returns a k _ size below)
                  λ _. returns size

    pool_end-Keeps : Keeps 125 (pool_end inputs kernel_size stride pool_num ch o_r o_c k)
    unfolding pool_end
    pool_end-Keeps a size =
        Returns-if (pool_num == 1)
          (λ _. Returns-bind (load-Returns a k size below) λ o _. store-Returns a k _ size below)
          λ _. returns size

  pub cnn_pool-Keeps :
      (feature_channel input_size zero_pad : ℕ)
      → feature_channel ≤ 5
      → output_size input_size kernel_size stride zero_pad ≤ 5
      → 0 < kernel_size
      → Fits (output_size input_size kernel_size stride zero_pad)
      → Keeps 125
          (λ a. cnn_pool inputs a feature_channel input_size kernel_size stride zero_pad pool_num)
  unfolding cnn_pool pool_output
  cnn_pool-Keeps feature_channel input_size zero_pad ch os some fits =
      for_cube _ _ feature_channel (output_size input_size kernel_size stride zero_pad)
        λ i o_r o_c a h h' h'' size.
          let in_ch : i < 5 = omega arith in
          Returns-bind (at3-lt i o_r o_c in_ch (omega arith) (omega arith)) λ k below.
            Returns-bind
              (pool_start-Keeps i o_r o_c k in_ch below (omega (arith, fits o_r 0 h' some))
                (omega (arith, fits o_c 0 h'' some)) a size)
              λ a' size'.
                Returns-bind
                  (for_loop-keeps _ _ kernel_size
                    (λ k_r s l.
                      for_loop-keeps _ _ kernel_size
                        (λ k_c s l'.
                          pool_candidate-Keeps i o_r o_c k in_ch below k_r k_c (fits o_r k_r h' l)
                            (fits o_c k_c h'' l') s)
                        s)
                    a' size')
                  (pool_end-Keeps i o_r o_c k in_ch below)

-- For features of size one, as main has them.
pub cnn_to_fc-Keeps :
    (features : Ints) (m : ℕ) → length features ≡ 125 → m ≤ 5 → Keeps 5 (cnn_to_fc features m 1)
unfolding cnn_to_fc
cnn_to_fc-Keeps features m x h = for_cube _ _ m 1 λ i j k a l l' l'' size.
    Returns-bind (at3-lt i j k (omega arith) (omega arith) (omega arith)) λ c below.
      Returns-bind (load-Returns features c x below)
        λ u _. store-Returns a (i * 1 * 1 + j * 1 + k) u size (omega arith)
