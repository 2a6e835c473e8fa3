-- ===== src/Alexnet/Main.antt =====
-- main of test_progs/alexnet.c: a layer, its pooling and a fully connected layer, three times.
use oo_o_processor.Common.{ℕ, Run, ok, ◌>>=◌, for_loop}
use oo_o_processor.Array.{Ints}
use oo_o_processor.Alexnet.{fc_input_generator, fc_weight_generator, fc_layer}
use oo_o_processor.Alexnet.Convolution.{
  cnn_input_generator, cnn_weight_generator, cnn_layer, cnn_pool, cnn_to_fc,
}

-- The arrays of main and lfsr.
pub record Network : Type 0 where
  pub fc_weights : Ints
  pub fc_biasses : Ints
  pub fc_inputs : Ints
  pub fc_outputs : Ints
  pub cnn_weights : Ints
  pub cnn_biasses : Ints
  pub cnn_inputs : Ints
  pub cnn_outputs : Ints
  pub lfsr : ℕ

-- A round of main.
unfoldable pub main_round : ℕ → Network → Run Network
main_round itr s = do
  (inputs, lfsr) ← cnn_input_generator s.cnn_inputs 5 5 s.lfsr
  (weights, biasses, lfsr') ← cnn_weight_generator s.cnn_weights s.cnn_biasses 5 5 2 lfsr
  outputs ← cnn_layer weights biasses inputs s.cnn_outputs 5 5 5 2 1 0 2
  inputs' ← cnn_pool outputs inputs 5 4 2 2 0 0
  fc_inputs ← cnn_to_fc inputs' 5 1 s.fc_inputs
  (fc_inputs', lfsr'') ← fc_input_generator fc_inputs 5 lfsr'
  (fc_weights, fc_biasses, lfsr''') ← fc_weight_generator s.fc_weights s.fc_biasses 5 5 lfsr''
  fc_outputs ← fc_layer fc_weights fc_biasses fc_inputs' s.fc_outputs 5 5 0
  ok (record {
    fc_weights = fc_weights;
    fc_biasses = fc_biasses;
    fc_inputs = fc_inputs';
    fc_outputs = fc_outputs;
    cnn_weights = weights;
    cnn_biasses = biasses;
    cnn_inputs = inputs';
    cnn_outputs = outputs;
    lfsr = lfsr''';
  })

unfoldable pub main : Network → Run Network
main s = for_loop 3 0 main_round s
