-- ===== src/Tests/Layers.antt =====
-- Runs of alexnet.c, and its theorems at inputs that meet their hypotheses.
use oo_o_processor.Common.{
  ℕ, suc, ◌+◌, ◌*◌, Bool, true, ◌&&◌, ◌<◌, ◌≡◌, refl, arith, pos, negsuc, ok, [], ◌∷◌, replicate,
  ◌+ℤ◌, ◌*ℤ◌, Returns, for_loop,
}
use oo_o_processor.Tests.Bounded.{all_below, both_true, below}
use oo_o_processor.FcForward.{is_int}
use oo_o_processor.Array.{get, Ints, load, store, set}
use oo_o_processor.Alexnet.{
  wrap_int, random_gen, at2, activate, fc_term, fc_output, fc_layer, fc_max_round, fc_soft_max,
}
use oo_o_processor.Alexnet.Convolution.{output_size}
use oo_o_processor.Alexnet.Main.{Network}
use oo_o_processor.Alexnet.Main
use oo_o_processor.Alexnet.Safety.{IsSized, main-IsSized}
use oo_o_processor.Alexnet.Register.{previous, previous-random_gen}
use oo_o_processor.Alexnet.Maximum.{FirstMaximum, fc_soft_max-FirstMaximum}
use oo_o_processor.Alexnet.Dense.{weighted, neuron, Fits, Computes, fc_layer-Computes}

random_gen_runs : random_gen 44257 ≡ 57968
unfolding random_gen
random_gen_runs = refl

-- A kernel of two cells, moved by two over five cells, has two places; moved by one, four.
output_size_runs : output_size 5 2 2 0 ≡ 1
unfolding output_size
output_size_runs = refl

output_size_unit_runs : output_size 5 2 1 0 ≡ 2
unfolding output_size
output_size_unit_runs = refl

abbrev features : Ints
features = pos 3 ∷ pos 7 ∷ negsuc 1 ∷ pos 7 ∷ pos 5 ∷ []

abbrev weights : Ints
weights = replicate 25 (negsuc 1)

abbrev zeros : Ints
zeros = replicate 5 (pos 0)

soft_max_runs : fc_soft_max features 5 ≡ ok 1
unfolding fc_soft_max fc_max_round for_loop load
soft_max_runs = refl

fc_layer_runs :
    fc_layer weights features features zeros 2 1 2
    ≡ ok (negsuc 16 ∷ pos 0 ∷ pos 0 ∷ pos 0 ∷ pos 0 ∷ [])
unfolding fc_layer fc_output fc_term wrap_int for_loop at2 load store set activate ◌+ℤ◌ ◌*ℤ◌
fc_layer_runs = refl

abbrev network : Network
network = record {
  fc_weights = weights;
  fc_biasses = zeros;
  fc_inputs = features;
  fc_outputs = zeros;
  cnn_weights = replicate 625 (pos 0);
  cnn_biasses = zeros;
  cnn_inputs = replicate 125 (pos 1);
  cnn_outputs = replicate 125 (pos 0);
  lfsr = 44257;
}

network-IsSized : IsSized network
network-IsSized = record {
  fc_weights = refl;
  fc_biasses = refl;
  fc_inputs = refl;
  fc_outputs = refl;
  cnn_weights = refl;
  cnn_biasses = refl;
  cnn_inputs = refl;
  cnn_outputs = refl;
}

main-IsSized_example : Returns IsSized (Main.main network)
main-IsSized_example = main-IsSized network network-IsSized

fc_soft_max-FirstMaximum_example : Returns (FirstMaximum features 5) (fc_soft_max features 5)
fc_soft_max-FirstMaximum_example = fc_soft_max-FirstMaximum features 5 (omega arith) (omega arith)

-- The products and the sums of this layer are ints.
abbrev input_fits : ℕ → ℕ → Bool
input_fits i j =
    is_int (get weights (5 * i + j) *ℤ get features j)
    && is_int (neuron weights features features refl refl refl (suc j) i)

abbrev output_fits : ℕ → Bool
output_fits i = all_below 5 (input_fits i)

layer_fits : Bool
layer_fits = all_below 4 output_fits

layer_fits_run : layer_fits ≡ true
unfolding layer_fits is_int get weighted ◌+ℤ◌ ◌*ℤ◌
layer_fits_run = refl

layer-Fits : (i : ℕ) → i < 4 → Fits weights features features refl refl refl 5 i
unfolding layer_fits
layer-Fits i h j k =
    both_true (is_int (get weights (5 * i + j) *ℤ get features j))
      (is_int (neuron weights features features refl refl refl (suc j) i))
      (below 5 (input_fits i) (below 4 output_fits layer_fits_run i h) j k)

fc_layer-Computes_example :
    Returns
      (Computes weights features features refl refl refl 5 0 zeros 4)
      (fc_layer weights features features zeros 5 4 0)
fc_layer-Computes_example =
    fc_layer-Computes weights features features refl refl refl zeros 5 4 0 refl (omega arith)
      (omega arith) layer-Fits

previous-random_gen_example :
    (0 < random_gen 44257) × (random_gen 44257 < 65536) × (previous (random_gen 44257) ≡ 44257)
previous-random_gen_example = previous-random_gen 44257 (omega arith) (omega arith)
