-- ===== src/Alexnet/Safety.antt =====
-- main of alexnet.c ends, and keeps to the bounds of its arrays.
use oo_o_processor.Common.{
  ℕ, ◌≡◌, refl, arith, for_loop-keeps, length, Returns, returns, Returns-bind,
}
use oo_o_processor.Alexnet.Convolution.{output_size}
use oo_o_processor.Alexnet.Main.{Network, main_round, main}
use oo_o_processor.Alexnet.Bounds.{
  fc_layer-Keeps, fc_input_generator-Sized, fc_weight_generator-Sized,
}
use oo_o_processor.Alexnet.Volumes.{
  cnn_layer-Keeps, cnn_input_generator-Sized, cnn_weight_generator-Sized,
}
use oo_o_processor.Alexnet.Pooling.{cnn_pool-Keeps, cnn_to_fc-Keeps}

-- The arrays have the sizes of their declarations.
pub record IsSized (s : Network) : Type 0 where
  pub fc_weights : length s.fc_weights ≡ 25
  pub fc_biasses : length s.fc_biasses ≡ 5
  pub fc_inputs : length s.fc_inputs ≡ 5
  pub fc_outputs : length s.fc_outputs ≡ 5
  pub cnn_weights : length s.cnn_weights ≡ 625
  pub cnn_biasses : length s.cnn_biasses ≡ 5
  pub cnn_inputs : length s.cnn_inputs ≡ 125
  pub cnn_outputs : length s.cnn_outputs ≡ 125

convolved : output_size 5 2 1 0 ≡ 2
unfolding output_size
convolved = refl

pooled : output_size 4 2 2 0 ≡ 1
unfolding output_size
pooled = refl

main_round-IsSized : (itr : ℕ) (s : Network) → IsSized s → Returns IsSized (main_round itr s)
unfolding main_round
main_round-IsSized itr s z =
    Returns-bind
      (cnn_input_generator-Sized s.cnn_inputs 5 5 s.lfsr (omega arith) (omega arith) z.cnn_inputs)
      λ (inputs, l) size_i.
        Returns-bind
          (cnn_weight_generator-Sized s.cnn_weights s.cnn_biasses 5 5 2 l (omega arith)
            (omega arith) (omega arith) z.cnn_weights z.cnn_biasses)
          λ (weights, biasses, l') (size_w, size_b).
            Returns-bind
              (cnn_layer-Keeps weights biasses inputs 5 5 5 2 1 0 2 size_w size_b size_i
                (omega arith) (omega arith) (omega arith) (omega arith) (omega (arith, convolved))
                s.cnn_outputs z.cnn_outputs)
              λ outputs size_o.
                Returns-bind
                  (cnn_pool-Keeps outputs size_o 2 2 0 5 4 0 (omega arith) (omega (arith, pooled))
                    (omega arith) (λ o k h h'. omega (arith, pooled)) inputs size_i)
                  λ inputs' size_i'.
                    Returns-bind
                      (cnn_to_fc-Keeps inputs' 5 size_i' (omega arith) s.fc_inputs z.fc_inputs)
                      λ features size_f.
                        Returns-bind (fc_input_generator-Sized features 5 l' (omega arith) size_f)
                          λ (features', l'') size_f'.
                            Returns-bind
                              (fc_weight_generator-Sized s.fc_weights s.fc_biasses 5 5 l''
                                (omega arith) (omega arith) z.fc_weights z.fc_biasses)
                              λ (w, b, l''') (size_v, size_c).
                                Returns-bind
                                  (fc_layer-Keeps w b features' size_v size_c size_f' 5 5 0
                                    (omega arith) (omega arith) s.fc_outputs z.fc_outputs)
                                  λ o size_e. returns (record {
                                    fc_weights = size_v;
                                    fc_biasses = size_c;
                                    fc_inputs = size_f';
                                    fc_outputs = size_e;
                                    cnn_weights = size_w;
                                    cnn_biasses = size_b;
                                    cnn_inputs = size_i';
                                    cnn_outputs = size_o;
                                  })

-- From arrays of the declared sizes, whatever they hold, and any lfsr, main ends without an access
-- out of bounds, and the arrays keep their sizes.
pub main-IsSized : (s : Network) → IsSized s → Returns IsSized (main s)
unfolding main
main-IsSized s z = for_loop-keeps IsSized main_round 3 (λ i t h. main_round-IsSized i t) s z
