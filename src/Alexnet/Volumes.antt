-- ===== src/Alexnet/Volumes.antt =====
-- The sizes that the convolution, the pooling and their generators in alexnet.c keep.
use oo_o_processor.Common.{
  ℕ, ◌+◌, ◌*◌, ◌≤◌, ◌<◌, ◌≡◌, arith, ℤ, pos, negsuc, ◌-ℤ◌, Bool, false, ◌||◌, Run, for_loop,
  for_loop-keeps, length, Returns, returns, Returns-bind, Returns-if, lt→ltb,
}
use oo_o_processor.Array.{Ints}
use oo_o_processor.Alexnet.Convolution.{
  at3, at4, row_index, output_size, off_input, cnn_product, cnn_term, cnn_output, cnn_layer,
  cnn_input_generator, cnn_weight_round, cnn_weight_generator,
}
use oo_o_processor.Alexnet.Bounds.{
  load-Returns, store-Returns, Sized, Sized2, generate-Sized, Keeps, activate-Keeps,
}

pub at3-lt : (i j k : ℕ) → i < 5 → j < 5 → k < 5 → Returns (λ c. c < 125) (at3 i j k)
unfolding at3
at3-lt i j k h h' h'' = rw (lt→ltb j 5 h', lt→ltb k 5 h'') (returns (omega arith))

at4-lt : (i j k l : ℕ) → i < 5 → j < 5 → k < 5 → l < 5 → Returns (λ c. c < 625) (at4 i j k l)
unfolding at4
at4-lt i j k l h h' h'' h''' =
    Returns-bind (at3-lt i j k h h' h'') λ c lt. rw (lt→ltb l 5 h''') (returns (omega arith))

or_false : (a b : Bool) → a || b ≡ false → (a ≡ false) × (b ≡ false)
or_false a b e = ground arith

-- An index that is not on the padding is one of the input's.
row_index-lt : (r : ℤ) (n : ℕ) → off_input r n ≡ false → Returns (λ i. i < n) (row_index r)
unfolding off_input row_index
row_index-lt (pos i) n e = returns (ground arith)
row_index-lt (negsuc m) n e = absurd (ground arith)

module _ (weights inputs : Ints) (w : length weights ≡ 625) (x : length inputs ≡ 125)
    (input_size stride zero_pad o_ch o_r o_c : ℕ) (small : input_size ≤ 5) (in_ch : o_ch < 5)
    (in_r : o_r < 5) (in_c : o_c < 5) where
  cnn_product-Returns :
      (i_ch k_r k_c : ℕ)
      → i_ch < 5
      → k_r < 5
      → k_c < 5
      → Returns
          (λ v. ℕ)
          (cnn_product weights inputs input_size stride zero_pad o_ch o_r o_c i_ch k_r k_c)
  unfolding cnn_product
  cnn_product-Returns i_ch k_r k_c h h' h'' =
      let r = pos (stride * o_r + k_r) -ℤ pos zero_pad in
      let c = pos (stride * o_c + k_c) -ℤ pos zero_pad in
      Returns-if (off_input r input_size || off_input c input_size) (λ _. returns 0)
        λ inside.
          let (in_rows, in_columns) = or_false _ _ inside in
          Returns-bind (row_index-lt r input_size in_rows) λ i lt.
            Returns-bind (row_index-lt c input_size in_columns) λ j lt'.
              Returns-bind (at3-lt i_ch i j h (omega arith) (omega arith)) λ k below.
                Returns-bind (load-Returns inputs k x below) λ u _.
                  Returns-bind (at4-lt o_ch i_ch k_r k_c in_ch h h' h'')
                    λ l below'. Returns-bind (load-Returns weights l w below') λ v _. returns 0

  cnn_term-Keeps :
      (i_ch k_r k_c : ℕ)
      → i_ch < 5
      → k_r < 5
      → k_c < 5
      → Keeps 125 (cnn_term weights inputs input_size stride zero_pad o_ch o_r o_c i_ch k_r k_c)
  unfolding cnn_term
  cnn_term-Keeps i_ch k_r k_c h h' h'' a size =
      Returns-bind (at3-lt o_ch o_r o_c in_ch in_r in_c) λ k below.
        Returns-bind (load-Returns a k size below) λ o _.
          Returns-bind (cnn_product-Returns i_ch k_r k_c h h' h'')
            λ p _. store-Returns a k _ size below

-- Three loops, one in the other, over the cells of a cube.
pub for_cube {ℓ κ} :
    {S : Type ℓ} (P : S → Type κ) (body : ℕ → ℕ → ℕ → S → Run S) (m n : ℕ)
    → ((i j k : ℕ) (s : S) → i < m → j < n → k < n → P s → Returns P (body i j k s))
    → (s : S) → P s
    → Returns P (for_loop m 0 (λ i. for_loop n 0 λ j. for_loop n 0 (body i j)) s)
for_cube P body m n keep s p =
    for_loop-keeps P _ m
      (λ i s h p.
        for_loop-keeps P _ n
          (λ j s h' p. for_loop-keeps P _ n (λ k s h'' p. keep i j k s h h' h'' p) s p) s p)
      s p

pub cnn_layer-Keeps :
    (weights biasses inputs : Ints)
    (input_channel output_channel input_size kernel_size stride zero_pad af_num : ℕ)
    → length weights ≡ 625
    → length biasses ≡ 5
    → length inputs ≡ 125
    → input_channel ≤ 5
    → output_channel ≤ 5
    → input_size ≤ 5
    → kernel_size ≤ 5
    → output_size input_size kernel_size stride zero_pad ≤ 5
    → Keeps 125 (λ a.
      cnn_layer weights biasses inputs a input_channel output_channel input_size kernel_size stride
        zero_pad af_num)
unfolding cnn_layer cnn_output
cnn_layer-Keeps weights biasses inputs input_channel output_channel input_size kernel_size stride
      zero_pad af_num w b x ic oc is ks os =
    for_cube _ _ output_channel (output_size input_size kernel_size stride zero_pad)
      λ o_ch o_r o_c a h h' h'' size.
        Returns-bind (load-Returns biasses o_ch b (omega arith)) λ u _.
          Returns-bind (at3-lt o_ch o_r o_c (omega arith) (omega arith) (omega arith)) λ k below.
            Returns-bind (store-Returns a k u size below) λ a' size'.
              Returns-bind
                (for_cube _ _ input_channel kernel_size
                  (λ i_ch k_r k_c s l l' l''.
                    cnn_term-Keeps weights inputs w x input_size stride zero_pad o_ch o_r o_c is
                      (omega arith) (omega arith) (omega arith) i_ch k_r k_c (omega arith)
                      (omega arith) (omega arith) s)
                  a' size')
                λ a'' size''. activate-Keeps af_num k below a'' size''

pub cnn_input_generator-Sized :
    (a : Ints) (m n lfsr : ℕ)
    → m ≤ 5
    → n ≤ 5
    → length a ≡ 125
    → Returns (Sized 125) (cnn_input_generator a m n lfsr)
unfolding cnn_input_generator
cnn_input_generator-Sized a m n lfsr h h' size =
    for_cube (Sized 125) _ m n
      (λ i j k s l l' l'' keep.
        Returns-bind (at3-lt i j k (omega arith) (omega arith) (omega arith))
          λ c below. generate-Sized c s below keep)
      (a, lfsr) size

pub cnn_weight_generator-Sized :
    (a b : Ints) (m n size lfsr : ℕ)
    → m ≤ 5
    → n ≤ 5
    → size ≤ 5
    → length a ≡ 625
    → length b ≡ 5
    → Returns (Sized2 625 5) (cnn_weight_generator a b m n size lfsr)
unfolding cnn_weight_generator cnn_weight_round
cnn_weight_generator-Sized a b m n size lfsr h h' h'' p q =
    for_loop-keeps (Sized2 625 5) _ n
      (λ o (u, v, l) lt (p', q').
        Returns-bind (generate-Sized o (v, l) (omega arith) q') λ (v', l') q''.
          Returns-bind
            (for_cube (Sized 625) _ m size
              (λ i j k s l₁ l₂ l₃ keep.
                Returns-bind
                  (at4-lt o i j k (omega arith) (omega arith) (omega arith) (omega arith))
                  λ c below. generate-Sized c s below keep)
              (u, l') p')
            λ (u', l'') p''. returns (p'', q''))
      (a, b, lfsr) (p, q)
