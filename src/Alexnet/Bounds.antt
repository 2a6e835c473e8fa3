-- ===== src/Alexnet/Bounds.antt =====
-- No access of alexnet.c leaves its array: the sizes that the functions keep.
use oo_o_processor.Common.{
  ℕ, ◌≤◌, ◌<◌, ◌≡◌, ◌∙◌, refl, arith, ℤ, ◌==◌, Run, for_loop-keeps, length, Returns, returns,
  Returns-bind, Returns-if, lt→ltb,
}
use oo_o_processor.Array.{Ints, load, store, get, load-get, store-set, length-set}
use oo_o_processor.Alexnet.{
  generate, relu_af, at2, rectify, activate, fc_term, fc_output, fc_layer, fc_input_generator,
  fc_weight_row, fc_weight_generator,
}

pub load-Returns :
    {n : ℕ} (a : Ints) (i : ℕ) → length a ≡ n → i < n → Returns (λ x. x ≡ get a i) (load a i)
load-Returns a i size h = rw (load-get a i (omega arith)) (returns refl)

pub store-Returns :
    {n : ℕ} (a : Ints) (i : ℕ) (v : ℤ)
    → length a ≡ n
    → i < n
    → Returns (λ b. length b ≡ n) (store a i v)
store-Returns a i v size h = rw (store-set a i v (omega arith)) (returns (length-set a i v ∙ size))

-- An array and the register after it.
abbrev pub Sized : ℕ → Ints × ℕ → Type 0
Sized n (a, lfsr) = length a ≡ n

pub generate-Sized :
    {n : ℕ} (i : ℕ) (s : Ints × ℕ) → i < n → Sized n s → Returns (Sized n) (generate i s)
unfolding generate
generate-Sized i (a, lfsr) h size =
    Returns-bind (store-Returns a i _ size h) λ b size'. returns size'

at2-lt : (i j : ℕ) → i < 5 → j < 5 → Returns (λ k. k < 25) (at2 i j)
unfolding at2
at2-lt i j h k = rw (lt→ltb j 5 k) (returns (omega arith))

-- What `keep` states of a run on any array of the size.
abbrev pub Keeps : ℕ → (Ints → Run Ints) → Type 0
Keeps n run = (a : Ints) → length a ≡ n → Returns (λ b. length b ≡ n) (run a)

rectify-Keeps : {n : ℕ} (i : ℕ) → i < n → Keeps n (rectify i)
unfolding rectify
rectify-Keeps i h a size =
    Returns-bind (load-Returns a i size h) λ o _. store-Returns a i (relu_af o) size h

pub activate-Keeps : {n : ℕ} (af_num i : ℕ) → i < n → Keeps n (activate af_num i)
unfolding activate
activate-Keeps af_num i h a size =
    Returns-if (af_num == 0) (λ _. rectify-Keeps i h a size)
      λ _. Returns-if (af_num == 1) (λ _. rectify-Keeps i h a size) λ _. returns size

module _ (weights biasses inputs : Ints) (w : length weights ≡ 25) (b : length biasses ≡ 5)
    (x : length inputs ≡ 5) where
  fc_term-Keeps : (i j : ℕ) → i < 5 → j < 5 → Keeps 5 (fc_term weights inputs i j)
  unfolding fc_term
  fc_term-Keeps i j h k a size = Returns-bind (load-Returns a i size h) λ o _.
      Returns-bind (at2-lt i j h k) λ c lt.
        Returns-bind (load-Returns weights c w lt)
          λ u _. Returns-bind (load-Returns inputs j x k) λ v _. store-Returns a i _ size h

  pub fc_layer-Keeps :
      (input_num output_num af_num : ℕ)
      → input_num ≤ 5
      → output_num ≤ 5
      → Keeps 5 (λ a. fc_layer weights biasses inputs a input_num output_num af_num)
  unfolding fc_layer fc_output
  fc_layer-Keeps input_num output_num af_num le le' = for_loop-keeps _ _ output_num λ i a h size.
      Returns-bind (load-Returns biasses i b (omega arith)) λ u _.
        Returns-bind (store-Returns a i u size (omega arith)) λ a' size'.
          Returns-bind
            (for_loop-keeps _ _ input_num (λ j s k. fc_term-Keeps i j (omega arith) (omega arith) s)
              a' size')
            λ a'' size''. activate-Keeps af_num i (omega arith) a'' size''

pub fc_input_generator-Sized :
    (a : Ints) (n lfsr : ℕ) → n ≤ 5 → length a ≡ 5 → Returns (Sized 5) (fc_input_generator a n lfsr)
unfolding fc_input_generator
fc_input_generator-Sized a n lfsr h size =
    for_loop-keeps (Sized 5) _ n (λ i s k. generate-Sized i s (omega arith)) (a, lfsr) size

abbrev pub Sized2 : ℕ → ℕ → Ints × Ints × ℕ → Type 0
Sized2 m n (a, b, lfsr) = (length a ≡ m) × (length b ≡ n)

pub fc_weight_generator-Sized :
    (a b : Ints) (m n lfsr : ℕ)
    → m ≤ 5
    → n ≤ 5
    → length a ≡ 25
    → length b ≡ 5
    → Returns (Sized2 25 5) (fc_weight_generator a b m n lfsr)
unfolding fc_weight_generator fc_weight_row
fc_weight_generator-Sized a b m n lfsr h k size size' =
    for_loop-keeps (Sized2 25 5) _ n
      (λ i (u, v, l) lt (p, q).
        Returns-bind (generate-Sized i (v, l) (omega arith) q) λ (v', l') q'.
          Returns-bind
            (for_loop-keeps (Sized 25) _ m
              (λ j s lt' keep.
                Returns-bind (at2-lt i j (omega arith) (omega arith))
                  λ c below. generate-Sized c s below keep)
              (u, l') p)
            λ (u', l'') p'. returns (p', q'))
      (a, b, lfsr) (size, size')
