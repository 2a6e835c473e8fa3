-- ===== src/Alexnet/Dense.antt =====
-- What fc_layer of alexnet.c computes.
use mathlib.Core.Path.{subst, sym}
use oo_o_processor.Common.{
  ℕ, zero, suc, ◌+◌, ◌*◌, ◌≤◌, ◌<◌, ◌≡◌, ◌≢◌, ◌∙◌, refl, arith, ℤ, pos, negsuc, ◌+ℤ◌, ◌*ℤ◌, ◌==◌,
  true, false, ok, for_loop-inv, length, Returns, returns, Returns-bind, Returns-map,
  last_or_before, inl, inr, lt→ltb,
}
use oo_o_processor.Array.{
  Ints, store, get, set, load-get, store-set, length-set, get-set_same, get-set_other,
}
use oo_o_processor.FcForward.{is_int}
use oo_o_processor.Alexnet.{wrap_int, relu_af, at2, rectify, activate, fc_term, fc_output, fc_layer}

-- The weighted sum of n inputs and a bias.
unfoldable pub weighted : (ℕ → ℤ) → (ℕ → ℤ) → ℤ → ℕ → ℤ
weighted weight input bias zero = bias
weighted weight input bias (suc n) = weighted weight input bias n +ℤ weight n *ℤ input n

-- The value of an int is not changed.
wrap_int-is_int : (v : ℤ) → is_int v ≡ true → wrap_int v ≡ v
unfolding wrap_int is_int
wrap_int-is_int (pos n) h = ground arith
wrap_int-is_int (negsuc n) h = ground arith

-- The activation: relu for the numbers 0 and 1, and none for others.
abbrev pub activation : ℕ → ℤ → ℤ
activation zero x = relu_af x
activation (suc zero) x = relu_af x
activation (suc (suc n)) x = x

-- The cell i holds v, and the others what they held.
abbrev Writes : ℕ → ℤ → Ints → Ints → Type 0
Writes i v a b = (length b ≡ 5) × (get b i ≡ v) × ((k : ℕ) → k ≢ i → get b k ≡ get a k)

set-Writes : (i : ℕ) (v w : ℤ) (a b : Ints) → i < 5 → Writes i v a b → Writes i w a (set b i w)
set-Writes i v w a b h (size, at, others) = (
  length-set b i w ∙ size,
  get-set_same b i w (omega arith),
  λ k ne. get-set_other b i k w (omega arith) (λ e. ne (sym e)) ∙ others k ne,
)

store-Writes :
    (i : ℕ) (v w : ℤ) (a b : Ints) → i < 5 → Writes i v a b → Returns (Writes i w a) (store b i w)
store-Writes i v w a b h held =
    rw (store-set b i w (omega (arith, held.0))) (returns (set-Writes i v w a b h held))

at2-cell : (i j : ℕ) → j < 5 → at2 i j ≡ ok (5 * i + j)
unfolding at2
at2-cell i j h = rw (lt→ltb j 5 h) refl

rectify-Writes :
    (i : ℕ) (v : ℤ) (a b : Ints)
    → i < 5
    → Writes i v a b
    → Returns (Writes i (relu_af v) a) (rectify i b)
unfolding rectify
rectify-Writes i v a b h held =
    rw (load-get b i (omega (arith, held.0)), held.1) (store-Writes i v (relu_af v) a b h held)

no_switch : (af_num case_num : ℕ) → case_num < af_num → (af_num == case_num) ≡ false
no_switch af_num case_num h = ground arith

activate-Writes :
    (af_num i : ℕ) (v : ℤ) (a b : Ints)
    → i < 5
    → Writes i v a b
    → Returns (Writes i (activation af_num v) a) (activate af_num i b)
unfolding activate
activate-Writes zero i v a b h held = rectify-Writes i v a b h held
activate-Writes (suc zero) i v a b h held = rectify-Writes i v a b h held
activate-Writes (suc (suc n)) i v a b h held =
    rw (no_switch (suc (suc n)) 0 (omega arith), no_switch (suc (suc n)) 1 (omega arith))
      (returns held)

module _ (weights biasses inputs : Ints) (w : length weights ≡ 25) (b : length biasses ≡ 5)
    (x : length inputs ≡ 5) where
  -- The value of the neuron i before its activation.
  abbrev pub neuron : ℕ → ℕ → ℤ
  neuron input_num i =
      weighted (λ j. get weights (5 * i + j)) (get inputs) (get biasses i) input_num

  fc_term-Writes :
      (i j : ℕ) (v : ℤ) (a c : Ints)
      → i < 5
      → j < 5
      → is_int (get weights (5 * i + j) *ℤ get inputs j) ≡ true
      → is_int (v +ℤ get weights (5 * i + j) *ℤ get inputs j) ≡ true
      → Writes i v a c
      → Returns
          (Writes i (v +ℤ get weights (5 * i + j) *ℤ get inputs j) a)
          (fc_term weights inputs i j c)
  unfolding fc_term
  fc_term-Writes i j v a c h k small small_sum held =
      rw
        (
          load-get c i (omega (arith, held.0)),
          at2-cell i j k,
          load-get weights (5 * i + j) (omega arith),
          load-get inputs j (omega arith),
          held.1,
          wrap_int-is_int _ small,
          wrap_int-is_int _ small_sum,
        )
        (store-Writes i v _ a c h held)

  -- No product and no partial sum of the neuron i leaves an int.
  abbrev pub Fits : ℕ → ℕ → Type 0
  Fits input_num i =
      (j : ℕ)
      → j < input_num
      → (is_int (get weights (5 * i + j) *ℤ get inputs j) ≡ true)
        × (is_int (neuron (suc j) i) ≡ true)

  fc_output-Writes :
      (input_num af_num i : ℕ) (a : Ints)
      → input_num ≤ 5
      → i < 5
      → Fits input_num i
      → length a ≡ 5
      → Returns
          (Writes i (activation af_num (neuron input_num i)) a)
          (fc_output weights biasses inputs input_num af_num i a)
  unfolding fc_output weighted
  fc_output-Writes input_num af_num i a le h fits size = rw (load-get biasses i (omega arith)) (
      Returns-bind (store-Writes i (get a i) (get biasses i) a a h (size, refl, λ k ne. refl))
        λ a' held.
          Returns-bind
            (for_loop-inv (λ j. Writes i (neuron j i) a) (fc_term weights inputs i) input_num 0
              input_num (omega arith)
              (λ j c lo hi held'.
                let e : suc j ≡ j + 1 = omega arith in
                subst (λ n. Returns (Writes i (neuron n i) a) (fc_term weights inputs i j c)) e
                  (fc_term-Writes i j (neuron j i) a c h (omega arith) ((fits j hi).0)
                    ((fits j hi).1) held'))
              a' held)
            λ a'' held''. activate-Writes af_num i (neuron input_num i) a a'' h held'')

  -- The first output_num cells hold the activated neurons, and the others what they held.
  abbrev pub Computes : ℕ → ℕ → Ints → ℕ → Ints → Type 0
  Computes input_num af_num a output_num c =
      (length c ≡ 5)
      × ((k : ℕ) → k < output_num → get c k ≡ activation af_num (neuron input_num k))
      × ((k : ℕ) → output_num ≤ k → get c k ≡ get a k)

  next_output :
      (input_num af_num i : ℕ) (a c d : Ints)
      → Computes input_num af_num a i c
      → Writes i (activation af_num (neuron input_num i)) c d
      → Computes input_num af_num a (i + 1) d
  next_output input_num af_num i a c d (_, below, above) (size, at, others) = (
    size,
    (λ k h. elim (last_or_before h) [
      | inl e ↦ rw e at
      | inr h' ↦ others k (omega arith) ∙ below k h'
    ]),
    λ k h. others k (omega arith) ∙ above k (omega arith),
  )

  -- On arrays of the declared sizes, with at most five inputs and outputs, where no product and no partial
  -- sum leaves an int, fc_layer ends; each of the first output_num cells then holds the activation of its
  -- bias plus the weighted sum of the first input_num inputs, and the other cells are as before.
  pub fc_layer-Computes :
      (outputs : Ints) (input_num output_num af_num : ℕ)
      → length outputs ≡ 5
      → input_num ≤ 5
      → output_num ≤ 5
      → ((i : ℕ) → i < output_num → Fits input_num i)
      → Returns
          (Computes input_num af_num outputs output_num)
          (fc_layer weights biasses inputs outputs input_num output_num af_num)
  unfolding fc_layer
  fc_layer-Computes outputs input_num output_num af_num size le le' fits =
      for_loop-inv (Computes input_num af_num outputs)
        (fc_output weights biasses inputs input_num af_num) output_num 0 output_num (omega arith)
        (λ i c lo hi held.
          Returns-map (fc_output-Writes input_num af_num i c le (omega arith) (fits i hi) (held.0))
            λ d. next_output input_num af_num i outputs c d held)
        outputs (size, (λ k h. absurd (omega arith)), λ k h. refl)
