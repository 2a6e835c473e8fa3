-- ===== src/FcForward/Dot.antt =====
-- What kernel of fc_forward.c computes.
use oo_o_processor.Common.{
  ℕ, zero, suc, ◌+◌, ◌<◌, ◌≡◌, ◌∙◌, ap, refl, arith, ℤ, pos, ◌+ℤ◌, ◌*ℤ◌, true, ok, for_loop-inv,
  length, Returns, returns, Returns-bind, last_or_before, inl, inr,
}
use oo_o_processor.Array.{
  Ints, get, set, load-get, store-set, length-set, get-set_same, get-set_other,
}
use oo_o_processor.FcForward.{is_int, to_int, kernel_round, kernel}

-- The sum of the first n products.
unfoldable pub dot : Ints → Ints → ℕ → ℤ
dot a b zero = pos 0
dot a b (suc n) = dot a b n +ℤ get a n *ℤ get b n

-- No product and no sum of the first n leaves an int.
abbrev pub Fits : Ints → Ints → ℕ → Type 0
Fits a b n =
    (i : ℕ) → i < n → (is_int (get a i *ℤ get b i) ≡ true) × (is_int (dot a b (suc i)) ≡ true)

-- After k rounds: the products so far, and their sum.
abbrev pub Products : Ints → Ints → ℕ → ℕ → Ints × ℤ → Type 0
Products a b n k (result, sum) =
    (length result ≡ n) × ((i : ℕ) → i < k → get result i ≡ get a i *ℤ get b i) × (sum ≡ dot a b k)

pub to_int-ok : (v : ℤ) → is_int v ≡ true → to_int v ≡ ok v
unfolding to_int
to_int-ok v h = rw h refl

set-Products :
    (a b result : Ints) (n i : ℕ)
    → i < n
    → length result ≡ n
    → ((k : ℕ) → k < i → get result k ≡ get a k *ℤ get b k)
    → Products a b n (i + 1) (set result i (get a i *ℤ get b i), dot a b (suc i))
set-Products a b result n i h size below = (
  length-set result i (get a i *ℤ get b i) ∙ size,
  (λ k lt. elim (last_or_before lt) [
    | inl e ↦ rw e (get-set_same result i (get a i *ℤ get b i) (omega arith))
    | inr lt' ↦
        get-set_other result i k (get a i *ℤ get b i) (omega arith) (omega arith) ∙ below k lt'
  ]),
  ap (dot a b) (omega arith),
)

kernel_round-Products :
    (a b : Ints) (n i : ℕ) (s : Ints × ℤ)
    → length a ≡ n
    → length b ≡ n
    → i < n
    → Fits a b n
    → Products a b n i s
    → Returns (Products a b n (i + 1)) (kernel_round a b i s)
unfolding kernel_round dot
kernel_round-Products a b n i (result, sum) la lb h fits (size, below, e) =
    let (small, small_sum) = fits i h in
    rw
      (
        load-get a i (omega arith),
        load-get b i (omega arith),
        to_int-ok _ small,
        store-set result i (get a i *ℤ get b i) (omega arith),
        load-get (set result i (get a i *ℤ get b i)) i
            (omega (arith, size, length-set result i (get a i *ℤ get b i))),
        get-set_same result i (get a i *ℤ get b i) (omega arith),
        e,
        to_int-ok _ small_sum,
      )
      (returns (set-Products a b result n i h size below))

-- The array holds the first n products, and the result is their sum and the bias.
abbrev pub Forward : Ints → Ints → ℕ → ℤ → Ints × ℤ → Type 0
Forward a b n bias (result, out) =
    (length result ≡ n)
    × ((i : ℕ) → i < n → get result i ≡ get a i *ℤ get b i)
    × (out ≡ dot a b n +ℤ bias)

-- On arrays of n cells, where no product, no partial sum and not the sum with the bias leaves an int,
-- kernel ends; result then holds the products of the cells, and *out their sum and the bias.
pub kernel-Forward :
    (n : ℕ) (a b result : Ints) (bias : ℤ)
    → length a ≡ n
    → length b ≡ n
    → length result ≡ n
    → Fits a b n
    → is_int (dot a b n +ℤ bias) ≡ true
    → Returns (Forward a b n bias) (kernel n a b result bias)
unfolding kernel dot
kernel-Forward n a b result bias la lb lr fits last =
    Returns-bind
      (for_loop-inv (Products a b n) (kernel_round a b) n 0 n (omega arith)
        (λ i s lo hi. kernel_round-Products a b n i s la lb hi fits) (result, pos 0)
        (lr, (λ i h. absurd (omega arith)), refl))
      λ (result', sum) (size, all, e). rw (e, to_int-ok _ last) (returns (size, all, refl))
