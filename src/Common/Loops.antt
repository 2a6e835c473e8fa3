-- ===== src/Common/Loops.antt =====
-- C's counted loops, and the rule for what holds after them.
use Prim.Native.Nat.{ℕ, zero, suc, ◌+◌, ◌≤◌, ◌<◌}
use mathlib.Core.Path.{◌≡◌, subst}
use native.Mathlib.Omega.{arith}
use oo_o_processor.Common.Runs.{Run, ok, ◌>>=◌, Returns, returns, Returns-bind}

module _ {ℓ} {S : Type ℓ} where
  -- for (i = start; rounds are left; i++) the body changes the state.
  unfoldable pub for_loop : ℕ → ℕ → (ℕ → S → Run S) → S → Run S
  for_loop zero i body s = ok s
  for_loop (suc n) i body s = body i s >>= for_loop n (i + 1) body

  -- An invariant that every round keeps holds after the loop.
  pub for_loop-inv {κ} :
      (P : ℕ → S → Type κ) (body : ℕ → S → Run S) (n i stop : ℕ)
      → i + n ≡ stop
      → ((k : ℕ) (s : S) → i ≤ k → k < stop → P k s → Returns (P (k + 1)) (body k s))
      → (s : S) → P i s
      → Returns (P stop) (for_loop n i body s)
  unfolding for_loop
  for_loop-inv P body zero i stop e keep s p = returns (subst (λ k. P k s) (omega (arith, e)) p)
  for_loop-inv P body (suc n) i stop e keep s p =
      Returns-bind (keep i s (omega arith) (omega arith) p)
        (for_loop-inv P body n (i + 1) stop (omega arith) λ k u lo hi. keep k u (omega arith) hi)

  -- The same for an invariant that does not name the round.
  pub for_loop-keeps {κ} :
      (P : S → Type κ) (body : ℕ → S → Run S) (n : ℕ)
      → ((k : ℕ) (s : S) → k < n → P s → Returns P (body k s))
      → (s : S) → P s
      → Returns P (for_loop n 0 body s)
  for_loop-keeps P body n keep s p =
      for_loop-inv (λ k. P) body n 0 n (omega arith) (λ k t lo hi. keep k t hi) s p
