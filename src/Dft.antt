-- ===== src/Dft.antt =====
-- test_progs/dft.c: multiplication modulo 17 by a discrete Fourier transform of eight points. The
-- type byte is short; an assignment, an argument or a result of it wraps around to sixteen bits.
pub mod Modulo
pub mod Rounds
pub mod Transform
pub mod Fourier
pub mod Bits
pub mod Product
use oo_o_processor.Common.{
  ℕ, zero, suc, ◌+◌, ◌-◌, ◌/◌, ◌%◌, ◌^◌, ℤ, pos, negsuc, ◌+ℤ◌, ◌-ℤ◌, ◌*ℤ◌, ltb, ltb_ℤ, leb_ℤ, ◌==◌,
  ◌==ℤ◌, Run, ok, out_of_fuel, ◌>>=◌, if◌then◌else◌,
}
use oo_o_processor.Array.{Ints, load, store, fill}

-- The short whose pattern is the sixteen-bit word.
abbrev short_of : ℕ → ℤ
short_of u = if ltb u (2 ^ 15) then pos u else negsuc (2 ^ 16 - 1 - u)

unfoldable pub to_short : ℤ → ℤ
to_short (pos n) = short_of (n % 2 ^ 16)
to_short (negsuc n) = short_of (2 ^ 16 - 1 - n % 2 ^ 16)

-- while (x < 0) x += m, and while (x >= m) x -= m.
unfoldable pub raise : ℕ → ℤ → Run ℤ
raise zero x = out_of_fuel
raise (suc fuel) x =
    let again = raise fuel (to_short (x +ℤ pos 17)) in if ltb_ℤ x (pos 0) then again else ok x

unfoldable pub lower : ℕ → ℤ → Run ℤ
lower zero x = out_of_fuel
lower (suc fuel) x =
    let again = lower fuel (to_short (x -ℤ pos 17)) in if leb_ℤ (pos 17) x then again else ok x

-- The fuel is enough for a short: 2 ^ 15 / 17 rounds.
unfoldable pub modulo_m : ℤ → Run ℤ
modulo_m x = do y ← raise 1929 x; lower 1929 y

-- The local arrays x and y of dft, and what their cells hold before they are written.
pub record Unset : Type 0 where
  pub x : ℕ → ℤ
  pub y : ℕ → ℤ

-- for (i = 0; i < len; i += 2), by the rounds left; `k` stands for i >> 1.
unfoldable pub split_loop : ℕ → ℕ → Ints → Ints → Ints → Run (Ints × Ints)
split_loop zero k a x y = ok (x, y)
split_loop (suc n) k a x y = do
  u ← load a (k + k)
  x' ← store x k u
  v ← load a (k + k + 1)
  y' ← store y k v
  split_loop n (k + 1) a x' y'

-- for (i = 0; i < (len >> 1); ++ i), by the rounds left.
unfoldable pub join_loop : ℕ → ℕ → ℕ → ℤ → ℤ → Ints → Ints → Ints → Run Ints
join_loop zero i half root base x y a = ok a
join_loop (suc n) i half root base x y a = do
  u ← load x i
  v ← load y i
  p ← modulo_m (to_short (u +ℤ base *ℤ v))
  a' ← store a i p
  q ← modulo_m (to_short (u -ℤ base *ℤ v))
  a'' ← store a' (i + half) q
  base' ← modulo_m (to_short (base *ℤ root))
  join_loop n (i + 1) half root base' x y a''

-- The fuel bounds the depth of the recursion.
unfoldable pub dft : Unset → ℕ → Ints → ℕ → ℤ → Run Ints
dft unset zero a len root = out_of_fuel
dft unset (suc fuel) a len root =
    let transformed = do
      (x, y) ← split_loop ((len + 1) / 2) 0 a (fill 8 0 unset.x) (fill 8 0 unset.y)
      r ← modulo_m (to_short (root *ℤ root))
      x' ← dft unset fuel x (len / 2) r
      s ← modulo_m (to_short (root *ℤ root))
      y' ← dft unset fuel y (len / 2) s
      join_loop (len / 2) 0 (len / 2) root (pos 1) x' y' a
    in if root ==ℤ pos 1 then ok a else transformed

-- x & 1 and x >> 1 on two's complement.
unfoldable pub low_bit : ℤ → ℤ
low_bit (pos n) = pos (n % 2)
low_bit (negsuc n) = pos (1 - n % 2)

unfoldable pub shift_right : ℤ → ℤ
shift_right (pos n) = pos (n / 2)
shift_right (negsuc n) = negsuc (n / 2)

-- for (i = 0; i < n; ++ i), by the rounds left.
unfoldable pub to_poly_loop : ℕ → ℕ → ℤ → Ints → Run Ints
to_poly_loop zero i x a = ok a
to_poly_loop (suc n) i x a = do
  a' ← store a i (if low_bit x ==ℤ pos 0 then pos 0 else pos 1)
  to_poly_loop n (i + 1) (shift_right x) a'

unfoldable pub to_poly : ℤ → Ints → Run Ints
to_poly x a = to_poly_loop 8 0 x a

-- a[i] = modulo_m(a[i] * b[i])
unfoldable pub product_loop : ℕ → ℕ → Ints → Ints → Run Ints
product_loop zero i a b = ok a
product_loop (suc n) i a b = do
  u ← load a i
  v ← load b i
  p ← modulo_m (to_short (u *ℤ v))
  a' ← store a i p
  product_loop n (i + 1) a' b

-- The last loop of mult: the scaled items, evaluated as a polynomial at w.
unfoldable pub evaluate_loop : ℕ → ℕ → ℤ → ℤ → Ints → Run ℤ
evaluate_loop zero i base result a = ok result
evaluate_loop (suc n) i base result a = do
  u ← load a i
  p ← modulo_m (to_short (u *ℤ pos 15))
  a' ← store a i p
  result' ← modulo_m (to_short (result +ℤ base *ℤ p))
  base' ← modulo_m (to_short (base *ℤ pos 2))
  evaluate_loop n (i + 1) base' result' a'

unfoldable pub mult : Unset → ℤ → ℤ → Run ℤ
mult unset x y = do
  a ← to_poly x (fill 8 0 unset.x)
  b ← to_poly y (fill 8 0 unset.y)
  a' ← dft unset 4 a 8 (pos 2)
  b' ← dft unset 4 b 8 (pos 2)
  c ← product_loop 8 0 a' b'
  c' ← dft unset 4 c 8 (pos 9)
  evaluate_loop 8 0 (pos 1) (pos 0) c'

unfoldable pub main : Unset → Run ℤ
main unset = do a ← mult unset (pos 3) (pos 16); b ← mult unset (pos 4) (pos 23); mult unset a b
