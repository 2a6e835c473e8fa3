-- ===== src/Alexnet/Register.antt =====
-- random_gen of alexnet.c, a shift register of sixteen bits.
use Prim.Native.Nat.{bit_xor}
use oo_o_processor.Common.{
  ℕ, zero, suc, ◌+◌, ◌*◌, ◌/◌, ◌%◌, ◌<◌, ◌≤◌, ◌≡◌, refl, arith, Bool, true, false, ◌&&◌, ltb, leb,
  ◌==◌, if◌then◌else◌, Bool-cases, inl, inr, last_or_before,
}
use oo_o_processor.Alexnet.{random_gen}

all_below : ℕ → (ℕ → Bool) → Bool
all_below zero test = true
all_below (suc n) test = test n && all_below n test

both : (a b : Bool) → a && b ≡ true → (a ≡ true) × (b ≡ true)
both a b e = ground arith

all_below-true : (n k : ℕ) (test : ℕ → Bool) → all_below n test ≡ true → k < n → test k ≡ true
unfolding all_below
all_below-true zero k test e h = absurd (omega arith)
all_below-true (suc n) k test e h =
    let (here, below) = both (test n) (all_below n test) e in
    elim (last_or_before {k = k} {n = n} (omega arith)) [
      | inl same ↦ rw same here
      | inr lt ↦ all_below-true n k test below lt
    ]

-- The feedback sets bit 15 of a word below 2 ^ 15, keeps to sixteen bits, and is undone by itself.
abbrev tapped : ℕ → Bool
tapped h = let w = bit_xor h 46080 in leb 32768 w && (ltb w 65536 && (bit_xor w 46080 == h))

all_tapped : all_below 32768 tapped ≡ true
unfolding all_below
all_tapped = refl

tapped_lem :
    (h w : ℕ) (back : ℕ)
    → leb 32768 w && (ltb w 65536 && (back == h)) ≡ true
    → (32768 ≤ w) × (w < 65536) × (back ≡ h)
tapped_lem h w back e = ground arith

-- The word before.
abbrev pub previous : ℕ → ℕ
previous y = if leb 32768 y then bit_xor y 46080 * 2 + 1 else y * 2

undo_odd :
    (x w back : ℕ)
    → (x % 2 == 1) ≡ true
    → 32768 ≤ w
    → back ≡ x / 2
    → (if leb 32768 w then back * 2 + 1 else w * 2) ≡ x
undo_odd x w back odd high e = ground arith

undo_even :
    (x other : ℕ)
    → (x % 2 == 1) ≡ false
    → x < 65536
    → (if leb 32768 (x / 2) then other else x / 2 * 2) ≡ x
undo_even x other even h = ground arith

half_pos : (x : ℕ) → (x % 2 == 1) ≡ false → 0 < x → 0 < x / 2
half_pos x even h = ground arith

-- On the positive words of sixteen bits, random_gen gives a positive word of sixteen bits, from which
-- the word before can be told: it is a permutation of them.
pub previous-random_gen :
    (x : ℕ)
    → 0 < x
    → x < 65536
    → (0 < random_gen x) × (random_gen x < 65536) × (previous (random_gen x) ≡ x)
unfolding random_gen
previous-random_gen x some h = elim (Bool-cases (x % 2 == 1)) [
  | inl odd ↦
      let (high, small, back) =
        tapped_lem (x / 2) (bit_xor (x / 2) 46080) (bit_xor (bit_xor (x / 2) 46080) 46080)
          (all_below-true 32768 (x / 2) tapped all_tapped (omega arith)) in
      rw odd (omega (arith, high), small, undo_odd x _ _ odd high back)
  | inr even ↦ rw even (half_pos x even some, omega arith, undo_even x _ even h)
]
