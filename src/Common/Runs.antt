-- ===== src/Common/Runs.antt =====
-- How a run of a C function ends, and the rules for runs that end well.
use mathlib.Core.Path.{◌≡◌, refl}
use mathlib.Core.Bool.{Bool, true, false}
use oo_o_processor.Common.Tests.{if◌then◌else◌}

-- A result; undefined behaviour, such as an access out of bounds or through NULL; a call of
-- exit(code) is `fault` too; or the model's fuel ran out.
pub data Run {ℓ} (A : Type ℓ) : Type ℓ where
  ok : A → Run A
  fault : Run A
  out_of_fuel : Run A

-- One C statement after another.
abbrev pub ◌>>=◌ {ℓ κ} : {A : Type ℓ} {B : Type κ} → Run A → (A → Run B) → Run B

infixl 5 ◌>>=◌
out_of_fuel >>= rest = out_of_fuel
fault >>= rest = fault
ok v >>= rest = rest v

-- The run ends with a result, and the result satisfies `Good`.
pub data Returns {ℓ κ} {A : Type ℓ} (Good : A → Type κ) : Run A → Type (ℓ ⊔ κ) where
  returns : {v : A} → Good v → Returns Good (ok v)

-- What such a run returned.
pub Returns-inv {ℓ κ} :
    {A : Type ℓ} {Good : A → Type κ} {run : Run A}
    → Returns Good run
    → (v : A) × (run ≡ ok v) × Good v
Returns-inv (returns good) = (_, refl, good)

-- A run in two steps, from its first step's result.
pub Returns-bind {ℓ κ ℓ' κ'} :
    {A : Type ℓ} {Good : A → Type κ} {B : Type ℓ'} {Better : B → Type κ'} {run : Run A}
    {rest : A → Run B}
    → Returns Good run
    → ((v : A) → Good v → Returns Better (rest v))
    → Returns Better (run >>= rest)
Returns-bind (returns good) next = next _ good

-- The same run, with a property that follows from the one known.
pub Returns-map {ℓ κ κ'} :
    {A : Type ℓ} {Good : A → Type κ} {Weak : A → Type κ'} {run : Run A}
    → Returns Good run
    → ((v : A) → Good v → Weak v)
    → Returns Weak run
Returns-map (returns good) weaken = returns (weaken _ good)

-- A run that branches, from both its branches.
pub Returns-if {ℓ κ} :
    {A : Type ℓ} {Good : A → Type κ} {yes no : Run A} (test : Bool)
    → (test ≡ true → Returns Good yes)
    → (test ≡ false → Returns Good no)
    → Returns Good (if test then yes else no)
Returns-if false _ on_no = on_no refl
Returns-if true on_yes _ = on_yes refl
