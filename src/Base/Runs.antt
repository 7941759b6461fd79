-- ===== src/Base/Runs.antt =====
-- The outcome of C code: a value, undefined behaviour or a failed assertion, or no fuel left.
use mathlib.Core.Path.{◌≡◌, refl}

pub data Run {ℓ} (Value : Type ℓ) : Type ℓ where
  fault : Run Value
  ok : Value → Run Value
  out_of_fuel : Run Value

infixl 5 ◌>>=◌
abbrev pub ◌>>=◌ {ℓ κ} : {V : Type ℓ} {W : Type κ} → Run V → (V → Run W) → Run W
fault >>= next = fault
out_of_fuel >>= next = out_of_fuel
ok value >>= next = next value

-- A run that ends with a value, of which `Post` holds.
pub data Returns {ℓ κ} {V : Type ℓ} (Post : V → Type κ) : Run V → Type (ℓ ⊔ κ) where
  returns : {value : V} → Post value → Returns Post (ok value)

module _ {ℓ κ μ} {V W : Type ℓ} {Post : V → Type κ} {Then : W → Type μ} where
  pub Returns-bind :
      {first : Run V} {next : V → Run W}
      → Returns Post first
      → ((value : V) → Post value → Returns Then (next value))
      → Returns Then (first >>= next)
  Returns-bind (returns p) more = more _ p

module _ {ℓ κ μ} {V : Type ℓ} {Post : V → Type κ} {Weaker : V → Type μ} where
  pub Returns-mono :
      {run : Run V}
      → Returns Post run
      → ((value : V) → Post value → Weaker value)
      → Returns Weaker run
  Returns-mono (returns p) weaken = returns (weaken _ p)

module _ {ℓ κ} {V : Type ℓ} {Post : V → Type κ} where
  pub Returns-value : {run : Run V} → Returns Post run → (value : V) × (run ≡ ok value) × Post value
  Returns-value (returns {value} p) = (value, refl, p)
