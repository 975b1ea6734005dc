-- ===== src/Prelude/Result.antt =====
-- How a call ends: with a value, with a run-time panic (a nil dereference, an index out of range, a
-- failed type assertion, a division by zero), or not at all within the fuel of a loop.
use mathlib.Core.Path.{◌≡◌, refl}
use mathlib.Core.Option.{Option, none, some}

pub data Result {ℓ} (Value : Type ℓ) : Type ℓ where
  panic : Result Value
  out_of_fuel : Result Value
  ok : Value → Result Value

-- A pointer that is dereferenced.
abbrev pub deref {ℓ} : {Value : Type ℓ} → Option Value → Result Value
deref none = panic
deref (some v) = ok v

-- What ends a call ends its caller too.
module _ {ℓ ℓ'} {Value : Type ℓ} {Next : Type ℓ'} where
  infixl 5 ◌>>=◌
  abbrev pub ◌>>=◌ : Result Value → (Value → Result Next) → Result Next
  panic >>= rest = panic
  out_of_fuel >>= rest = out_of_fuel
  ok v >>= rest = rest v

  -- A caller that returns got a value from the call.
  pub >>=-eq-ok :
      (call : Result Value) (rest : Value → Result Next) {w : Next}
      → (call >>= rest) ≡ ok w
      → (v : Value) × (call ≡ ok v) × (rest v ≡ ok w)
  >>=-eq-ok panic rest returned = cc
  >>=-eq-ok out_of_fuel rest returned = cc
  >>=-eq-ok (ok v) rest returned = (v, refl, returned)

pub ok-injective {ℓ} : {Value : Type ℓ} {v w : Value} → ok v ≡ ok w → v ≡ w
ok-injective same = cc

pub deref-eq-ok {ℓ} :
    {Value : Type ℓ} (pointer : Option Value) {v : Value} → deref pointer ≡ ok v → pointer ≡ some v
deref-eq-ok none returned = cc
deref-eq-ok (some w) returned = cc
