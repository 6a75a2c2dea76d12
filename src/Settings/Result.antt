-- ===== src/Settings/Result.antt =====
-- What a validator of src/app/settings.py gives: a value, or the message of a ValueError.
use fastapi_chassis.Base.{String, ◌≡◌, refl, true, false, Bool, cond}

pub data Checked {ℓ} (Value : Type ℓ) : Type ℓ where
  value_error : String → Checked Value
  ok : Value → Checked Value

pub ok-injective {ℓ} : {Value : Type ℓ} {v w : Value} → ok v ≡ ok w → v ≡ w
ok-injective {v} {w} same = cc

-- `if b: raise ValueError(message)`
abbrev pub raise_if : Bool → String → Checked (Unit {0})
raise_if b message = cond b (value_error message) (ok tt)

infixl 10 ◌>>=◌ ◌>>◌
abbrev pub ◌>>=◌ {ℓ κ} :
    {Value : Type ℓ} {Next : Type κ} → Checked Value → (Value → Checked Next) → Checked Next
value_error message >>= rest = value_error message
ok v >>= rest = rest v

abbrev pub ◌>>◌ {κ} : {Next : Type κ} → Checked (Unit {0}) → Checked Next → Checked Next
accepted >> rest = accepted >>= (λ _. rest)

-- A chain that is accepted was accepted at its first step and after it.
pub >>=-eq-ok {ℓ κ} :
    {Value : Type ℓ} {Next : Type κ} (first : Checked Value) (rest : Value → Checked Next)
    → {w : Next} → (first >>= rest) ≡ ok w
    → (v : Value) × (first ≡ ok v) × (rest v ≡ ok w)
>>=-eq-ok (value_error message) rest accepted = cc
>>=-eq-ok (ok v) rest accepted = (v, refl, accepted)

pub raise_if-eq-ok {ℓ} :
    {B : Type ℓ} (b : Bool) (m : String) (k : Checked B) {r : B}
    → (raise_if b m >> k) ≡ ok r
    → (b ≡ false) × (k ≡ ok r)
raise_if-eq-ok true m k h = cc
raise_if-eq-ok false m k h = (refl, h)
