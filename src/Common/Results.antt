-- ===== src/Common/Results.antt =====
-- Calls that may abort, on fuel.
use mathlib.Core.Path.{◌≡◌, refl}
use mathlib.Core.Option.{Option, none, some}

-- `failed` is a failed assertion, an exception or a read that the code must not make, which end the
-- process; `out_of_fuel` is neither.
pub data Result {ℓ} (A : Type ℓ) : Type ℓ where
  ok : A → Result A
  failed : Result A
  out_of_fuel : Result A

infixl 5 ◌>>=◌
abbrev pub ◌>>=◌ {ℓ κ} : {A : Type ℓ} {B : Type κ} → Result A → (A → Result B) → Result B
ok a >>= f = f a
failed >>= f = failed
out_of_fuel >>= f = out_of_fuel

abbrev pub of_option {ℓ} : {A : Type ℓ} → Option A → Result A
of_option none = failed
of_option (some a) = ok a

pub of_option-eq-ok : {A : Type 0} (call : Option A) {x : A} → of_option call ≡ ok x → call ≡ some x
of_option-eq-ok (some x) same = cc
of_option-eq-ok none same = absurd (cc)

-- A chain that comes to its end has passed its first call.
pub >>=-eq-ok :
    {A B : Type 0} {last : B} (call : Result A) (next : A → Result B)
    → (call >>= next) ≡ ok last
    → (x : A) × (call ≡ ok x) × (next x ≡ ok last)
>>=-eq-ok out_of_fuel next same = absurd (cc)
>>=-eq-ok failed next same = absurd (cc)
>>=-eq-ok (ok x) next same = (x, refl, same)
