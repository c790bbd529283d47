-- ===== src/Packet/Reading.antt =====
-- What a decoder of src/mqtt/mqtt_packet.cpp does on its buffer, and the monad of its reads.
use lightapr.Prelude.{◌≡◌, refl, Bool, true, false, Option, none, some, ◌⊎◌, inl, inr}

-- `failed` is a thrown std::runtime_error, which `catch (...)` turns into `return false`, and
-- `return false` itself. `overrun` is a read outside the buffer, and `out_of_fuel` a model's loop
-- that was cut off: neither occurs.
pub data Outcome {ℓ} (A : Type ℓ) : Type ℓ where
  ok : A → Outcome A
  failed : Outcome A
  overrun : Outcome A
  out_of_fuel : Outcome A

infixl 5 ◌>>=◌ ◌>>◌
abbrev pub ◌>>=◌ {ℓ κ} : {A : Type ℓ} {B : Type κ} → Outcome A → (A → Outcome B) → Outcome B
ok a >>= f = f a
failed >>= f = failed
overrun >>= f = overrun
out_of_fuel >>= f = out_of_fuel

abbrev pub ◌>>◌ {ℓ} : {B : Type ℓ} → Outcome (Unit {0}) → Outcome B → Outcome B
m >> k = m >>= λ _. k

-- `if (!b) return false;`
abbrev pub require : Bool → Outcome (Unit {0})
require true = ok tt
require false = failed

-- `data[i]`, where `none` is an index outside the buffer.
abbrev pub in_buffer {ℓ} : {A : Type ℓ} → Option A → Outcome A
in_buffer none = overrun
in_buffer (some a) = ok a

-- No read left the buffer, and no loop was cut off.
pub data IsSound {ℓ} {A : Type ℓ} : Outcome A → Type ℓ where
  value : (a : A) → IsSound (ok a)
  failure : IsSound failed

pub >>=-IsSound {ℓ κ} :
    {A : Type ℓ} {B : Type κ} (m : Outcome A) (f : A → Outcome B)
    → IsSound m
    → ((a : A) → m ≡ ok a → IsSound (f a))
    → IsSound (m >>= f)
>>=-IsSound (ok a) f h k = k a refl
>>=-IsSound failed f h k = failure
>>=-IsSound overrun f h k = elim h [ ]
>>=-IsSound out_of_fuel f h k = elim h [ ]

pub require-IsSound : (b : Bool) → IsSound (require b)
require-IsSound true = value tt
require-IsSound false = failure

pub require→eq : (b : Bool) {u : Unit {0}} → require b ≡ ok u → b ≡ true
require→eq true h = refl
require→eq false h = cc

-- A sound outcome has a value or is a failure.
pub Outcome-cases {ℓ} :
    {A : Type ℓ} (m : Outcome A) → IsSound m → ((a : A) × (m ≡ ok a)) ⊎ (m ≡ failed)
Outcome-cases (ok a) h = inl (a, refl)
Outcome-cases failed h = inr refl
Outcome-cases overrun h = elim h [ ]
Outcome-cases out_of_fuel h = elim h [ ]
