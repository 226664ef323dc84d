-- ===== src/Base/Fault.antt =====
-- A C function that may refuse its input, or read or write outside the memory that it was given.
use mathlib.Core.Path.{◌≡◌, refl}
use mathlib.Core.Logic.{◌≢◌}
use mathlib.Core.Bool.{Bool, true, false}
use mathlib.Core.Option.{Option, none, some}

-- `fault` is undefined behaviour, an access out of bounds; `reject` is the C `return false`.
pub data Outcome {ℓ} (A : Type ℓ) : Type ℓ where
  fault : Outcome A
  reject : Outcome A
  done : A → Outcome A

infixl 5 ◌>>=◌ ◌>>◌
abbrev pub ◌>>=◌ {ℓ κ} : {A : Type ℓ} {B : Type κ} → Outcome A → (A → Outcome B) → Outcome B
fault >>= f = fault
reject >>= f = reject
done a >>= f = f a

abbrev pub ◌>>◌ {ℓ} : {B : Type ℓ} → Outcome (Unit {0}) → Outcome B → Outcome B
m >> k = m >>= λ _. k

-- `if (!test) return false;`
abbrev pub require : Bool → Outcome (Unit {0})
require true = done tt
require false = reject

-- A read that is out of bounds when it gives `none`.
abbrev pub load {ℓ} : {A : Type ℓ} → Option A → Outcome A
load none = fault
load (some a) = done a

pub >>=-eq-done {ℓ κ} :
    {A : Type ℓ} {B : Type κ} (m : Outcome A) (f : A → Outcome B) {b : B}
    → (m >>= f) ≡ done b
    → (a : A) × (m ≡ done a) × (f a ≡ done b)
>>=-eq-done fault f h = cc
>>=-eq-done reject f h = cc
>>=-eq-done (done a) f h = (a, refl, h)

-- No access out of bounds happens, and what is returned satisfies `P`.
abbrev pub Ensures {ℓ} : {A : Type ℓ} → (A → Type 0) → Outcome A → Type 0
Ensures P fault = ⊥
Ensures P reject = Unit {0}
Ensures P (done a) = P a

pub >>=-Ensures {ℓ κ} :
    {A : Type ℓ} {B : Type κ} (Q : A → Type 0) (P : B → Type 0) (m : Outcome A) (f : A → Outcome B)
    → Ensures Q m
    → ((a : A) → Q a → Ensures P (f a))
    → Ensures P (m >>= f)
>>=-Ensures Q P fault f s h = s
>>=-Ensures Q P reject f s h = tt
>>=-Ensures Q P (done a) f s h = h a s

pub require-Ensures {κ} :
    {B : Type κ} (P : B → Type 0) (b : Bool) (f : Unit {0} → Outcome B)
    → (b ≡ true → Ensures P (f tt))
    → Ensures P (require b >>= f)
require-Ensures P true f h = h refl
require-Ensures P false f h = tt

pub load-Ensures {ℓ κ} :
    {A : Type ℓ} {B : Type κ} (P : B → Type 0) (o : Option A) (f : A → Outcome B)
    → o ≢ none
    → ((a : A) → o ≡ some a → Ensures P (f a))
    → Ensures P (load o >>= f)
load-Ensures P none f s h = absurd (s refl)
load-Ensures P (some a) f s h = h a refl

-- The function returns, with a result that satisfies `P`.
abbrev pub Returns {ℓ} : {A : Type ℓ} → (A → Type 0) → Outcome A → Type 0
Returns P fault = ⊥
Returns P reject = ⊥
Returns P (done a) = P a

pub >>=-Returns {ℓ κ} :
    {A : Type ℓ} {B : Type κ} (Q : A → Type 0) (P : B → Type 0) (m : Outcome A) (f : A → Outcome B)
    → Returns Q m
    → ((a : A) → Q a → Returns P (f a))
    → Returns P (m >>= f)
>>=-Returns Q P fault f s h = absurd s
>>=-Returns Q P reject f s h = absurd s
>>=-Returns Q P (done a) f s h = h a s

-- What holds of a value that there is.
abbrev pub Each {ℓ} : {A : Type ℓ} → (A → Type 0) → Option A → Type 0
Each P none = Unit {0}
Each P (some a) = P a

pub Returns-map {ℓ} :
    {A : Type ℓ} (P Q : A → Type 0) (o : Outcome A)
    → Returns P o
    → ((a : A) → P a → Q a)
    → Returns Q o
Returns-map P Q fault h f = absurd h
Returns-map P Q reject h f = absurd h
Returns-map P Q (done a) h f = f a h
