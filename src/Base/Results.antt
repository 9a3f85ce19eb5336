-- ===== src/Base/Results.antt =====
-- `Result` of the source, and panics as a second kind of error.
use Prim.Native.String.{String}
use mathlib.Core.Path.{◌≡◌, refl}
use mathlib.Core.Bool.{Bool, true, false}
use mathlib.Core.Option.{Option, none, some}
use mathlib.Core.Logic.{◌⊎◌, inl, inr}

pub data Result {ℓ} (A : Type ℓ) (E : Type ℓ) : Type ℓ where
  ok : A → Result A E
  err : E → Result A E

-- How a function that may also panic fails: by an error value, or by a panic with its message.
pub data Fault {ℓ} (E : Type ℓ) : Type ℓ where
  raised : E → Fault E
  panicked : String → Fault E

infixl 5 ◌>>=◌ ◌>>◌
abbrev pub ◌>>=◌ {ℓ} : {A B E : Type ℓ} → Result A E → (A → Result B E) → Result B E
ok a >>= f = f a
err e >>= f = err e

abbrev pub ◌>>◌ {ℓ} : {A B E : Type ℓ} → Result A E → Result B E → Result B E
m >> k = m >>= λ _. k

-- `Result::map_err`, and the conversion that `?` makes.
abbrev pub map_err {ℓ} : {A E F : Type ℓ} → (E → F) → Result A E → Result A F
map_err f (ok a) = ok a
map_err f (err e) = err (f e)

-- An early `return Err(e)` unless the test holds.
abbrev pub ensure : {E : Type 0} → Bool → E → Result (Unit {0}) E
ensure true e = ok tt
ensure false e = err e

-- `Option::expect`.
abbrev pub expect {ℓ} : {A E : Type ℓ} → String → Option A → Result A (Fault E)
expect m none = err (panicked m)
expect m (some a) = ok a

abbrev pub is_err {ℓ} : {A E : Type ℓ} → Result A E → Bool
is_err (ok a) = false
is_err (err e) = true

pub Result-cases {ℓ} :
    {A E : Type ℓ} (r : Result A E) → ((a : A) × (r ≡ ok a)) ⊎ ((e : E) × (r ≡ err e))
Result-cases (ok a) = inl (a, refl)
Result-cases (err e) = inr (e, refl)

pub >>=-eq-ok {ℓ} :
    {A B E : Type ℓ} (m : Result A E) (next : A → Result B E) {last : B}
    → (m >>= next) ≡ ok last
    → (first : A) × (m ≡ ok first) × (next first ≡ ok last)
>>=-eq-ok (ok first) next runs = (first, refl, runs)
>>=-eq-ok (err fault) next runs = cc

-- The function does not panic on this input.
abbrev pub NoPanic {ℓ} : {A E : Type ℓ} → Result A (Fault E) → Type 0
NoPanic (ok a) = Unit
NoPanic (err (raised e)) = Unit
NoPanic (err (panicked m)) = ⊥
