-- ===== src/Outcome.antt =====
-- How a C++ call ends: with a value, by an exception, or nowhere that the language defines. The
-- `catch` clauses of the program tell `std::runtime_error` and `std::invalid_argument` from the other
-- exceptions, all of which are taken to be `std::exception`s.
use fcgijwtauth.Base.{◌≡◌, refl, ◌⊎◌, inl, inr, Option, none, some}

pub data Exception : Type 0 where
  runtime_error invalid_argument other_exception : Exception

pub data Outcome {ℓ} (A : Type ℓ) : Type ℓ where
  ok : A → Outcome A
  throws : Exception → Outcome A
  undefined : Outcome A

infixl 5 ◌>>=◌
abbrev pub ◌>>=◌ {ℓ κ} : {A : Type ℓ} {B : Type κ} → Outcome A → (A → Outcome B) → Outcome B
ok a >>= f = f a
throws e >>= f = throws e
undefined >>= f = undefined

-- A call that returned went through both of its parts.
pub >>=-eq-ok {ℓ κ} :
    {A : Type ℓ} {B : Type κ} {result : B} (next : A → Outcome B) (call : Outcome A)
    → (call >>= next) ≡ ok result
    → (a : A) × (next a ≡ ok result) × (call ≡ ok a)
>>=-eq-ok next (ok a) returned = (a, returned, refl)
>>=-eq-ok next (throws e) returned = cc
>>=-eq-ok next undefined returned = cc

-- A value that the library has or has not, where its absence throws.
abbrev pub or_throw {ℓ} : {A : Type ℓ} → Option A → Exception → Outcome A
or_throw none e = throws e
or_throw (some a) e = ok a

pub Outcome-cases {ℓ} :
    {A : Type ℓ} (m : Outcome A)
    → ((a : A) × (m ≡ ok a)) ⊎ (((e : Exception) × (m ≡ throws e)) ⊎ (m ≡ undefined))
Outcome-cases (ok a) = inl (a, refl)
Outcome-cases (throws e) = inr (inl (e, refl))
Outcome-cases undefined = inr (inr refl)
