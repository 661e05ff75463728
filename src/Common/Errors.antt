-- ===== src/Common/Errors.antt =====
-- Errors as values: lib/errors.ts, and the result of a function that may throw one.
use Prim.Native.Nat.{ℕ}
use Prim.Native.String.{String}
use mathlib.Core.Path.{◌≡◌, refl}
use mathlib.Core.Bool.{Bool, true, false}
use mathlib.Core.Logic.{◌⊎◌, inl, inr}
use gsm.Common.Tests.{if◌then◌else◌}

-- The constructors are the source's helpers; the text is the source's message, with the places of
-- a template literal left as they are written there. `http_error` is the class itself: status, code
-- and message.
pub data HttpError : Type 0 where
  bad_request : String → HttpError
  unauthorized : String → HttpError
  forbidden : String → HttpError
  not_found : String → HttpError
  conflict : String → HttpError
  too_many_requests : String → HttpError
  unavailable : String → HttpError
  internal : String → HttpError
  http_error : ℕ → String → String → HttpError

pub data Result {ℓ} (A : Type ℓ) : Type ℓ where
  ok : A → Result A
  err : HttpError → Result A

infixl 5 ◌>>=◌ ◌>>◌
abbrev pub ◌>>=◌ {ℓ κ} : {A : Type ℓ} {B : Type κ} → Result A → (A → Result B) → Result B
err problem >>= next = err problem
ok value >>= next = next value

abbrev pub ◌>>◌ {ℓ} : {B : Type ℓ} → Result (Unit {0}) → Result B → Result B
first >> second = first >>= λ done. second

-- `if (test) throw problem;`
abbrev pub throw_if : Bool → HttpError → Result (Unit {0})
throw_if test problem = if test then err problem else ok tt

pub ok-injective {ℓ} : {A : Type ℓ} {a b : A} → ok a ≡ ok b → a ≡ b
ok-injective e = cc

-- A chain that succeeds went through a value of its first step.
pub bind-eq-ok {ℓ κ} :
    {A : Type ℓ} {B : Type κ} (first : Result A) (next : A → Result B) {out : B}
    → (first >>= next) ≡ ok out
    → (value : A) × (first ≡ ok value) × (next value ≡ ok out)
bind-eq-ok (err problem) next e = cc
bind-eq-ok (ok value) next e = (value, refl, e)

pub Result-cases {ℓ} :
    {A : Type ℓ} (r : Result A) → ((e : HttpError) × (r ≡ err e)) ⊎ ((a : A) × (r ≡ ok a))
Result-cases (err e) = inl (e, refl)
Result-cases (ok a) = inr (a, refl)

-- A check that passes has a false test.
pub throw_if-ok :
    (test : Bool) (problem : HttpError) (done : Unit {0})
    → throw_if test problem ≡ ok done
    → test ≡ false
throw_if-ok true problem done e = cc
throw_if-ok false problem done e = refl
