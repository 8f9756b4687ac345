-- ===== src/Prelude/Outcome.antt =====
-- A Go call that returns `(A, error)`: the value or the error.
use mathlib.Core.Option.{Option, none, some}
use mathlib.Core.Path.{ap, ◌≡◌, refl}
use mathlib.Core.Logic.{◌⊎◌, inl, inr, ◌≢◌}
use mathlib.Core.Bool.{Bool, true, false}

pub data Result (E A : Type 0) : Type 0 where
  ok : A → Result E A
  err : E → Result E A

infixl 5 ◌>>=◌ ◌>>◌
abbrev pub ◌>>=◌ : {E A B : Type 0} → Result E A → (A → Result E B) → Result E B
err failure >>= k = err failure
ok value >>= k = k value

abbrev pub ◌>>◌ : {E B : Type 0} → Result E (Unit {0}) → Result E B → Result E B
m >> k = m >>= λ _. k

-- `if broken { return err }`
abbrev pub fail_if : {E : Type 0} → Bool → E → Result E (Unit {0})
fail_if true e = err e
fail_if false e = ok tt

-- `fmt.Errorf("...: %w", err)`: a caller's wrapping of the error
abbrev pub wrap_err : {E F A : Type 0} → (E → F) → Result E A → Result F A
wrap_err f (ok a) = ok a
wrap_err f (err e) = err (f e)

-- Inversion of a successful bind.
pub >>=-eq-ok :
    {E A B : Type 0} (call : Result E A) (rest : A → Result E B) {result : B}
    → (call >>= rest) ≡ ok result
    → (value : A) × (call ≡ ok value) × (rest value ≡ ok result)
>>=-eq-ok (err failure) rest done = cc
>>=-eq-ok (ok value) rest done = (value, refl, done)

-- Inversion of a check that let the call go on.
pub fail_if-eq-ok :
    {E B : Type 0} (broken : Bool) (e : E) (k : Result E B) {b : B}
    → (fail_if broken e >> k) ≡ ok b
    → (broken ≡ false) × (k ≡ ok b)
fail_if-eq-ok false e k h = (refl, h)
fail_if-eq-ok true e k h = cc

pub ok-injective : {E A : Type 0} {a b : A} → ◌≡◌ {A = Result E A} (ok a) (ok b) → a ≡ b
ok-injective h = cc

pub Result-cases :
    {E A : Type 0} (r : Result E A) → ((e : E) × (r ≡ err e)) ⊎ ((a : A) × (r ≡ ok a))
Result-cases (ok a) = inr (a, refl)
Result-cases (err e) = inl (e, refl)

-- A call did not both fail and succeed.
pub not_err : {E A : Type 0} {r : Result E A} {e : E} {a : A} → r ≡ err e → r ≢ ok a
not_err h = λ k. cc

-- A value that may be missing, and the error for that.
abbrev pub required : {E A : Type 0} → E → Option A → Result E A
required e none = err e
required e (some a) = ok a

pub required-eq-ok :
    {E A : Type 0} (e : E) (o : Option A) {a : A} → required e o ≡ ok a → o ≡ some a
required-eq-ok e none h = cc
required-eq-ok e (some a) h = ap some (ok-injective h)

pub wrap_err-eq-ok :
    {E F A : Type 0} (f : E → F) (r : Result E A) {a : A} → wrap_err f r ≡ ok a → r ≡ ok a
wrap_err-eq-ok f (ok a) h = ap ok (ok-injective h)
wrap_err-eq-ok f (err e) h = cc
