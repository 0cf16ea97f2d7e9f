-- ===== src/Result.antt =====
-- A computation that may throw, and a method that mutates an object and may throw. What was written
-- before a throw stays written, so the state comes back beside the failure too.
use enhanced_ssh.Prelude.{Bool, true, false, ◌≡◌, refl, ◌⊎◌, inl, inr, arith}
use enhanced_ssh.Errors.{Failure}

pub data Result {ℓ} (A : Type ℓ) : Type ℓ where
  ok : A → Result A
  err : Failure → Result A

-- if (!test) throw failure
abbrev pub require : Bool → Failure → Result (Unit {0})
require false failure = err failure
require true failure = ok tt

infixl 5 ◌>>=◌ ◌>>◌
-- The next statement runs only if the first has not thrown.
abbrev pub ◌>>=◌ {ℓ κ} : {A : Type ℓ} {B : Type κ} → Result A → (A → Result B) → Result B
err failure >>= next = err failure
ok value >>= next = next value

abbrev pub ◌>>◌ {ℓ} : {B : Type ℓ} → Result (Unit {0}) → Result B → Result B
err failure >> next = err failure
ok value >> next = next

pub Result-cases {ℓ} :
    {A : Type ℓ} (r : Result A) → ((a : A) × (r ≡ ok a)) ⊎ ((e : Failure) × (r ≡ err e))
Result-cases (ok a) = inl (a, refl)
Result-cases (err e) = inr (e, refl)

-- Statements that succeed went through the first of them.
pub require-ok {ℓ} :
    {B : Type ℓ} (test : Bool) (failure : Failure) (rest : Result B) {last : B}
    → (require test failure >> rest) ≡ ok last
    → (test ≡ true) × (rest ≡ ok last)
require-ok false failure rest e = absurd (ground arith)
require-ok true failure rest e = (refl, e)

pub then-ok {ℓ} :
    {B : Type ℓ} (first : Result (Unit {0})) (rest : Result B) {last : B}
    → (first >> rest) ≡ ok last
    → (first ≡ ok tt) × (rest ≡ ok last)
then-ok (ok tt) rest e = (refl, e)
then-ok (err x) rest e = absurd (ground arith)

pub bind-ok {κ ℓ} :
    {B : Type κ} {A : Type ℓ} (step : Result A) (next : A → Result B) {last : B}
    → ok last ≡ (step >>= next)
    → (value : A) × (step ≡ ok value) × (ok last ≡ next value)
bind-ok (err failure) next e = absurd (ground arith)
bind-ok (ok value) next e = (value, refl, e)

pub ok-injective {ℓ} : {A : Type ℓ} {a b : A} → Path (Result A) (ok a) (ok b) → a ≡ b
ok-injective p = ground arith

-- Whether a computation ends without a failure.
abbrev pub is_ok {ℓ} : {A : Type ℓ} → Result A → Bool
is_ok (ok value) = true
is_ok (err failure) = false
