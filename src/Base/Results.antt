-- ===== src/Base/Results.antt =====
-- Results with the error numbers of Linux, which the C functions of the brokers return.
use mathlib.Core.Path.{◌≡◌, refl}
use mathlib.Core.Bool.{Bool, true, false}
use mathlib.Core.Option.{Option, none, some}
use Prim.Native.Nat.{ℕ}
use whitenoise_linux.Base.Tests.{if◌then◌else◌}

pub data Result {ℓ} (A : Type ℓ) : Type ℓ where
  ok : A → Result A
  err : ℕ → Result A

-- A call that may give nothing, for which `error` is returned.
abbrev pub or_error {ℓ} : {A : Type ℓ} → ℕ → Option A → Result A
or_error error none = err error
or_error error (some a) = ok a

-- An error is passed on, a result goes on to the next call.
infixl 5 ◌>>=◌
abbrev pub ◌>>=◌ {ℓ₁ ℓ₂} : {A : Type ℓ₁} → {C : Type ℓ₂} → Result A → (A → Result C) → Result C
(err error) >>= next = err error
(ok result) >>= next = next result

-- `if (!test) return error;`
abbrev pub guard : Bool → ℕ → Result (Unit {0})
guard false error = err error
guard true error = ok tt

infixl 5 ◌>>◌
abbrev pub ◌>>◌ {ℓ} : {C : Type ℓ} → Result (Unit {0}) → Result C → Result C
test >> next = test >>= λ passed. next

-- What a sequence of calls says of its first, when it succeeds.
pub >>=-eq-ok {ℓ₁ ℓ₂} :
    {A : Type ℓ₁}
    → {C : Type ℓ₂} → (first : Result A) (next : A → Result C) {end : C} → (first >>= next) ≡ ok end
    → (a : A) × (first ≡ ok a) × (next a ≡ ok end)
>>=-eq-ok (err error) next e = cc
>>=-eq-ok (ok result) next e = (result, refl, e)

pub guard-eq-ok {ℓ} :
    {B : Type ℓ} (t : Bool) (error : ℕ) (k : Result B) {b : B}
    → (guard t error >> k) ≡ ok b
    → (t ≡ true) × (k ≡ ok b)
guard-eq-ok true error k h = (refl, h)
guard-eq-ok false error k h = cc

pub or_error-eq-ok {ℓ} :
    {A : Type ℓ} (error : ℕ) (o : Option A) {a : A} → or_error error o ≡ ok a → o ≡ some a
or_error-eq-ok error none h = cc
or_error-eq-ok error (some b) h = cc

pub ok-injective {ℓ} : {A : Type ℓ} (a b : A) → ok a ≡ ok b → a ≡ b
ok-injective a b h = cc

-- `if (test) return error;` before a result.
pub unless_ok {ℓ} :
    {A : Type ℓ} (b : Bool) (error : ℕ) (m : Result A) (a : A)
    → ◌≡◌ {A = Result A} (if b then err error else m) (ok a)
    → (b ≡ false) × (m ≡ ok a)
unless_ok true error m a h = cc
unless_ok false error m a h = (refl, h)

-- The error numbers.
abbrev pub eperm : ℕ
eperm = 1

abbrev pub enoent : ℕ
enoent = 2

abbrev pub eio : ℕ
eio = 5

abbrev pub e2big : ℕ
e2big = 7

abbrev pub enomem : ℕ
enomem = 12

abbrev pub ebusy : ℕ
ebusy = 16

abbrev pub einval : ℕ
einval = 22

abbrev pub efbig : ℕ
efbig = 27

abbrev pub enametoolong : ℕ
enametoolong = 36

abbrev pub etimedout : ℕ
etimedout = 110

abbrev pub ealready : ℕ
ealready = 114

abbrev pub ecanceled : ℕ
ecanceled = 125
