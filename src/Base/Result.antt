-- ===== src/Base/Result.antt =====
-- The result of setup code: a value, an error that is returned, or a panic. Messages are left out.
use dnsredir.Base.Outcome.{Run, ret, panic, no_fuel}
use mathlib.Core.Path.{◌≡◌, refl}
use native.Mathlib.Omega.{arith}
use mathlib.Core.Bool.{Bool, true, false}
use mathlib.Core.Option.{Option, none, some}

pub data Result {ℓ} (A : Type ℓ) : Type ℓ where
  ok : A → Result A
  err : Result A
  crash : Result A
  stuck : Result A

infixl 5 ◌>>=◌
abbrev pub ◌>>=◌ {ℓ κ} : {A : Type ℓ} {B : Type κ} → Result A → (A → Result B) → Result B
ok a >>= f = f a
err >>= f = err
crash >>= f = crash
stuck >>= f = stuck

infixl 5 ◌>>◌
abbrev pub ◌>>◌ {ℓ} : {B : Type ℓ} → Result (Unit {0}) → Result B → Result B
m >> k = m >>= λ _. k

-- if bad { return error }
abbrev pub err_if : Bool → Result (Unit {0})
err_if true = err
err_if false = ok tt

-- A call that may panic; `stuck` stands for a model that ran out of fuel.
abbrev pub of_run {ℓ} : {A : Type ℓ} → Run A → Result A
of_run (ret a) = ok a
of_run panic = crash
of_run no_fuel = stuck

abbrev pub of_option {ℓ} : {A : Type ℓ} → Option A → Result A
of_option (some a) = ok a
of_option none = err

pub ok-injective {ℓ} : {A : Type ℓ} {a b : A} → ok a ≡ ok b → a ≡ b
ok-injective e = cc

-- A chain that gives a value has a first step that does.
pub ok_of_bind {ℓ κ} :
    {A : Type ℓ} {B : Type κ} (r : Result A) (f : A → Result B) (b : B)
    → (r >>= f) ≡ ok b
    → (a : A) × (r ≡ ok a) × (f a ≡ ok b)
ok_of_bind (ok a) f b h = (a, refl, h)
ok_of_bind err f b h = ground arith
ok_of_bind crash f b h = ground arith
ok_of_bind stuck f b h = ground arith
