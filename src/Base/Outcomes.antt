-- ===== src/Base/Outcomes.antt =====
-- What a function returns, or the exception that it raises. Nothing in the scripts catches these
-- exceptions, so the state at a raise is not kept.
use Prim.Native.Nat.{ℕ}
use Prim.Native.String.{String}
use mathlib.Core.Path.{◌≡◌, refl}
use mathlib.Core.Bool.{Bool, true, false}
use cloudnative.Base.Tests.{if◌then◌else◌, is_some}
use mathlib.Core.Option.{Option, none, some}

-- The `ValueError`s with a fixed text carry it; those about one address carry its parts.
-- The last five are raised by Python itself.
pub data Error : Type 0 where
  value_error : (message : String) → Error
  duplicate_port : (port : ℕ) (ip : String) → Error
  duplicate_directory : (directory ip : String) → Error
  key_error : (key : String) → Error
  index_error : Error
  bad_int : (text : String) → Error
  name_error : (name : String) → Error
  none_error : Error

pub data Result {ℓ} (Value : Type ℓ) : Type ℓ where
  -- `return value`
  ok : (value : Value) → Result Value
  -- `raise error`
  err : (error : Error) → Result Value

-- The rest of a function runs on what the step returned, and an exception ends it.
module _ {ℓ κ} {Value : Type ℓ} {Rest : Type κ} where
  infixl 5 ◌>>=◌
  abbrev pub ◌>>=◌ : Result Value → (Value → Result Rest) → Result Rest
  err error >>= rest = err error
  ok value >>= rest = rest value

  -- Inversion of a run that returns: both parts returned.
  pub >>=-eq-ok :
      (step : Result Value) (rest : Value → Result Rest) {r : Rest}
      → (step >>= rest) ≡ ok r
      → (v : Value) × (step ≡ ok v) × (rest v ≡ ok r)
  >>=-eq-ok (err error) rest returned = cc
  >>=-eq-ok (ok value) rest returned = (value, refl, returned)

module _ {ℓ κ} {Value : Type ℓ} {Rest : Type κ} where
  -- The rest of a function may be replaced by one that does the same.
  pub >>=-cong :
      (step : Result Value) {rest other : Value → Result Rest}
      → ((v : Value) → rest v ≡ other v)
      → (step >>= rest) ≡ (step >>= other)
  >>=-cong (err error) same = refl
  >>=-cong (ok value) same = same value

  pub >>=-assoc {μ} :
      {Last : Type μ} (step : Result Value) (rest : Value → Result Rest) (last : Rest → Result Last)
      → ((step >>= rest) >>= last) ≡ (step >>= λ v. rest v >>= last)
  >>=-assoc (err error) rest last = refl
  >>=-assoc (ok value) rest last = refl

infixl 5 ◌>>◌
abbrev pub ◌>>◌ {κ} : {Rest : Type κ} → Result (Unit {0}) → Result Rest → Result Rest
step >> rest = step >>= (λ done. rest)

-- `if test: raise e`
abbrev pub raise_if : Bool → Error → Result (Unit {0})
raise_if true e = err e
raise_if false e = ok tt

-- `d[key]`
abbrev pub need {ℓ} : {A : Type ℓ} → String → Option A → Result A
need key none = err (key_error key)
need key (some a) = ok a

pub ok-injective {ℓ} : {A : Type ℓ} {a b : A} → ok a ≡ ok b → a ≡ b
ok-injective h = cc

-- `raise_if` lets through only what fails the test.
pub raise_if-false : (b : Bool) (e : Error) {u : Unit {0}} → raise_if b e ≡ ok u → b ≡ false
raise_if-false false e h = refl
raise_if-false true e h = cc

-- A step that raises nothing.
abbrev pub Returns {ℓ} : {A : Type ℓ} → Result A → Type ℓ
Returns {A} r = (a : A) × (r ≡ ok a)

pub Returns-if {ℓ} :
    {A : Type ℓ} (b : Bool) (x y : Result A) → Returns x → Returns y → Returns (if b then x else y)
Returns-if true x y h k = h
Returns-if false x y h k = k

pub Returns->>= {ℓ κ} :
    {A : Type ℓ} {B : Type κ} (step : Result A) (rest : A → Result B)
    → Returns step
    → ((a : A) → Returns (rest a))
    → Returns (step >>= rest)
Returns->>= (err e) rest h k = cc
Returns->>= (ok a) rest h k = k a

pub need-Returns {ℓ} :
    {A : Type ℓ} (key : String) (o : Option A) → is_some o ≡ true → Returns (need key o)
need-Returns key none h = cc
need-Returns key (some a) h = (a, refl)
