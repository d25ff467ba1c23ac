-- ===== src/Base/Errors.antt =====
-- Go's `(value, error)` and `error` results. An error is its message.
use Prim.Native.String.{String}
use mathlib.Core.Path.{◌≡◌, refl, sym}
use mathlib.Core.Logic.{◌⊎◌, inl, inr}
use mathlib.Core.Bool.{Bool, true, false}
use mathlib.Core.Option.{Option, none, some}

pub data Result {ℓ} (A : Type ℓ) : Type ℓ where
  ok : A → Result A
  err : String → Result A

-- `value, err := m; if err != nil { return err }`, and what goes on with the value
infixl 5 ◌>>=◌
abbrev pub ◌>>=◌ {ℓ κ} :
    {Value : Type ℓ} {Next : Type κ} → Result Value → (Value → Result Next) → Result Next
err message >>= next = err message
ok value >>= next = next value

-- a check, whose value says nothing
infixr 5 ◌>>◌
abbrev pub ◌>>◌ {κ} : {Next : Type κ} → Result (Unit {0}) → Result Next → Result Next
check >> next = check >>= (λ passed. next)

-- `if bad { return errors.New(message) }`
abbrev pub reject_if : Bool → String → Result (Unit {0})
reject_if true message = err message
reject_if false message = ok tt

-- A result with its error, as data that a proof can split on.
pub Result-cases {ℓ} :
    {A : Type ℓ} (r : Result A) → ((a : A) × (r ≡ ok a)) ⊎ ((e : String) × (r ≡ err e))
Result-cases (ok a) = inl (a, refl)
Result-cases (err e) = inr (e, refl)

-- A guard that was passed did not fire, and what follows it succeeded.
pub reject_if-eq-ok {ℓ} :
    {B : Type ℓ} (b : Bool) (message : String) (k : Result B) {x : B}
    → (reject_if b message >> k) ≡ ok x
    → (b ≡ false) × (k ≡ ok x)
reject_if-eq-ok true message k h = cc
reject_if-eq-ok false message k h = (refl, h)

pub >>=-eq-ok {ℓ κ} :
    {Value : Type ℓ} {Next : Type κ} (r : Result Value) (next : Value → Result Next) {y : Next}
    → (r >>= next) ≡ ok y
    → (x : Value) × (r ≡ ok x) × (next x ≡ ok y)
>>=-eq-ok (err message) next h = cc
>>=-eq-ok (ok x) next h = (x, refl, h)

none-ne-some : {x : String} → ¬ (none ≡ some x)
none-ne-some h = cc

-- What answered no error answered none.
pub no_error {ℓ} : {P : Type ℓ} (r : Option String) (e : String) → r ≡ none → r ≡ some e → P
no_error none e p q = elim (none-ne-some q) [ ]
no_error (some x) e p q = elim (none-ne-some (sym p)) [ ]

pub ok_inj {ℓ} : {A : Type ℓ} {x y : A} → ok x ≡ ok y → x ≡ y
ok_inj h = cc
