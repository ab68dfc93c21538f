-- ===== src/Prelude/Results.antt =====
-- Results of fallible code, for each type of errors, with the chain that `?` stands for.
use recovery_guardian_contra.Prelude.{◌∙◌, ap}
use mathlib.Core.Path.{ap, ◌≡◌, refl}
use mathlib.Core.Bool.{Bool, true, false}
use mathlib.Core.Option.{Option, some, none}

pub data Result {ℓ κ} (E : Type ℓ) (A : Type κ) : Type (ℓ ⊔ κ) where
  err : (error : E) → Result E A
  ok : (value : A) → Result E A

infixl 5 ◌>>=◌ ◌>>◌
-- `result.and_then(next)`.
abbrev pub ◌>>=◌ {ℓ κ μ} :
    {E : Type ℓ} {A : Type κ} {B : Type μ} → Result E A → (A → Result E B) → Result E B
err error >>= next = err error
ok value >>= next = next value

abbrev pub ◌>>◌ {ℓ κ μ} :
    {E : Type ℓ} {A : Type κ} {B : Type μ} → Result E A → Result E B → Result E B
first >> next = first >>= λ _. next

-- `require!(test, error)`.
abbrev pub require {ℓ} : {E : Type ℓ} → Bool → E → Result E (Unit {0})
require true e = ok tt
require false e = err e

-- `option.ok_or(error)`.
abbrev pub ok_or {ℓ κ} : {E : Type ℓ} {A : Type κ} → Option A → E → Result E A
ok_or none e = err e
ok_or (some a) e = ok a

-- `result.map_err(f)`.
abbrev pub map_err {ℓ κ μ} :
    {E : Type ℓ} {F : Type κ} {A : Type μ} → (E → F) → Result E A → Result F A
map_err f (ok a) = ok a
map_err f (err e) = err (f e)

-- `result.map(f)`.
abbrev pub map_ok {ℓ κ μ} :
    {E : Type ℓ} {A : Type κ} {B : Type μ} → (A → B) → Result E A → Result E B
map_ok f (ok a) = ok (f a)
map_ok f (err e) = err e

-- The call returned a value.
abbrev pub IsOk {ℓ κ} : {E : Type ℓ} {A : Type κ} → Result E A → Type (ℓ ⊔ κ)
IsOk {A} r = (a : A) × (r ≡ ok a)

-- What a chain returns, its last step returns, from a value of the first.
pub >>=-eq-ok {ℓ κ μ} :
    {E : Type ℓ} {A : Type κ} {B : Type μ} (first : Result E A) (next : A → Result E B)
    → {result : B} → (first >>= next) ≡ ok result
    → (value : A) × (first ≡ ok value) × (next value ≡ ok result)
>>=-eq-ok (err error) next returned = cc
>>=-eq-ok (ok value) next returned = (value, refl, returned)

-- A check that was passed held, and what follows it returned.
pub require-eq-ok {ℓ μ} :
    {E : Type ℓ} {B : Type μ} (test : Bool) (e : E) (next : Result E B) {b : B}
    → (require test e >> next) ≡ ok b
    → (test ≡ true) × (next ≡ ok b)
require-eq-ok true e next h = (refl, h)
require-eq-ok false e next h = cc

-- A renamed error is still an error.
pub map_err-eq-ok {ℓ κ μ} :
    {E : Type ℓ} {F : Type κ} {A : Type μ} (f : E → F) (r : Result E A) {a : A}
    → map_err f r ≡ ok a
    → r ≡ ok a
map_err-eq-ok f (ok a) h = cc
map_err-eq-ok f (err e) h = cc

pub ok_injective {ℓ κ} :
    {E : Type ℓ} {A : Type κ} {a b : A} → ◌≡◌ {A = Result E A} (ok a) (ok b) → a ≡ b
ok_injective h = cc

-- A chain returns where its first step does and what follows it does too.
pub IsOk->>= {ℓ κ μ} :
    {E : Type ℓ} {A : Type κ} {B : Type μ} (first : Result E A) (next : A → Result E B) {value : A}
    → first ≡ ok value
    → IsOk (next value)
    → IsOk (first >>= next)
IsOk->>= (ok value) next e (result, returned) = (result, ap next (ok_injective e) ∙ returned)
IsOk->>= (err error) next e returned = cc

pub IsOk-require {ℓ μ} :
    {E : Type ℓ} {B : Type μ} (test : Bool) (e : E) (next : Result E B)
    → test ≡ true
    → IsOk next
    → IsOk (require test e >> next)
IsOk-require true e next held returned = returned
IsOk-require false e next held returned = cc

pub map_err-ok {ℓ κ μ} :
    {E : Type ℓ} {F : Type κ} {A : Type μ} (f : E → F) (r : Result E A) {a : A}
    → r ≡ ok a
    → map_err f r ≡ ok a
map_err-ok f r e = rw e

pub ok_or-eq-ok {ℓ κ} :
    {E : Type ℓ} {A : Type κ} (option : Option A) (e : E) {a : A}
    → ok_or option e ≡ ok a
    → option ≡ some a
ok_or-eq-ok none e h = cc
ok_or-eq-ok (some a) e h = cc

pub map_ok-eq-ok {ℓ κ μ} :
    {E : Type ℓ} {A : Type κ} {B : Type μ} (f : A → B) (r : Result E A) {b : B}
    → map_ok f r ≡ ok b
    → (a : A) × (r ≡ ok a) × (f a ≡ b)
map_ok-eq-ok f (ok a) h = (a, refl, ok_injective h)
map_ok-eq-ok f (err e) h = cc
