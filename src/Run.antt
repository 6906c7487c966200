-- ===== src/Run.antt =====
-- How a piece of the host code ends: with a result, or in a fault that C leaves undefined.
use orbit_cache_public.Prelude.{
  Bool, true, false, Option, none, some, if◌then◌else◌, ◌≡◌, refl, ◌⊎◌, inl, inr,
}

-- `null_pointer`: `strlen` of the NULL that `tommy_get` returns for a key that is not stored.
-- `buffer_overflow`: a write behind the value array of a header.
-- `stack_overflow`: an array on the stack that the stack has no room for.
pub data Fault : Type 0 where
  null_pointer buffer_overflow stack_overflow : Fault

pub data Run {ℓ} (A : Type ℓ) : Type ℓ where
  ok : A → Run A
  fault : Fault → Run A

infixl 5 ◌>>=◌ ◌>>◌
abbrev pub ◌>>=◌ {ℓ κ} : {A : Type ℓ} {B : Type κ} → Run A → (A → Run B) → Run B
ok a >>= f = f a
fault e >>= f = fault e

abbrev pub ◌>>◌ {ℓ} : {B : Type ℓ} → Run (Unit {0}) → Run B → Run B
m >> k = m >>= λ _. k

abbrev pub or_fault {ℓ} : {A : Type ℓ} → Option A → Fault → Run A
or_fault (some a) e = ok a
or_fault none e = fault e

abbrev pub guard : Bool → Fault → Run (Unit {0})
guard b e = if b then ok tt else fault e

-- What holds of the result, if there is one.
abbrev pub OnOk {ℓ κ} : {A : Type ℓ} → (A → Type κ) → Run A → Type κ
OnOk P (ok a) = P a
OnOk P (fault e) = Unit

pub OnOk-if {ℓ κ} :
    {A : Type ℓ} (P : A → Type κ) (b : Bool) (x y : Run A)
    → OnOk P x
    → OnOk P y
    → OnOk P (if b then x else y)
OnOk-if P true x y h k = h
OnOk-if P false x y h k = k

pub OnOk-imp {ℓ κ} :
    {A : Type ℓ} (P Q : A → Type κ) (m : Run A) → ((a : A) → P a → Q a) → OnOk P m → OnOk Q m
OnOk-imp P Q (ok a) f h = f a h
OnOk-imp P Q (fault e) f h = tt

pub OnOk-bind {ℓ κ ν} :
    {A : Type ℓ} {B : Type κ} (Q : B → Type ν) (m : Run A) (f : A → Run B)
    → ((a : A) → OnOk Q (f a))
    → OnOk Q (m >>= f)
OnOk-bind Q (ok a) f h = h a
OnOk-bind Q (fault e) f h = tt

pub OnOk-then {ℓ κ ν μ} :
    {A : Type ℓ} {B : Type κ} (P : A → Type ν) (Q : B → Type μ) (m : Run A) (f : A → Run B)
    → OnOk P m
    → ((a : A) → P a → OnOk Q (f a))
    → OnOk Q (m >>= f)
OnOk-then P Q (ok a) f h k = k a h
OnOk-then P Q (fault e) f h k = tt

pub Run-cases {ℓ} :
    {A : Type ℓ} (m : Run A) → ((a : A) × (m ≡ ok a)) ⊎ ((e : Fault) × (m ≡ fault e))
Run-cases (ok a) = inl (a, refl)
Run-cases (fault e) = inr (e, refl)

pub bind_assoc {ℓ κ ν} :
    {A : Type ℓ} {B : Type κ} {C : Type ν} (m : Run A) (f : A → Run B) (g : B → Run C)
    → ((m >>= f) >>= g) ≡ (m >>= λ a. f a >>= g)
bind_assoc (ok a) f g = refl
bind_assoc (fault e) f g = refl

abbrev pub Returns {ℓ} : {A : Type ℓ} → Run A → Type 0
Returns (ok a) = Unit
Returns (fault e) = ⊥

pub Returns-if {ℓ} :
    {A : Type ℓ} (b : Bool) (x y : Run A) → Returns x → Returns y → Returns (if b then x else y)
Returns-if true x y h k = h
Returns-if false x y h k = k

pub Returns-ok {ℓ} : {A : Type ℓ} (m : Run A) → Returns m → (a : A) × (m ≡ ok a)
Returns-ok (ok a) h = (a, refl)
Returns-ok (fault e) h = absurd h

pub Returns-bind {ℓ κ} :
    {A : Type ℓ} {B : Type κ} (m : Run A) (f : A → Run B)
    → Returns m
    → ((a : A) → Returns (f a))
    → Returns (m >>= f)
Returns-bind (ok a) f h k = k a
Returns-bind (fault e) f h k = absurd h

-- The condition of the outcome of a test.
abbrev pub Chosen {ℓ} : Bool → Type ℓ → Type ℓ → Type ℓ
Chosen true X Y = X
Chosen false X Y = Y

pub Returns-split {ℓ κ} :
    {A : Type ℓ} {X Y : Type κ} (b : Bool) (x y : Run A)
    → Chosen b X Y
    → (X → Returns x)
    → (Y → Returns y)
    → Returns (if b then x else y)
Returns-split true x y h f g = f h
Returns-split false x y h f g = g h
