-- ===== src/Ptz/Serves.antt =====
-- Conditions on what a handler of src/ptz_service.c serves, through the steps of its `do` block.
use thingino_onvif.Base.{ℕ, Bool, true, false, ◌≡◌, refl, ap, subst}
use thingino_onvif.Ptz.{Handled, served, refused, undefined, PtzFault, ◌>>=◌, ◌>>◌, unless}

-- A condition on what a handler serves.
abbrev pub Serves {ℓ κ} : {A : Type ℓ} → (A → Type κ) → Handled A → Type κ
Serves P (served a) = P a
Serves P (refused code e) = Unit
Serves P undefined = Unit

pub Serves-bind {ℓ κ μ} :
    {A : Type ℓ} {B : Type κ} (P : B → Type μ) (m : Handled A) (k : A → Handled B)
    → ((a : A) → m ≡ served a → Serves P (k a))
    → Serves P (m >>= k)
Serves-bind P (served a) k h = h a refl
Serves-bind P (refused code e) k h = tt
Serves-bind P undefined k h = tt

-- What is known of the first step is handed on.
pub Serves-then {ℓ κ μ ν} :
    {A : Type ℓ} {B : Type κ} (P : B → Type μ) (Q : A → Type ν) (m : Handled A) (k : A → Handled B)
    → Serves Q m
    → ((a : A) → Q a → Serves P (k a))
    → Serves P (m >>= k)
Serves-then P Q (served a) k q h = h a q
Serves-then P Q (refused code e) k q h = tt
Serves-then P Q undefined k q h = tt

-- Behind a check that was passed.
pub Serves-unless {ℓ κ} :
    {A : Type ℓ} (P : A → Type κ) (b : Bool) (code : ℕ) (e : PtzFault) (m : Handled A)
    → (b ≡ false → Serves P m)
    → Serves P (unless b code e >> m)
Serves-unless P true code e m h = tt
Serves-unless P false code e m h = h refl

pub Serves-elim {ℓ κ} :
    {A : Type ℓ} (P : A → Type κ) (m : Handled A) {a : A} → Serves P m → m ≡ served a → P a
Serves-elim P (served a) h e = subst P (ap (served_or a) e) h
  where
    served_or : {A : Type ℓ} → A → Handled A → A
    served_or d (served x) = x
    served_or d (refused code f) = d
    served_or d undefined = d
Serves-elim P (refused code f) h e = cc
Serves-elim P undefined h e = cc
