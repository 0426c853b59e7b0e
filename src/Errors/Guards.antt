-- ===== src/Errors/Guards.antt =====
-- The guards of the code, which return an error early, read back from a success.
use hurricache_go_client.Prelude.{◌≡◌, refl, ap, Bool, true, false, if◌then◌else◌, arith}
use hurricache_go_client.Errors.{Except, ok, err, Error}

-- A guard that refuses, and what it lets through.
pub if_ok {ℓ} :
    {A : Type ℓ} (c : Bool) (x : Except A) (e : Error) (a : A)
    → (if c then x else err e) ≡ ok a
    → (c ≡ true) × (x ≡ ok a)
if_ok true x e a h = (refl, h)
if_ok false x e a h = absurd (ground arith)

pub if_not {ℓ} :
    {A : Type ℓ} (c : Bool) (x : Except A) (e : Error) (a : A)
    → (if c then err e else x) ≡ ok a
    → (c ≡ false) × (x ≡ ok a)
if_not false x e a h = (refl, h)
if_not true x e a h = absurd (ground arith)

pub ok_inj {ℓ} : {A : Type ℓ} (x y : A) → Path (Except A) (ok x) (ok y) → x ≡ y
ok_inj {A = A} x y e = ap (λ c. elim c as (λ z. A) [ ok v ↦ v | err r ↦ x ]) e

-- A result that is passed on.
pub after_ok {ℓ κ} :
    {A : Type ℓ} {B : Type κ} (r : Except A) (f : A → Except B) (b : B)
    → elim r as (λ x. Except B) [ err e ↦ err e | ok a ↦ f a ] ≡ ok b
    → (a : A) × (r ≡ ok a) × (f a ≡ ok b)
after_ok (ok a) f b h = (a, refl, h)
after_ok (err e) f b h = absurd (ground arith)
