-- ===== src/World/Laws.antt =====
-- How chains of fallible steps compute, for proofs in which the steps stay shut.
use hurricache_go_client.Prelude.{◌≡◌, refl, some}
use hurricache_go_client.Errors.{Except, ok, err, Error, Ret}
use hurricache_go_client.World.{World, Step, Exec, ◌>>=◌, or_return, or_handle, continue_handled}

-- How a step ended, with the world after it.
pub data Ended {ℓ} {A : Type ℓ} (r : Except A × World) : Type ℓ where
  succeeded : (a : A) (w : World) → r ≡ (ok a, w) → Ended r
  failed : (e : Error) (w : World) → r ≡ (err e, w) → Ended r

pub Ended-cases {ℓ} : {A : Type ℓ} (r : Except A × World) → Ended r
Ended-cases (ok a, w) = succeeded a w refl
Ended-cases (err e, w) = failed e w refl

module _ {A B : Type 0} (m : Exec A) (f : A → Exec B) {w v : World} where
  pub >>=-ok : {a : A} → m w ≡ (ok a, v) → (m >>= f) w ≡ f a v
  unfolding ◌>>=◌
  >>=-ok h = rw h

  pub >>=-err : {e : Error} → m w ≡ (err e, v) → (m >>= f) w ≡ (err e, v)
  unfolding ◌>>=◌
  >>=-err h = rw h

module _ {A B : Type 0} (z : B) (m : Exec A) (f : A → Step (Ret B)) {w v : World} where
  pub or_return-ok : {a : A} → m w ≡ (ok a, v) → or_return z m f w ≡ f a v
  unfolding or_return
  or_return-ok h = rw h

  pub or_return-err : {e : Error} → m w ≡ (err e, v) → or_return z m f w ≡ ((z, some e), v)
  unfolding or_return
  or_return-err h = rw h

-- What holds of a handled step: of the handler on each error, of the rest on each result.
pub or_handle-all :
    {A B : Type 0} (Q : Ret B → Type 0) (h : Error → Ret B) (m : Exec A) (f : A → Step (Ret B))
    (w : World)
    → ((e : Error) → Q (h e))
    → ((a : A) (v : World) → Q (f a v).0)
    → Q (or_handle h m f w).0
unfolding or_handle
or_handle-all {A} {B} Q h m f w p q = go (m w)
  where
    go : (r : Except A × World) → Q (continue_handled h r.0 f r.1).0
    go (ok a, v) = q a v
    go (err e, v) = p e
