-- ===== src/World/Keeps.antt =====
-- Properties of the log of calls that a step keeps, one rule for each way to build a step.
use hurricache_go_client.Prelude.{◌≡◌, Bool, true, false, List, if◌then◌else◌}
use hurricache_go_client.Errors.{Except, ok, err, Error, Ret}
use hurricache_go_client.Rpc.{Call}
use hurricache_go_client.World.{
  continue, continue_or, continue_handled, World, Step, Exec, ◌>>=◌, or_return, or_handle,
}

-- If the log has `P` before the step, it has `P` after it, whether the step fails or not.
pub record Keeps {A : Type 0} (P : List Call → Type 0) (m : Step A) : Type 0 where
  pub at : (w : World) → P w.log → P (m w).1.log

module _ {P : List Call → Type 0} where
  pub Keeps-if :
      {A : Type 0} (b : Bool) {m n : Step A} → Keeps P m → Keeps P n → Keeps P (if b then m else n)
  Keeps-if true h k = h
  Keeps-if false h k = k

  -- A step that makes no call.
  pub Keeps-same : {A : Type 0} {m : Step A} → ((w : World) → (m w).1.log ≡ w.log) → Keeps P m
  Keeps-same h = record { at = λ w p. rw (h w) p }

module _ {P : List Call → Type 0} {A B : Type 0} where
  pub Keeps-bind :
      {m : Exec A} {f : A → Exec B} → Keeps P m → ((a : A) → Keeps P (f a)) → Keeps P (m >>= f)
  unfolding ◌>>=◌
  Keeps-bind {m} {f} h k = record { at = λ w p. go (m w) (h.at w p) }
    where
      go : (r : Except A × World) → P r.1.log → P (continue r.0 f r.1).1.log
      go (ok a, w) p = (k a).at w p
      go (err e, w) p = p

  pub Keeps-or_handle :
      (h : Error → Ret B) {m : Exec A} {f : A → Step (Ret B)}
      → Keeps P m
      → ((a : A) → Keeps P (f a))
      → Keeps P (or_handle h m f)
  unfolding or_handle
  Keeps-or_handle h {m} {f} km k = record { at = λ w p. go (m w) (km.at w p) }
    where
      go : (r : Except A × World) → P r.1.log → P (continue_handled h r.0 f r.1).1.log
      go (ok a, w) p = (k a).at w p
      go (err e, w) p = p

  pub Keeps-or_return :
      (z : B) {m : Exec A} {f : A → Step (Ret B)}
      → Keeps P m
      → ((a : A) → Keeps P (f a))
      → Keeps P (or_return z m f)
  unfolding or_return
  Keeps-or_return z {m} {f} km k = record { at = λ w p. go (m w) (km.at w p) }
    where
      go : (r : Except A × World) → P r.1.log → P (continue_or z r.0 f r.1).1.log
      go (ok a, w) p = (k a).at w p
      go (err e, w) p = p
