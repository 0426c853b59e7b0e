-- ===== src/Session/Limits.antt =====
-- client.go: no request above the configured size leaves the client.
use hurricache_go_client.Prelude.{
  ℤ, pos, ltb_ℤ, ◌≡◌, refl, Bool, false, List, All, All-append, Bool-cases, inl, inr, arith, sym,
}
use hurricache_go_client.Errors.{Ret}
use hurricache_go_client.Types.{Bytes, Options}
use hurricache_go_client.Config.{Config}
use hurricache_go_client.Rpc.{Method, Request, Response, Call, Stub, message}
use hurricache_go_client.World.{Ctx, Environment, World, Step, Exec, ◌>>=◌, lift, or_return}
use hurricache_go_client.World.Keeps.{Keeps, Keeps-bind, Keeps-or_return, Keeps-same}
use hurricache_go_client.Session.{
  Session, Backend, unary, invoke, check_context, check_size, too_large, prepare, perform,
  direct_run, effective_ttl, expiry,
}

module _ (env : Environment) (max : ℤ) where
  -- The serialized request of a call is within the limit.
  abbrev pub IsWithin : Call → Type 0
  IsWithin c = ltb_ℤ max (pos (env.proto_size (message c.method c.request))) ≡ false

  abbrev pub AllWithin : List Call → Type 0
  AllWithin = All IsWithin

-- A backend that keeps a property of the log, if its actions do.
abbrev pub Respects : (List Call → Type 0) → Backend → Type 1
Respects P backend =
    (T : Type 0) (z : T) (ctx : Ctx) (o : Options) (write : Bool) (action : Stub → Step (Ret T))
    → ((stub : Stub) → Keeps P (action stub))
    → Keeps P (backend T z ctx o write action)

pub check_context-Keeps : {P : List Call → Type 0} (ctx : Ctx) → Keeps P (check_context ctx)
unfolding check_context
check_context-Keeps ctx = Keeps-same (λ w. refl)

module _ (env : Environment) where
  -- A request that was checked is sent.
  pub sent-Keeps :
      (c : Config) (stub : Stub) (m : Method) (q : Request m)
      → Keeps
          (AllWithin env c.max_request_bytes)
          (lift (check_size env c m q) >>= λ _. invoke env stub m q)
  unfolding ◌>>=◌ invoke
  sent-Keeps c stub m q = record {
    at = λ w p. elim (Bool-cases (too_large env c m q)) [
      | inl large ↦ rw large p
      | inr small ↦ rw small (All-append _ w.log _ p (small, tt))
    ];
  }

  pub unary-Keeps :
      (s : Session) (m : Method) (q : Request m)
      → Keeps (AllWithin env s.config.max_request_bytes) (unary env s m q)
  unfolding unary
  unary-Keeps s m q = Keeps-bind (check_context-Keeps s.ctx) (λ _. sent-Keeps s.config s.stub m q)

module _ (env : Environment) {P : List Call → Type 0} where
  expiry-Keeps : (ttl : ℤ) → Keeps P (expiry env ttl)
  expiry-Keeps ttl = Keeps-same (λ w. ground arith)

  -- What comes before the backend makes no call.
  prepare-Keeps :
      (c : Config) (caller : Ctx) (key : Bytes) (o : Options) → Keeps P (prepare env c caller key o)
  unfolding prepare
  prepare-Keeps c caller key o = Keeps-bind (Keeps-same (λ w. refl)) λ _.
      Keeps-bind (check_context-Keeps caller) λ _. Keeps-bind (Keeps-same (λ w. refl)) λ _.
        Keeps-bind (Keeps-same (λ w. refl))
          λ k. Keeps-bind (expiry-Keeps (effective_ttl c o)) λ t. Keeps-same (λ w. refl)

  -- `perform` over such a backend keeps what every session's action keeps.
  pub perform-Keeps :
      (backend : Backend) (T : Type 0) (z : T) (c : Config) (caller : Ctx) (key : Bytes)
      (o : Options) (write : Bool) (f : Session → Step (Ret T))
      → Respects P backend
      → ((s : Session) → s.config ≡ c → Keeps P (f s))
      → Keeps P (perform env backend T z c caller key o write f)
  unfolding perform
  perform-Keeps backend T z c caller key o write f r k =
      Keeps-or_return z (prepare-Keeps c caller key o) (λ kt. r T z _ o write _ (λ stub. k _ refl))

pub direct_run-Respects :
    {P : List Call → Type 0} (env : Environment) (stub : Stub) → Respects P (direct_run env stub)
unfolding direct_run
direct_run-Respects env stub T z ctx o write action k =
    Keeps-or_return z (check_context-Keeps ctx) (λ _. k stub)

module _ (env : Environment) (c : Config) where
  pub unary-within :
      (s : Session)
      → s.config ≡ c
      → (m : Method) (q : Request m) → Keeps (AllWithin env c.max_request_bytes) (unary env s m q)
  unary-within s e m q = rw (sym e) (unary-Keeps env s m q)

module _ (env : Environment) (backend : Backend) (c : Config) (caller : Ctx) (key : Bytes)
    (o : Options) (r : Respects (AllWithin env c.max_request_bytes) backend) where
  -- One call, and an answer that is read without one.
  pub call-Keeps :
      (T : Type 0) (z z' : T) (write : Bool) (m : Method) (q : Session → Request m)
      (k : Session → Response m → Step (Ret T))
      → ((s : Session) (a : Response m) (w : World) → (k s a w).1.log ≡ w.log)
      → Keeps (AllWithin env c.max_request_bytes) (
          perform env backend T z c caller key o write
            (λ s. or_return z' (unary env s m (q s)) (k s)))
  call-Keeps T z z' write m q k g =
      perform-Keeps env backend _ _ c caller key o _ _ r
        (λ s e. Keeps-or_return _ (unary-within env c s e m (q s)) (λ a. Keeps-same (g s a)))

  -- The same, where other steps come before the call.
  pub steps-Keeps :
      (T : Type 0) (z z' : T) (write : Bool) (A : Type 0) (m : Session → Exec A)
      (k : Session → A → Step (Ret T))
      → ((s : Session) → s.config ≡ c → Keeps (AllWithin env c.max_request_bytes) (m s))
      → ((s : Session) (a : A) (w : World) → (k s a w).1.log ≡ w.log)
      → Keeps
          (AllWithin env c.max_request_bytes)
          (perform env backend T z c caller key o write (λ s. or_return z' (m s) (k s)))
  steps-Keeps T z z' write A m k h g =
      perform-Keeps env backend _ _ c caller key o _ _ r
        (λ s e. Keeps-or_return _ (h s e) (λ a. Keeps-same (g s a)))
