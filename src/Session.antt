-- ===== src/Session.antt =====
-- client.go: `session`, `unary` and `perform`, which every operation of the client goes through.
pub mod Limits
pub mod Answers
pub mod Refusals
use hurricache_go_client.Prelude.{
  ℕ, zero, suc, ℤ, pos, ltb_ℤ, is_zero, pos_part, ◌+◌, ◌/◌, Bool, true, false, not, ◌&&◌, ◌||◌,
  Option, none, some, List, [], ◌∷◌, ◌++◌, if◌then◌else◌,
}
use hurricache_go_client.Errors.{
  Except, ok, err, Error, Ret, Code, CtxErr, ctx_canceled, ctx_deadline, status, foreign, rpc,
  from_context_error, invalid_argument, canceled, resource_exhausted,
}
use hurricache_go_client.Types.{Bytes, Options, RoutingMode, other_mode}
use hurricache_go_client.Wire.{Key}
use hurricache_go_client.Config.{Config, is_negative}
use hurricache_go_client.Codec.{encode_key}
use hurricache_go_client.Rpc.{
  Method, message, Request, Response, Call, Reply, response, failure, Stub,
}
use hurricache_go_client.World.{
  Ctx, Environment, World, Step, Exec, observe, lift, ◌>>=◌, ◌>>◌, or_return,
}

pub record Session : Type 0 where
  pub ctx : Ctx
  pub stub : Stub
  pub key : Key
  pub ttl : Option ℕ
  pub config : Config

-- `if ctx.Err() != nil { return zero, status.FromContextError(ctx.Err()).Err() }`.
abbrev context_result : Option CtxErr → Except (Unit {0})
context_result none = ok tt
context_result (some e) = err (from_context_error e)

unfoldable pub check_context : Ctx → Exec (Unit {0})
check_context ctx w = let (e, w') = observe ctx w in (context_result e, w')

-- The context that `perform` makes of the caller's: it ends too when the client is closed, or when
-- a positive time-out runs out.
abbrev first_error : Option CtxErr → Bool → Bool → Option CtxErr
first_error (some e) closed late = some e
first_error none true late = some ctx_canceled
first_error none false true = some ctx_deadline
first_error none false false = none

abbrev reply_result {ℓ} : {A : Type ℓ} → Reply A → Except A
reply_result (response a) = ok a
reply_result (failure c routes) = err (rpc (foreign c) routes)

module _ (env : Environment) where
  abbrev pub call_context : Ctx → ℤ → Ctx
  call_context caller timeout t =
      first_error (caller t) (env.closed t) (ltb_ℤ (pos 0) timeout && env.elapsed timeout t)

  -- Whether a request may be sent under the configured limit.
  abbrev pub too_large : Config → (m : Method) → Request m → Bool
  too_large c m q = ltb_ℤ c.max_request_bytes (pos (env.proto_size (message m q)))

  -- The call of the stub: it is logged, and the server answers.
  unfoldable pub invoke : Stub → (m : Method) → Request m → Exec (Response m)
  invoke stub m q w =
      let call : Call = record { stub = stub; method = m; request = q } in
      (reply_result (env.respond w.log call), record w { log = w.log ++ call ∷ [] })

  abbrev pub check_size : Config → (m : Method) → Request m → Except (Unit {0})
  check_size c m q = if too_large c m q then err (status resource_exhausted) else ok tt

  unfoldable pub unary : Session → (m : Method) → Request m → Exec (Response m)
  unary s m q = do check_context s.ctx; lift (check_size s.config m q); invoke s.stub m q

-- A backend runs an action on a stub of its choice, perhaps on a second one, or refuses; `T`'s zero
-- value goes with a refusal.
abbrev pub Backend : Type 1
Backend = (T : Type 0) → T → Ctx → Options → Bool → (Stub → Step (Ret T)) → Step (Ret T)

abbrev or_else {ℓ} : {A : Type ℓ} → Option A → A → A
or_else none d = d
or_else (some a) d = a

abbrev pub is_mode : Option RoutingMode → Bool
is_mode (some (other_mode n)) = false
is_mode _ = true

abbrev pub effective_timeout : Config → Options → ℤ
effective_timeout c o = or_else o.timeout c.timeout

abbrev pub effective_ttl : Config → Options → ℤ
effective_ttl c o = or_else o.ttl c.default_ttl

abbrev pub effective_id : Config → Options → ℕ
effective_id c o = or_else o.client_id c.client_id

abbrev pub invalid_options : Config → Options → Bool
invalid_options c o =
    is_negative (effective_timeout c o) || is_negative (effective_ttl c o) || not (is_mode o.mode)

-- `uint64(time.Now().Add(ttl).UnixMilli())` for a TTL that is not negative.
abbrev pub expiry_at : ℕ → ℤ → ℕ
expiry_at now ttl = (now + pos_part ttl) / 1000000

module _ (env : Environment) where
  -- The expiration of a call, if its TTL is not zero.
  abbrev pub expiry : ℤ → Exec (Option ℕ)
  expiry ttl w =
      if is_zero ttl
      then (ok none, w)
      else (let (t, w') = observe env.now w in (ok (some (expiry_at t ttl)), w'))

  abbrev check_open : Exec (Unit {0})
  check_open w =
      let (c, w') = observe env.closed w in (if c then err (status canceled) else ok tt, w')

  abbrev check_options : Config → Options → Except (Unit {0})
  check_options c o = if invalid_options c o then err (status invalid_argument) else ok tt

  -- What `perform` does before it hands over to the backend: the key and the expiration.
  unfoldable pub prepare : Config → Ctx → Bytes → Options → Exec (Key × Option ℕ)
  prepare c caller key o = do
    lift (check_options c o)
    check_context caller
    check_open
    k ← lift (encode_key env.compressors key o.hint (some (effective_id c o)) c)
    t ← expiry (effective_ttl c o)
    lift (ok (k, t))

  unfoldable pub perform :
      Backend
      → (T : Type 0) → T
      → Config
      → Ctx
      → Bytes
      → Options
      → Bool
      → (Session → Step (Ret T))
      → Step (Ret T)
  perform backend T z c caller key o write f = or_return z (prepare c caller key o) λ kt.
      let ctx = call_context env caller (effective_timeout c o) in
      backend T z ctx o write
        λ stub. f (record { ctx = ctx; stub = stub; key = kt.0; ttl = kt.1; config = c })

  -- `directBackend.run`.
  unfoldable pub direct_run : Stub → Backend
  direct_run stub T z ctx o write action = or_return z (check_context ctx) λ _. action stub
