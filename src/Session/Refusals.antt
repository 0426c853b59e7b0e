-- ===== src/Session/Refusals.antt =====
-- client.go: when `perform` refuses, and what it hands to its backend otherwise.
use hurricache_go_client.Prelude.{
  ℕ, suc, ℤ, pos, ◌≤ℤ◌, ◌<ℤ◌, ◌≡◌, refl, ap, Bool, true, false, not, ◌||◌, Option, none, some,
  Bool-cases, inl, inr, arith, is_zero,
}
use hurricache_go_client.Errors.{
  Except, ok, err, Error, Ret, CtxErr, status, from_context_error, invalid_argument, canceled,
}
use hurricache_go_client.Types.{Bytes, Options}
use hurricache_go_client.Wire.{Key}
use hurricache_go_client.Config.{Config, is_negative}
use hurricache_go_client.Codec.{encode_key}
use hurricache_go_client.World.{Ctx, Environment, World, Step, ◌>>=◌, or_return}
use hurricache_go_client.Session.{
  Session, Backend, check_context, invalid_options, prepare, perform, effective_timeout,
  effective_ttl, effective_id, is_mode, expiry_at, call_context,
}

not_positive : (a : ℤ) → is_zero a ≡ true → pos 0 <ℤ a → ⊥
not_positive a h k = ground arith

both : (b : Bool) → b ≡ true → b ≡ false → ⊥
both b h k = ground arith

not_zero : (a : ℤ) → is_zero a ≡ false → a ≡ pos 0 → ⊥
not_zero a h k = both (is_zero a) (ap is_zero k) h

module _ (env : Environment) (backend : Backend) (T : Type 0) (z : T) (c : Config) (caller : Ctx)
    (key : Bytes) (o : Options) (write : Bool) (f : Session → Step (Ret T)) (w : World) where
  -- The refusal with an error, after looking `n` times at the clock of the world.
  abbrev Refuses : Error → ℕ → Type 0
  Refuses e n =
      perform env backend T z c caller key o write f w ≡ ((z, some e), record w { tick = n })

  invalid-Refuses : invalid_options c o ≡ true → Refuses (status invalid_argument) w.tick
  unfolding perform prepare or_return ◌>>=◌
  invalid-Refuses h = rw h refl

  ended-Refuses :
      (e : CtxErr)
      → invalid_options c o ≡ false
      → caller w.tick ≡ some e
      → Refuses (from_context_error e) (suc w.tick)
  unfolding perform prepare or_return ◌>>=◌ check_context
  ended-Refuses e h x = rw (h, x) refl

  closed-Refuses :
      invalid_options c o ≡ false
      → caller w.tick ≡ none
      → env.closed (suc w.tick) ≡ true
      → Refuses (status canceled) (suc (suc w.tick))
  unfolding perform prepare or_return ◌>>=◌ check_context
  closed-Refuses h x k = rw (h, x, k) refl

  unencoded-Refuses :
      (e : Error)
      → invalid_options c o ≡ false
      → caller w.tick ≡ none
      → env.closed (suc w.tick) ≡ false
      → encode_key env.compressors key o.hint (some (effective_id c o)) c ≡ err e
      → Refuses e (suc (suc w.tick))
  unfolding perform prepare or_return ◌>>=◌ check_context
  unencoded-Refuses e h x k j = rw (h, x, k, j) refl

  -- Why an operation is refused, in the order of the checks, with the error and the clock afterwards.
  pub data Reason : Error → ℕ → Type 0 where
    by_options : invalid_options c o ≡ true → Reason (status invalid_argument) w.tick
    by_context :
        (e : CtxErr)
        → invalid_options c o ≡ false
        → caller w.tick ≡ some e
        → Reason (from_context_error e) (suc w.tick)
    by_close :
        invalid_options c o ≡ false
        → caller w.tick ≡ none
        → env.closed (suc w.tick) ≡ true
        → Reason (status canceled) (suc (suc w.tick))
    by_key :
        (e : Error)
        → invalid_options c o ≡ false
        → caller w.tick ≡ none
        → env.closed (suc w.tick) ≡ false
        → encode_key env.compressors key o.hint (some (effective_id c o)) c ≡ err e
        → Reason e (suc (suc w.tick))

  -- What holds of an operation that reaches its backend: its time-out and its TTL are not negative, its mode is
  -- known, its caller's context had not ended and the client was not closed; its session has the encoded key
  -- and an expiration exactly where there is a TTL.
  pub record IsAdmitted (k : Key) (t : Option ℕ) : Type 0 where
    pub timeout : pos 0 ≤ℤ effective_timeout c o
    pub ttl : pos 0 ≤ℤ effective_ttl c o
    pub mode : is_mode o.mode ≡ true
    pub context : caller w.tick ≡ none
    pub opened : env.closed (suc w.tick) ≡ false
    pub encoded : encode_key env.compressors key o.hint (some (effective_id c o)) c ≡ ok k
    pub no_expiry : effective_ttl c o ≡ pos 0 → t ≡ none
    pub expires :
        pos 0 <ℤ effective_ttl c o
        → t ≡ some (expiry_at (env.now (suc (suc w.tick))) (effective_ttl c o))

  pub data PerformOutcome : Type 0 where
    refused : (e : Error) (n : ℕ) → Reason e n → Refuses e n → PerformOutcome
    admitted :
        (k : Key) (t : Option ℕ) (v : World)
        → IsAdmitted k t
        → v.log ≡ w.log
        → perform env backend T z c caller key o write f w
          ≡ backend T z
              (call_context env caller (effective_timeout c o))
              o
              write
              (λ stub. f (record {
                ctx = call_context env caller (effective_timeout c o);
                stub = stub;
                key = k;
                ttl = t;
                config = c;
              }))
              v
        → PerformOutcome

  valid_options :
      invalid_options c o ≡ false
      → (pos 0 ≤ℤ effective_timeout c o) × (pos 0 ≤ℤ effective_ttl c o) × (is_mode o.mode ≡ true)
  valid_options h = three (effective_timeout c o) (effective_ttl c o) (is_mode o.mode) h
    where
      three :
          (a b : ℤ) (m : Bool)
          → (is_negative a || is_negative b || not m) ≡ false
          → (pos 0 ≤ℤ a) × (pos 0 ≤ℤ b) × (m ≡ true)
      three a b m h = (ground arith, ground arith, ground arith)

  by_ttl :
      (k : Key)
      → invalid_options c o ≡ false
      → caller w.tick ≡ none
      → env.closed (suc w.tick) ≡ false
      → encode_key env.compressors key o.hint (some (effective_id c o)) c ≡ ok k
      → PerformOutcome
  unfolding perform prepare or_return ◌>>=◌ check_context
  by_ttl k h x l j =
      let (a, b, m) = valid_options h in
      elim (Bool-cases (is_zero (effective_ttl c o))) [
        | inl y ↦
            admitted k none (record w { tick = suc (suc w.tick) })
              (record {
                timeout = a;
                ttl = b;
                mode = m;
                context = x;
                opened = l;
                encoded = j;
                no_expiry = λ u. refl;
                expires = λ u. absurd (not_positive _ y u);
              })
              refl (rw (h, x, l, j, y) refl)
        | inr y ↦
            admitted k (some (expiry_at (env.now (suc (suc w.tick))) (effective_ttl c o)))
              (record w { tick = suc (suc (suc w.tick)) })
              (record {
                timeout = a;
                ttl = b;
                mode = m;
                context = x;
                opened = l;
                encoded = j;
                no_expiry = λ u. absurd (not_zero _ y u);
                expires = λ u. refl;
              })
              refl (rw (h, x, l, j, y) refl)
      ]

  by_encoding :
      (r : Except Key)
      → invalid_options c o ≡ false
      → caller w.tick ≡ none
      → env.closed (suc w.tick) ≡ false
      → encode_key env.compressors key o.hint (some (effective_id c o)) c ≡ r
      → PerformOutcome
  by_encoding (ok k) h x l j = by_ttl k h x l j
  by_encoding (err e) h x l j = refused e _ (by_key e h x l j) (unencoded-Refuses e h x l j)

  by_life : (x : Option CtxErr) → invalid_options c o ≡ false → caller w.tick ≡ x → PerformOutcome
  by_life (some e) h x = refused _ _ (by_context e h x) (ended-Refuses e h x)
  by_life none h x = elim (Bool-cases (env.closed (suc w.tick))) [
    | inl k ↦ refused _ _ (by_close h x k) (closed-Refuses h x k)
    | inr k ↦ by_encoding _ h x k refl
  ]

  -- An operation is either refused with its zero value, the error of the first check that fails, and no call,
  -- or its backend runs its action, with no call before, and then every check holds: options in range, a
  -- context and a client that had not ended, and a session with the encoded key and the expiration.
  pub perform-PerformOutcome : PerformOutcome
  perform-PerformOutcome = elim (Bool-cases (invalid_options c o)) [
    | inl h ↦ refused _ _ (by_options h) (invalid-Refuses h)
    | inr h ↦ by_life (caller w.tick) h refl
  ]
