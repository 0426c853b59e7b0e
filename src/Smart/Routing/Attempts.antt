-- ===== src/Smart/Routing/Attempts.antt =====
-- smart.go: how often `run` acts, and where.
use hurricache_go_client.Prelude.{
  suc, ◌≡◌, ◌≢◌, refl, true, false, Option, none, some, Bool-cases, inl, inr, ◌⊎◌, arith,
}
use hurricache_go_client.Errors.{
  Error, Ret, CtxErr, has_partial, status_code, is_failed_precondition, is_unavailable,
}
use hurricache_go_client.Rpc.{Stub}
use hurricache_go_client.World.{Ctx, World, Step}
use hurricache_go_client.Smart.Routing.{
  Topology, View, second_choice, distinct, attempt, asks_refresh, retry, after_first,
}

distinct_ne : (first : Stub) (o : Option Stub) {ep : Stub} → distinct first o ≡ some ep → ep ≢ first
distinct_ne first none h = cc
distinct_ne first (some x) h = ground arith

-- The second choice is never the endpoint that failed, and there is one only after FailedPrecondition or Unavailable.
abbrev IsRetryable : Error → Type 0
IsRetryable e =
    (is_failed_precondition (status_code e) ≡ true) ⊎ (is_unavailable (status_code e) ≡ true)

second_choice_lem :
    (snap : Topology) (first : Stub) (second : Option Stub) (e : Error) {ep : Stub}
    → second_choice snap first second e ≡ some ep
    → (ep ≢ first) × IsRetryable e
unfolding second_choice
second_choice_lem snap first second e h =
    elim (Bool-cases (is_failed_precondition (status_code e))) [
      | inl p ↦ (distinct_ne first _ (rw p at h), inl p)
      | inr p ↦ elim (Bool-cases (is_unavailable (status_code e))) [
        | inl u ↦ (distinct_ne first second (rw (p, u) at h), inr u)
        | inr u ↦ let h' : none ≡ some _ = rw (p, u) at h in cc
      ]
    ]

module _ (v : View) {T : Type 0} (snap : Topology) (ctx : Ctx) (first : Stub) (second : Option Stub)
    (action : Stub → Step (Ret T)) (w : World) where
  -- What `attempt` comes to: one action, whose result is returned; or, after a failure that forbids
  -- no replay, a second action at another endpoint, from a world with the same calls.
  pub data Attempted : Ret T × World → Type 0 where
    once :
        {r : Ret T} {w' w'' : World}
        → action first w ≡ (r, w')
        → w''.log ≡ w'.log
        → Attempted (r, w'')
    twice :
        {out : T} {e : Error} {w' w'' : World} (ep : Stub)
        → action first w ≡ ((out, some e), w')
        → has_partial e ≡ false
        → IsRetryable e
        → ep ≢ first
        → w''.log ≡ w'.log
        → Attempted (action ep w'')

  asks_refresh_log : (e : Error) (w' : World) → (asks_refresh v e w').log ≡ w'.log
  asks_refresh_log e w' = ground arith

  retry-Attempted :
      (out : T) (e : Error) (w' : World) (x : Option CtxErr) (choice : Option Stub)
      → action first w ≡ ((out, some e), w')
      → has_partial e ≡ false
      → second_choice snap first second e ≡ choice
      → Attempted (retry v x choice action out e (record w' { tick = suc w'.tick }))
  retry-Attempted out e w' (some x) choice h p q = once h refl
  retry-Attempted out e w' none none h p q = once h (asks_refresh_log e _)
  retry-Attempted out e w' none (some ep) h p q =
      let (ne, retryable) = second_choice_lem snap first second e q in
      twice ep h p retryable ne (asks_refresh_log e _)

  after_first-Attempted :
      (r : Ret T × World)
      → action first w ≡ r
      → Attempted (after_first v snap ctx first second action r)
  after_first-Attempted ((out, none), w') h = once h refl
  after_first-Attempted ((out, some e), w') h = elim (Bool-cases (has_partial e)) [
    | inl p ↦ rw p (once h refl)
    | inr p ↦ rw p (retry-Attempted out e w' (ctx w'.tick) _ h p refl)
  ]

  -- A call through `run` acts once, and returns that result; or it acts a second time, at another
  -- endpoint, only after FailedPrecondition or Unavailable, never after a partial result, and with no
  -- call made in between.
  pub attempt-Attempted : Attempted (attempt v snap ctx first second action w)
  unfolding attempt
  attempt-Attempted = after_first-Attempted (action first w) refl
