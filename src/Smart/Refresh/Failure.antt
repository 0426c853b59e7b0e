-- ===== src/Smart/Refresh/Failure.antt =====
-- smart.go: what a `refresh` that fails leaves as it was, and which coordinator one that succeeds keeps.
use hurricache_go_client.Prelude.{
  ℕ, zero, suc, ◌+◌, ◌%◌, ◌≡◌, refl, Bool, true, false, Option, none, some, String, length,
  Option-cases, inl, inr, if◌then◌else◌, arith,
}
use hurricache_go_client.Errors.{
  Except, ok, err, Error, CtxErr, status, canceled, from_context_error,
}
use hurricache_go_client.World.{Ctx}
use hurricache_go_client.Smart.State.{Connection, SmartBackend}
use hurricache_go_client.Smart.Publish.{Discovery}
use hurricache_go_client.Smart.Publish.Failure.{
  Retained, Retained-refl, Retained-trans, publish-Retained,
}
use hurricache_go_client.Smart.Discover.Connect.{connect-connections}
use hurricache_go_client.Smart.Discover.{connect, ask, read_reply, discover}
use hurricache_go_client.Smart.Refresh.{
  Outside, publish_if, attempt_coordinator, nth, rotate, refresh,
}

connect-Retained :
    (dialed : Except Connection) (t : String) (b : SmartBackend) → Retained b (connect dialed t b).0
connect-Retained dialed t b =
    let (l, e) = connect-connections dialed t b in
    rw e (record { snapshot = refl; current = refl; coordinators = refl; closed = refl })

module _ (out : Outside) (t : ℕ) (target : String) where
  attempt-Retained :
      (b : SmartBackend) (e : Error)
      → (attempt_coordinator out t target b).1 ≡ some e
      → Retained b (attempt_coordinator out t target b).0
  unfolding attempt_coordinator discover
  attempt-Retained b e h =
      asked (connect (out.factory t target) target b)
        (connect-Retained (out.factory t target) target b) h
    where
      read_by :
          (b' : SmartBackend) (r : Except Discovery)
          → (publish_if out t (b', r)).1 ≡ some e
          → Retained b' (publish_if out t (b', r)).0
      read_by b' (err x) h = Retained-refl b'
      read_by b' (ok disc) h =
          publish-Retained out.ended_attempt out.factory disc (out.answered t) b' e h

      asked :
          (r : SmartBackend × Except Connection)
          → Retained b r.0
          → (publish_if out t (ask r (out.reply t target))).1 ≡ some e
          → Retained b (publish_if out t (ask r (out.reply t target))).0
      asked (b', err x) k h = k
      asked (b', ok c) k h = Retained-trans k (read_by b' (read_reply (out.reply t target)) h)

module _ (ctx : Ctx) (out : Outside) where
  abbrev rounds : ℕ → ℕ → ℕ → ℕ → SmartBackend → Option Error → SmartBackend × Option Error
  rounds = rotate ctx (attempt_coordinator out) out.next_round

  -- A result that retains what `b` has if it is an error.
  abbrev KeptBy : SmartBackend → SmartBackend × Option Error → Type 0
  KeptBy b r = (e : Error) → r.1 ≡ some e → Retained b r.0

  rotate-Retained :
      (left n start t : ℕ) (b : SmartBackend) (last : Option Error)
      → KeptBy b (rounds left n start t b last)
  unfolding rotate
  rotate-Retained zero n start t b last = λ e h. Retained-refl b
  rotate-Retained (suc left) n start t b last = elim (Option-cases (ctx t)) [
    | inr (x, h) ↦ rw (h, rotate) (λ e k. Retained-refl b)
    | inl h ↦
        let index = (start + n) % length b.coordinators in
        let target = nth b.coordinators index in
        rw (h, rotate)
          (goes_on index (λ b' x. rotate-Retained left (suc n) start (out.next_round t) b' (some x))
            (attempt_coordinator out t target b) (attempt-Retained out t target b))
  ]
    where
      goes_on :
          (index : ℕ)
          → ((b' : SmartBackend) (x : Error)
              → KeptBy b' (rounds left (suc n) start (out.next_round t) b' (some x)))
          → (r : SmartBackend × Option Error) → KeptBy b r
          → KeptBy b (
              let (b', e) = r in
              elim e as (λ x. SmartBackend × Option Error) [
                | none ↦ (record b' { active_coordinator = index }, none)
                | some e ↦ rounds left (suc n) start (out.next_round t) b' (some e)
              ])
      goes_on index h (b', none) k = λ e l. absurd (ground arith)
      goes_on index h (b', some x) k = λ e l. Retained-trans (k x refl) (h b' x e l)

-- A `refresh` that returns an error leaves the current topology, the active coordinator and the list of
-- coordinators as they were, and the client open or closed as it was.
pub failed_refresh_retains :
    (out : Outside) (ctx : Ctx) (gate : Option CtxErr) (t : ℕ) (b : SmartBackend) (e : Error)
    → (refresh ctx (attempt_coordinator out) out.next_round gate t b).1 ≡ some e
    → Retained b (refresh ctx (attempt_coordinator out) out.next_round gate t b).0
unfolding refresh
failed_refresh_retains out ctx gate t b = refreshed-KeptBy b.closed gate
  where
    refreshed-KeptBy :
        (c : Bool) (gate : Option CtxErr)
        → KeptBy ctx out b (
            if c
            then (b, some (status canceled))
            else elim gate as (λ x. SmartBackend × Option Error) [
              | some e ↦ (b, some (from_context_error e))
              | none ↦ rounds ctx out (length b.coordinators) 0 b.active_coordinator t b none
            ])
    refreshed-KeptBy true gate = λ e h. Retained-refl b
    refreshed-KeptBy false (some x) = λ e h. Retained-refl b
    refreshed-KeptBy false none =
        rotate-Retained ctx out (length b.coordinators) 0 b.active_coordinator t b none
