-- ===== src/Smart/Lifecycle/Sequential.antt =====
-- smart.go: `refresh`, run with no other goroutine between its sections under the lock, takes steps of the
-- system.
use hurricache_go_client.Prelude.{
  ℕ, zero, suc, ◌+◌, ◌%◌, ◌≡◌, refl, sym, ap, true, false, Option, none, some, String, length,
  if◌then◌else◌, subst, Bool-cases, Option-cases, inl, inr,
}
use hurricache_go_client.Errors.{
  Except, ok, err, Error, CtxErr, status, canceled, from_context_error,
}
use hurricache_go_client.World.{Ctx}
use hurricache_go_client.Smart.State.{Connection, SmartBackend}
use hurricache_go_client.Smart.Publish.{Discovery}
use hurricache_go_client.Smart.Discover.{ask, read_reply, discover, connect}
use hurricache_go_client.Smart.Refresh.{
  Outside, publish_if, nth, attempt_coordinator, rotate, refresh,
}
use hurricache_go_client.Smart.Lifecycle.{
  nobody, discovering, System, refresh_enters, refresh_leaves, of_its_own, gate_taken,
  gate_released, coordinator_dialed, coordinator_chosen, Reach, here, next,
}
use hurricache_go_client.Smart.Lifecycle.Alone.{Reach-trans, at, publish-Reach}

module _ (s : System) where
  module _ (out : Outside) where
    attempt-Reach :
        (t : ℕ) (target : String) (b : SmartBackend)
        → Reach (at s b discovering) (at s (attempt_coordinator out t target b).0 discovering)
    unfolding attempt_coordinator discover
    attempt-Reach t target b =
        published (connect (out.factory t target) target b)
          (next here (coordinator_dialed (out.factory t target) target refl))
      where
        published :
            (r : SmartBackend × Except Connection)
            → Reach (at s b discovering) (at s r.0 discovering)
            → Reach
                (at s b discovering)
                (at s (publish_if out t (ask r (out.reply t target))).0 discovering)
        published (b', err e) k = k
        published (b', ok c) k = read_by (read_reply (out.reply t target))
          where
            read_by :
                (r : Except Discovery)
                → Reach (at s b discovering) (at s (publish_if out t (b', r)).0 discovering)
            read_by (err e) = k
            read_by (ok disc) =
                Reach-trans k
                  (publish-Reach s out.ended_attempt out.factory disc (out.answered t) b')

    module _ (ctx : Ctx) where
      abbrev rotated : ℕ → ℕ → ℕ → ℕ → SmartBackend → Option Error → SmartBackend × Option Error
      rotated = rotate ctx (attempt_coordinator out) out.next_round

      rotate-Reach :
          (left n start t : ℕ) (b : SmartBackend) (last : Option Error)
          → Reach (at s b discovering) (at s (rotated left n start t b last).0 discovering)
      unfolding rotate
      rotate-Reach zero n start t b last = here
      rotate-Reach (suc left) n start t b last = elim (Option-cases (ctx t)) [
        | inr (e, h) ↦ rw (h, rotate) here
        | inl h ↦
            let index = (start + n) % length b.coordinators in
            let target = nth b.coordinators index in
            rw (h, rotate)
              (goes_on index
                (λ b' e. rotate-Reach left (suc n) start (out.next_round t) b' (some e))
                (attempt_coordinator out t target b) (attempt-Reach t target b))
      ]
        where
          later : SmartBackend → Error → SmartBackend × Option Error
          later b' e = rotated left (suc n) start (out.next_round t) b' (some e)

          goes_on :
              (index : ℕ)
              → ((b' : SmartBackend) (e : Error)
                  → Reach (at s b' discovering) (at s (later b' e).0 discovering))
              → (r : SmartBackend × Option Error)
              → Reach (at s b discovering) (at s r.0 discovering)
              → Reach (at s b discovering) (
                  at s
                    (let (b', e) = r in
                      elim e as (λ x. SmartBackend × Option Error) [
                        | none ↦ (record b' { active_coordinator = index }, none)
                        | some e ↦ later b' e
                      ]).0
                    discovering)
          goes_on index h (b', none) k = next k (coordinator_chosen index refl)
          goes_on index h (b', some e) k = Reach-trans k (h b' e)

module _ (out : Outside) (ctx : Ctx) (t : ℕ) (b : SmartBackend) where
  abbrev rounds : SmartBackend × Option Error
  rounds =
      rotate ctx (attempt_coordinator out) out.next_round (length b.coordinators) 0
        b.active_coordinator t b none

  abbrev refreshed : Option CtxErr → SmartBackend × Option Error
  refreshed gate = refresh ctx (attempt_coordinator out) out.next_round gate t b

  refresh_closed :
      (gate : Option CtxErr) → b.closed ≡ true → refreshed gate ≡ (b, some (status canceled))
  unfolding refresh
  refresh_closed gate y =
      ap
        (λ c.
          if c
          then (b, some (status canceled))
          else elim gate [ some e ↦ (b, some (from_context_error e)) | none ↦ rounds ])
        y

  refresh_open : b.closed ≡ false → refreshed none ≡ rounds
  unfolding refresh
  refresh_open n = ap (λ c. if c then (b, some (status canceled)) else rounds) n

  refresh_ended :
      (e : CtxErr) → b.closed ≡ false → refreshed (some e) ≡ (b, some (from_context_error e))
  unfolding refresh
  refresh_ended e n =
      ap (λ c. if c then (b, some (status canceled)) else (b, some (from_context_error e))) n

refresh-Reach :
    (s : System) (out : Outside) (ctx : Ctx) (gate : Option CtxErr) (t : ℕ) (b : SmartBackend)
    → Reach (at s b nobody) (at s (refreshed out ctx t b gate).0 nobody)
refresh-Reach s out ctx gate t b = elim (Bool-cases b.closed) [
  | inl y ↦ reach_by (refresh_closed out ctx t b gate y) here
  | inr n ↦ by_gate gate n
]
  where
    reach_by :
        {r r' : SmartBackend × Option Error}
        → r ≡ r'
        → Reach (at s b nobody) (at s r'.0 nobody)
        → Reach (at s b nobody) (at s r.0 nobody)
    reach_by e k = subst (λ x. Reach (at s b nobody) (at s x.0 nobody)) (sym e) k

    by_gate :
        (gate : Option CtxErr)
        → b.closed ≡ false
        → Reach (at s b nobody) (at s (refreshed out ctx t b gate).0 nobody)
    by_gate (some e) n =
        reach_by (refresh_ended out ctx t b e n)
          (next (next here (refresh_enters n)) (refresh_leaves s.waiting of_its_own refl))
    by_gate none n = reach_by (refresh_open out ctx t b n) (
        next
          (Reach-trans (next (next here (refresh_enters n)) (gate_taken s.waiting refl refl))
            (rotate-Reach s out ctx (length b.coordinators) 0 b.active_coordinator t b none))
          (gate_released of_its_own refl))

-- From a state where no refresh holds the gate, a run of `refresh` that no other goroutine interrupts, with any
-- answers of the factory, of the coordinators and of the contexts, is a sequence of steps of the system.
pub refresh_takes_steps :
    (s : System) (out : Outside) (ctx : Ctx) (gate : Option CtxErr) (t : ℕ)
    → s.holder ≡ nobody
    → Reach s (record s {
      backend = (refresh ctx (attempt_coordinator out) out.next_round gate t s.backend).0;
    })
refresh_takes_steps s out ctx gate t h =
    subst
      (λ x.
        Reach (record s { holder = x })
          (record s {
            backend = (refresh ctx (attempt_coordinator out) out.next_round gate t s.backend).0;
            holder = x;
          }))
      (sym h) (refresh-Reach s out ctx gate t s.backend)
