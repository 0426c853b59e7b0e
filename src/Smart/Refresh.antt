-- ===== src/Smart/Refresh.antt =====
-- smart.go: `refresh`, which goes round the coordinators until one gives a topology that is published.
pub mod Failure
use hurricache_go_client.Prelude.{
  ℕ, zero, suc, ◌+◌, ◌%◌, Bool, true, false, Option, none, some, List, [], ◌∷◌, String, length,
  get_elem?, if◌then◌else◌,
}
use hurricache_go_client.Errors.{
  Except, ok, err, Error, CtxErr, status, canceled, internal, from_context_error,
}
use hurricache_go_client.World.{Ctx}
use hurricache_go_client.Smart.State.{Connection, SmartBackend}
use hurricache_go_client.Smart.Publish.{Discovery, publish}
use hurricache_go_client.Smart.Discover.{RoutingReply, discover}

-- What the factory and the coordinators answer at each moment, and how long a round takes: the moment at
-- which the topology is published and the one of the next round.
pub record Outside : Type 0 where
  pub factory : ℕ → String → Except Connection
  pub reply : ℕ → String → RoutingReply
  pub ended_attempt : Ctx
  pub answered : ℕ → ℕ
  pub next_round : ℕ → ℕ

module _ (out : Outside) where
  abbrev pub publish_if : ℕ → SmartBackend × Except Discovery → SmartBackend × Option Error
  publish_if t (b, err e) = (b, some e)
  publish_if t (b, ok d) = publish out.ended_attempt out.factory d (out.answered t) b

  -- One coordinator: the discovery, and what is published of it.
  unfoldable pub attempt_coordinator : ℕ → String → SmartBackend → SmartBackend × Option Error
  unfolding discover publish
  attempt_coordinator t target b =
      publish_if t (discover (out.factory t target) (out.reply t target) target b)

abbrev pub nth : List String → ℕ → String
nth targets i = elim (get_elem? targets i) [ none ↦ "" | some t ↦ t ]

module _ (ctx : Ctx) (attempt : ℕ → String → SmartBackend → SmartBackend × Option Error)
    (next_round : ℕ → ℕ) where
  -- `left` rounds are left of the loop, and `n` were made.
  unfoldable pub rotate : ℕ → ℕ → ℕ → ℕ → SmartBackend → Option Error → SmartBackend × Option Error
  rotate zero n start t b last = (b, last)
  rotate (suc left) n start t b last = elim (ctx t) [
    | some e ↦ (b, some (from_context_error e))
    | none ↦
        let index = (start + n) % length b.coordinators in
        let (b', r) = attempt t (nth b.coordinators index) b in
        elim r [
          | none ↦ (record b' { active_coordinator = index }, none)
          | some e ↦ rotate left (suc n) start (next_round t) b' (some e)
        ]
  ]

  -- `gate` tells whether the context ended before the gate was free.
  unfoldable pub refresh : Option CtxErr → ℕ → SmartBackend → SmartBackend × Option Error
  unfolding rotate
  refresh gate t b = if b.closed then (b, some (status canceled)) else elim gate [
    | some e ↦ (b, some (from_context_error e))
    | none ↦ rotate (length b.coordinators) 0 b.active_coordinator t b none
  ]
