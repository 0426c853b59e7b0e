-- ===== src/Smart/Lifecycle/Progress.antt =====
-- smart.go: `close` ends. Whatever is going on when it begins, the cancellation of the client's context brings
-- to an end.
use hurricache_go_client.Prelude.{
  ℕ, zero, suc, ◌≡◌, ◌<◌, refl, ◌∙◌, ap, Bool, true, false, ◌||◌, Option, none, some, List, [], ◌∷◌,
  String, subst, if◌then◌else◌,
}
use hurricache_go_client.Errors.{Error, CtxErr, ctx_canceled, ctx_deadline, err, status, canceled}
use hurricache_go_client.Rpc.{Stub}
use hurricache_go_client.Smart.State.{SmartBackend}
use hurricache_go_client.Smart.State.Retire.{entries}
use hurricache_go_client.Smart.Publish.{Draft, no_routes, cleanup, publish_peer, commit, unwind}
use hurricache_go_client.Smart.Publish.Effects.{cleanup-released}
use hurricache_go_client.Smart.Lifecycle.{
  Cause, of_its_own, by_cancel, call_starts, call_ends, refresh_enters, gate_taken,
  coordinator_dialed, coordinator_chosen, publish_starts, refresh_requested, ticker_ticks,
  loop_wakes, close_begins, close_cancels, Holder, nobody, discovering, publishing, unwinding,
  System, Step, refresh_leaves, gate_released, publish_goes_on, publish_commits, publish_unwinds,
  Looping, refreshing, selecting, returned, loop_selects, loop_returns, close_ends,
}
use hurricache_go_client.Smart.Lifecycle.Closing.{close_nodes-nodes, close_nodes-closed}
use hurricache_go_client.Smart.Lifecycle.Reachable.{unpin_all-closed}
use hurricache_go_client.Smart.Lifecycle.Alone.{at}

cleanup-closed : (l : List (String × Stub)) (b : SmartBackend) → (cleanup l b).closed ≡ b.closed
cleanup-closed l b = let (r, e, k) = cleanup-released l b in ap (λ c. c.closed) e

-- Two tests of which the second holds, with the same state either way.
either_test :
    (x : SmartBackend) (c c' : Bool) (p q : Option Error) (z : SmartBackend × Option Error)
    → c' ≡ true
    → (if c then (x, p) else if c' then (x, q) else z).0 ≡ x
either_test x true c' p q z e = refl
either_test x false c' p q z e = rw e

or_true : (c : Bool) → (c || true) ≡ true
or_true false = refl
or_true true = refl

-- A commit under a context that has ended closes what was created.
pub commit-ended :
    (e : CtxErr) (b : SmartBackend) (d : Draft) → (commit (some e) b d).0 ≡ cleanup d.created b
unfolding commit
commit-ended e b d =
    either_test (cleanup d.created b) (no_routes d.snap.routes) _ _ _ _ (or_true b.closed)

-- Whether a step gives up because the client's context was canceled.
abbrev by_cancellation : {s : System} → Cause s → Bool
by_cancellation of_its_own = false
by_cancellation (by_cancel c) = true

abbrev was_canceled : Bool → Option CtxErr → Bool
was_canceled c none = false
was_canceled c (some ctx_canceled) = c
was_canceled c (some ctx_deadline) = false

-- A step that some goroutine takes, whatever it waits for, once the client's context is canceled: no step that
-- begins anything, none in which a call answers, and none for a reason of its own.
abbrev is_forced : (s : System) {t : System} → Step s t → Bool
is_forced s (call_starts snap o e) = false
is_forced s (call_ends before ps after e) = false
is_forced s (refresh_enters o) = false
is_forced s (refresh_leaves n k e) = by_cancellation k
is_forced s (gate_taken n e h) = false
is_forced s (gate_released k h) = by_cancellation k
is_forced s (coordinator_dialed dialed t h) = false
is_forced s (coordinator_chosen index h) = false
is_forced s (publish_starts d h) = false
is_forced s (publish_goes_on d peer rest ended dialed h) = was_canceled s.canceled ended
is_forced s (publish_commits d ended h) = was_canceled s.canceled ended
is_forced s (publish_unwinds pinned h) = true
is_forced s refresh_requested = false
is_forced s (loop_selects k h) = by_cancellation k
is_forced s (ticker_ticks h) = false
is_forced s (loop_wakes h k) = false
is_forced s (loop_returns h k) = true
is_forced s close_begins = false
is_forced s (close_cancels c) = true
is_forced s (close_ends c k l w h f) = true

pub data Forced (s : System) : System → Type 0 where
  stay : Forced s s
  go : {t u : System} → Forced s t → (k : Step t u) → is_forced t k ≡ true → Forced s u

Forced-trans : {s t u : System} → Forced s t → Forced t u → Forced s u
Forced-trans f stay = f
Forced-trans f (go g k e) = go (Forced-trans f g) k e

-- The holder of the gate lets it go.
abbrev LetsGo : System → SmartBackend → Holder → Type 0
LetsGo s b h = (b' : SmartBackend) × (b'.closed ≡ b.closed) × Forced (at s b h) (at s b' nobody)

freed_after :
    (s : System) (b b' : SmartBackend) (h h' : Holder)
    → b'.closed ≡ b.closed
    → Forced (at s b h) (at s b' h')
    → LetsGo s b' h'
    → LetsGo s b h
freed_after s b b' h h' e k (c, f, r) = (c, f ∙ e, Forced-trans k r)

-- A system whose client's context was canceled.
module _ (s : System) (o : s.canceled ≡ true) where
  freed_discovering : (b : SmartBackend) → LetsGo s b discovering
  freed_discovering b =
      freed_after s b b discovering nobody refl (go stay (gate_released (by_cancel o) refl) refl)
        (b, refl, stay)

  freed_unwinding : (ps : List Stub) (b : SmartBackend) → LetsGo s b (unwinding ps)
  unfolding unwind
  freed_unwinding ps b =
      freed_after s b _ (unwinding ps) discovering (unpin_all-closed ps b)
        (go stay (publish_unwinds ps refl) refl) (freed_discovering _)

  freed : (h : Holder) (b : SmartBackend) → LetsGo s b h
  unfolding publish_peer
  freed nobody b = (b, refl, stay)
  freed discovering b = freed_discovering b
  freed (unwinding ps) b = freed_unwinding ps b
  freed (publishing d []) b =
      freed_after s b _ (publishing d []) (unwinding d.pinned)
        (ap (λ c. c.closed) (commit-ended ctx_canceled b d) ∙ cleanup-closed d.created b)
        (go stay (publish_commits d (some ctx_canceled) refl) o) (freed_unwinding d.pinned _)
  freed (publishing d (peer ∷ rest)) b =
      freed_after s b _ (publishing d (peer ∷ rest)) (unwinding d.pinned)
        (cleanup-closed d.created b)
        (go stay (publish_goes_on d peer rest (some ctx_canceled) (err (status canceled)) refl) o)
        (freed_unwinding d.pinned _)

  drained : (n : ℕ) → Forced (record s { waiting = n }) (record s { waiting = 0 })
  drained zero = stay
  drained (suc n) = Forced-trans (go stay (refresh_leaves n (by_cancel o) refl) refl) (drained n)

  -- The goroutine of `loop` sees that the client's context was canceled.
  looped : (l : Looping) → Forced (record s { looping = l }) (record s { looping = returned })
  looped returned = stay
  looped selecting = go stay (loop_returns refl o) refl
  looped refreshing = go (go stay (loop_selects (by_cancel o) refl) refl) (loop_returns refl o) refl

-- From every state in which `close` has begun and has not closed the endpoints, steps lead to one in which it
-- has, and in which every node's endpoint is closed. Each of them is the cancellation of the client's context,
-- one that this cancellation forces, the unwinding of a publication, or the end of `close`: no call ends, no
-- peer or coordinator answers, and nothing gives up for a reason of its own.
pub close_can_end :
    (s : System)
    → s.backend.closed ≡ true
    → s.finished ≡ false
    → (t : System) × Forced s t
      × (t.finished ≡ true)
      × ((q : Stub) → 0 < entries q t.backend.nodes → (t.backend.endpoints q).closed ≡ true)
close_can_end s c f =
    let s' = record s { canceled = true } in
    let (b, e, r) = freed (record s' { waiting = 0 }) refl s.holder s.backend in
    let n = close_nodes-nodes b.nodes b in
    (
      _,
      go
          (Forced-trans (Forced-trans (go stay (close_cancels c) refl) (drained s' refl s.waiting))
            (Forced-trans r
              (looped (record s' { backend = b; holder = nobody; waiting = 0 }) refl s.looping)))
          (close_ends (e ∙ c) refl refl refl refl f) refl,
      refl,
      λ q l. close_nodes-closed b.nodes b q (subst (λ x. 0 < entries q x) n l),
    )
