-- ===== src/Smart/Lifecycle/Routed.antt =====
-- smart.go: the endpoints that the routes of a topology name are its targets, which a call pins.
use hurricache_go_client.Prelude.{
  ℕ, ◌+◌, ◌≤◌, ◌<◌, ◌≡◌, sym, ap, false, ◌||◌, Option, none, some, List, [], ◌∷◌, String, ◌==◌,
  if◌then◌else◌, arith, count, subst, Bool-cases, inl, inr,
}
use hurricache_go_client.Errors.{Except, ok, err, Error, CtxErr}
use hurricache_go_client.Rpc.{Stub}
use hurricache_go_client.Smart.Routing.{RouteKey, Topology, find_target, find_route}
use hurricache_go_client.Smart.State.{
  Connection, SmartBackend, put, pin_snapshot, unpin_all, retire_locked,
}
use hurricache_go_client.Smart.State.Retire.{entries, retire_nodes-Untouched}
use hurricache_go_client.Smart.Publish.{
  Draft, PeerRouting, new_draft, publish_peer, cleanup, commit, no_routes, has_ended,
}
use hurricache_go_client.Smart.Publish.Cases.{find_or_create_cases, publish_peer_cases}
use hurricache_go_client.Smart.Publish.Effects.{cleanup-released}
use hurricache_go_client.Smart.Publish.Failure.{publish_peer-Retained}
use hurricache_go_client.Smart.Publish.Current.{install-snapshot, unwind-snapshot}
use hurricache_go_client.Smart.Publish.Routes.{Added, add_routes-Added}
use hurricache_go_client.Smart.Publish.Targets.{find_target-entries, put_new-entries}
use hurricache_go_client.Smart.Discover.Connect.{connect-connections}
use hurricache_go_client.Smart.Lifecycle.{
  Holder, publishing, System, Step, call_starts, call_ends, refresh_enters, refresh_leaves,
  gate_taken, gate_released, coordinator_dialed, coordinator_chosen, publish_starts,
  publish_goes_on, publish_commits, publish_unwinds, refresh_requested, loop_selects, ticker_ticks,
  loop_wakes, loop_returns, close_begins, close_cancels, close_ends, Reach, here, next, new_system,
  after_round,
}
use hurricache_go_client.Smart.Lifecycle.Closing.{close_nodes-Untouched}
use hurricache_go_client.Smart.Lifecycle.Invariant.{targets_of}
use hurricache_go_client.Smart.Lifecycle.Safety.{used_endpoints_are_open}

-- Every route leads to a target.
abbrev pub Named : Topology → Type 0
Named snap =
    (k : RouteKey) (q : Stub) → find_route k snap.routes ≡ some q → 0 < entries q snap.targets

abbrev FoundNamed : SmartBackend × Except (Draft × Stub) → Type 0
FoundNamed (b, err e) = Unit {0}
FoundNamed (b, ok (d, p)) = Named d.snap × (0 < entries p d.snap.targets)

abbrev RoundNamed : SmartBackend × Draft × Option Error → Type 0
RoundNamed (b, d, none) = Named d.snap
RoundNamed (b, d, some e) = Unit {0}

an_entry : (p : Stub) (n : ℕ) → (if p == p then 1 else 0) ≤ n → 0 < n
an_entry p n h = ground arith

new_target-Named :
    (t : String) (p : Stub) (snap : Topology)
    → find_target t snap.targets ≡ none
    → Named snap
    → Named (record snap { targets = put t p snap.targets })
      × (0 < entries p (put t p snap.targets))
new_target-Named t p snap new n = (
  (λ k q h. omega (arith, n k q h, put_new-entries q t p snap.targets new)),
  an_entry p _ (omega (arith, put_new-entries p t p snap.targets new)),
)

add_routes-Named :
    (peer : PeerRouting) (d : Draft) (p : Stub) (l : List (RouteKey × Stub))
    → Named d.snap
    → 0 < entries p d.snap.targets
    → Added p peer.role peer.partition_ids d.snap.routes l
    → Named (record (d.snap) { routes = l })
add_routes-Named peer d p l n h a k q g = elim (a.only k q g) [
  | inl e ↦ subst (λ x. 0 < entries x d.snap.targets) e h
  | inr o ↦ n k q o
]

publish_peer-Named :
    (ended : Option CtxErr) (dialed : Except Connection) (peer : PeerRouting) (b : SmartBackend)
    (d : Draft)
    → Named d.snap
    → RoundNamed (publish_peer ended dialed peer b d)
publish_peer-Named ended dialed peer b d n =
    publish_peer_cases peer b d FoundNamed RoundNamed (λ e. tt) (λ b' e f. tt) (λ b' d' p e f. tt)
      (λ b' d' p l f h.
        add_routes-Named peer d' p l f.0 f.1
          (add_routes-Added p peer.role peer.partition_ids d'.snap.routes l h))
      ended dialed
      (find_or_create_cases peer.target b d FoundNamed (λ e. tt)
        (λ p e. (n, an_entry p _ (find_target-entries peer.target d.snap.targets p p e)))
        (λ p new e. new_target-Named peer.target p d.snap new n)
        (λ new c. new_target-Named peer.target b.next d.snap new n) dialed)

abbrev NamedNow : Option Topology → Type 0
NamedNow none = Unit {0}
NamedNow (some snap) = Named snap

abbrev HolderNamed : Holder → Type 0
HolderNamed (publishing d peers) = Named d.snap
HolderNamed _ = Unit {0}

record AllNamed (s : System) : Type 0 where
  current : NamedNow s.backend.snapshot
  building : HolderNamed s.holder

same_current : {o o' : Option Topology} → o' ≡ o → NamedNow o → NamedNow o'
same_current e n = subst NamedNow (sym e) n

building_at : (s : System) (h : Holder) → s.holder ≡ h → AllNamed s → HolderNamed h
building_at s h e n = subst HolderNamed e n.building

unpin_all-snapshot : (ps : List Stub) (b : SmartBackend) → (unpin_all ps b).snapshot ≡ b.snapshot
unfolding unpin_all retire_locked
unpin_all-snapshot ps b = (retire_nodes-Untouched b.nodes _).snapshot

commit-NamedNow :
    (ended : Option CtxErr) (b : SmartBackend) (d : Draft)
    → NamedNow b.snapshot
    → Named d.snap
    → NamedNow (commit ended b d).0.snapshot
unfolding commit
commit-NamedNow ended b d n k = elim (Bool-cases (no_routes d.snap.routes)) [
  | inl y ↦ rw (y, commit) kept
  | inr c ↦ elim (Bool-cases (b.closed || has_ended ended)) [
    | inl y ↦ rw (c, y, commit) kept
    | inr m ↦ rw (c, m, commit) (same_current (install-snapshot d.snap b) k)
  ]
]
  where
    kept : NamedNow (cleanup d.created b).snapshot
    kept = let (r, e, l) = cleanup-released d.created b in same_current (ap (λ x. x.snapshot) e) n

after_round-AllNamed :
    (s : System) (rest : List PeerRouting) (r : SmartBackend × Draft × Option Error)
    → NamedNow r.0.snapshot
    → RoundNamed r
    → AllNamed (after_round s rest r)
after_round-AllNamed s rest (b, d, none) n k = record { current = n; building = k }
after_round-AllNamed s rest (b, d, some e) n k = record { current = n; building = tt }

Step-AllNamed : (s : System) {t : System} → AllNamed s → Step s t → AllNamed t
unfolding new_draft pin_snapshot
Step-AllNamed s n (call_starts snap o e) = record { current = n.current; building = n.building }
Step-AllNamed s n (call_ends before ps after e) = record {
  current = same_current (unpin_all-snapshot ps s.backend) n.current;
  building = n.building;
}
Step-AllNamed s n (refresh_enters o) = record { current = n.current; building = n.building }
Step-AllNamed s n (refresh_leaves m k e) = record { current = n.current; building = n.building }
Step-AllNamed s n (gate_taken m e h) = record { current = n.current; building = tt }
Step-AllNamed s n (gate_released k h) = record { current = n.current; building = tt }
Step-AllNamed s n (coordinator_dialed dialed t h) =
    let (l, e) = connect-connections dialed t s.backend in
    record { current = same_current (ap (λ x. x.snapshot) e) n.current; building = n.building }
Step-AllNamed s n (coordinator_chosen index h) = record {
  current = n.current;
  building = n.building;
}
Step-AllNamed s n (publish_starts d h) = record {
  current = n.current;
  building = λ k q e. absurd (no_route k q e);
}
  where
    no_route : (k : RouteKey) (q : Stub) → find_route k [] ≡ some q → ⊥
    no_route k q e = unfold find_route in ground arith
Step-AllNamed s n (publish_goes_on d peer rest ended dialed h) =
    after_round-AllNamed s rest (publish_peer ended dialed peer s.backend d)
      (same_current (publish_peer-Retained ended dialed peer s.backend d).snapshot n.current)
      (publish_peer-Named ended dialed peer s.backend d
        (building_at s (publishing d (peer ∷ rest)) h n))
Step-AllNamed s n (publish_commits d ended h) = record {
  current = commit-NamedNow ended s.backend d n.current (building_at s (publishing d []) h n);
  building = tt;
}
Step-AllNamed s n (publish_unwinds ps h) = record {
  current = same_current (unwind-snapshot ps s.backend) n.current;
  building = tt;
}
Step-AllNamed s n refresh_requested = record { current = n.current; building = n.building }
Step-AllNamed s n (loop_selects k h) = record { current = n.current; building = n.building }
Step-AllNamed s n (ticker_ticks h) = record { current = n.current; building = n.building }
Step-AllNamed s n (loop_wakes h k) = record { current = n.current; building = n.building }
Step-AllNamed s n (loop_returns h k) = record { current = n.current; building = n.building }
Step-AllNamed s n close_begins = record { current = n.current; building = n.building }
Step-AllNamed s n (close_cancels c) = record { current = n.current; building = n.building }
Step-AllNamed s n (close_ends c k l w h f) = record {
  current = same_current (close_nodes-Untouched s.backend.nodes s.backend).snapshot n.current;
  building = n.building;
}

Reach-AllNamed :
    (coordinators : List String) (s : System) → Reach (new_system coordinators) s → AllNamed s
Reach-AllNamed coordinators s here = record { current = tt; building = tt }
Reach-AllNamed coordinators s (next r k) = Step-AllNamed _ (Reach-AllNamed coordinators _ r) k

-- In every state that a new smart client reaches before `close` closes the endpoints, each route of the current
-- topology leads to an endpoint that is one of its targets and not closed, and the `Close` of that endpoint's
-- connection was not called.
pub routed_endpoints_are_open :
    (coordinators : List String) (s : System)
    → Reach (new_system coordinators) s
    → s.finished ≡ false
    → (snap : Topology) → s.backend.snapshot ≡ some snap
    → (k : RouteKey) (q : Stub) → find_route k snap.routes ≡ some q
    → (0 < entries q snap.targets)
      × ((s.backend.endpoints q).closed ≡ false)
      × (count q s.backend.released ≡ 0)
routed_endpoints_are_open coordinators s r f snap e k q g =
    let h = subst NamedNow e (Reach-AllNamed coordinators s r).current k q g in
    let (c, z) =
      used_endpoints_are_open coordinators s r f q
        (current_counts _ _ _ (ap (λ o. entries q (targets_of o)) e) h) in
    (h, c, z)
  where
    current_counts : (a b c : ℕ) → a ≡ b → 0 < b → 0 < a + c
    current_counts a b c p h = omega arith
