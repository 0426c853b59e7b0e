-- ===== src/Smart/Publish/Current.antt =====
-- smart.go: the topology that a `publish` without an error leaves current.
use hurricache_go_client.Prelude.{
  ℕ, ◌+◌, ◌≡◌, refl, ◌∙◌, ap, Bool, true, false, ◌||◌, Option, none, some, List, String, length,
  arith, All,
}
use hurricache_go_client.Errors.{Except, Error, CtxErr}
use hurricache_go_client.Rpc.{Stub}
use hurricache_go_client.World.{Ctx}
use hurricache_go_client.Smart.Routing.{Topology}
use hurricache_go_client.Smart.State.{Connection, SmartBackend, unpin_all, retire_locked}
use hurricache_go_client.Smart.State.Retire.{retire_nodes-Untouched}
use hurricache_go_client.Smart.Publish.{
  Discovery, Draft, new_draft, publish_peers, cleanup, commit, commit_unless, no_routes, has_ended,
  put_all, install, publish, unwind,
}
use hurricache_go_client.Smart.Publish.Failure.{chosen}
use hurricache_go_client.Smart.Publish.Published.{Routed, AllRouted, publish_peers-AllRouted}

-- A topology for a discovery.
pub record Serves (disc : Discovery) (snap : Topology) : Type 0 where
  pub shards : snap.shards ≡ disc.shards
  pub routed : All (Routed snap) disc.peers
  pub some_route : no_routes snap.routes ≡ false

chosen_ok :
    (c c' : Bool) (x y : SmartBackend) (p q : Error)
    → (chosen c c' x y p q).1 ≡ none
    → (c ≡ false) × ((chosen c c' x y p q).0 ≡ y)
chosen_ok true c' x y p q h = absurd (ground arith)
chosen_ok false true x y p q h = absurd (ground arith)
chosen_ok false false x y p q h = (refl, refl)

pub install-snapshot : (snap : Topology) (b : SmartBackend) → (install snap b).snapshot ≡ some snap
unfolding install retire_locked
install-snapshot snap b = (retire_nodes-Untouched (put_all snap.targets b.nodes) _).snapshot

commit_ok :
    (ended : Option CtxErr) (b : SmartBackend) (d : Draft)
    → (commit ended b d).1 ≡ none
    → (no_routes d.snap.routes ≡ false) × ((commit ended b d).0.snapshot ≡ some d.snap)
unfolding commit
commit_ok ended b d h =
    let (n, e) =
      chosen_ok (no_routes d.snap.routes) (b.closed || has_ended ended) (cleanup d.created b)
        (install d.snap b) _ _ h in
    (n, ap (λ c. c.snapshot) e ∙ install-snapshot d.snap b)

pub unwind-snapshot : (ps : List Stub) (b : SmartBackend) → (unwind ps b).snapshot ≡ b.snapshot
unfolding unwind unpin_all retire_locked
unwind-snapshot ps b = (retire_nodes-Untouched b.nodes _).snapshot

-- When `publish` returns without an error, the current topology has the shard count of the discovery and at least
-- one route, and for every peer of the discovery one endpoint that is the topology's for the peer's target and to
-- which every partition of the peer is routed under the peer's role.
pub published_topology-Serves :
    (ctx : Ctx) (factory : ℕ → String → Except Connection) (disc : Discovery) (t : ℕ)
    (b : SmartBackend)
    → (publish ctx factory disc t b).1 ≡ none
    → (snap : Topology) × ((publish ctx factory disc t b).0.snapshot ≡ some snap) × Serves disc snap
unfolding publish new_draft
published_topology-Serves ctx factory disc t b =
    served (publish_peers ctx factory disc.peers t b (new_draft disc))
      (publish_peers-AllRouted ctx factory disc.peers t b (new_draft disc))
  where
    served :
        (r : SmartBackend × Draft × Option Error)
        → AllRouted disc.peers (new_draft disc) r
        → (let (b', d, e) = r in commit_unless ctx factory e (t + length disc.peers) b' d).1 ≡ none
        → (snap : Topology) × ((let (b', d, e) = r in
              unwind d.pinned (commit_unless ctx factory e (t + length disc.peers) b' d).0).snapshot
            ≡ some snap)
          × Serves disc snap
    served (b', d, some e) k h = absurd (ground arith)
    served (b', d, none) k h =
        let (n, e) = commit_ok (ctx (t + length disc.peers)) b' d h in
        (
          d.snap,
          unwind-snapshot d.pinned _ ∙ e,
          record { shards = k.0.shards; routed = k.1; some_route = n },
        )
