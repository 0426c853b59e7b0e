-- ===== src/Smart/Publish/Published.antt =====
-- smart.go: the topology that `publish` makes current, set against what was discovered.
use hurricache_go_client.Prelude.{
  ℕ, suc, ◌≡◌, refl, ◌∙◌, Option, none, some, List, [], ◌∷◌, String, All,
}
use hurricache_go_client.Errors.{Except, ok, err, Error, CtxErr}
use hurricache_go_client.Rpc.{Stub}
use hurricache_go_client.World.{Ctx}
use hurricache_go_client.Smart.Routing.{NodeRole, RouteKey, Topology, find_target, find_route}
use hurricache_go_client.Smart.State.{Connection, SmartBackend, put}
use hurricache_go_client.Smart.Publish.{PeerRouting, Draft, publish_peer, publish_peers}
use hurricache_go_client.Smart.Publish.Cases.{find_or_create_cases, publish_peer_cases}
use hurricache_go_client.Smart.Publish.Targets.{find_target-put_same, find_target-put_kept}
use hurricache_go_client.Smart.Publish.Routes.{route_key, add_routes-Added}

-- Every partition of the peer is routed to the one endpoint of its target.
pub record Routed (snap : Topology) (peer : PeerRouting) : Type 0 where
  pub endpoint : ℕ
  pub target : find_target peer.target snap.targets ≡ some endpoint
  pub routes :
      All (λ i. find_route (route_key peer.role i) snap.routes ≡ some endpoint) peer.partition_ids

-- A topology that has all that another has.
pub record Extends (a b : Topology) : Type 0 where
  pub shards : b.shards ≡ a.shards
  pub targets :
      (t : String) (q : ℕ) → find_target t a.targets ≡ some q → find_target t b.targets ≡ some q
  pub routes :
      (k : RouteKey) (q : ℕ) → find_route k a.routes ≡ some q → find_route k b.routes ≡ some q

Extends-refl : (a : Topology) → Extends a a
Extends-refl a = record { shards = refl; targets = λ t q h. h; routes = λ k q h. h }

Extends-trans : {a b c : Topology} → Extends a b → Extends b c → Extends a c
Extends-trans u v = record {
  shards = v.shards ∙ u.shards;
  targets = λ t q h. v.targets t q (u.targets t q h);
  routes = λ k q h. v.routes k q (u.routes k q h);
}

All-Extends :
    (a b : Topology) (role : NodeRole) (ids : List ℕ) (q : ℕ)
    → Extends a b
    → All (λ i. find_route (route_key role i) a.routes ≡ some q) ids
    → All (λ i. find_route (route_key role i) b.routes ≡ some q) ids
All-Extends a b role [] q e h = tt
All-Extends a b role (i ∷ ids) q e h =
    (e.routes (route_key role i) q h.0, All-Extends a b role ids q e h.1)

Routed-Extends : {a b : Topology} {peer : PeerRouting} → Extends a b → Routed a peer → Routed b peer
Routed-Extends {a = a} {b = b} {peer = peer} e r = record {
  endpoint = r.endpoint;
  target = e.targets peer.target r.endpoint r.target;
  routes = All-Extends a b peer.role peer.partition_ids r.endpoint e r.routes;
}

-- What the lookup of a peer makes of the draft.
abbrev Found : String → Draft → SmartBackend × Except (Draft × Stub) → Type 0
Found t d (b, err e) = Unit {0}
Found t d (b, ok (d', p)) = Extends d.snap d'.snap × (find_target t d'.snap.targets ≡ some p)

put_target-Extends :
    (t : String) (p : Stub) (a : Topology)
    → find_target t a.targets ≡ none
    → Extends a (record a { targets = put t p a.targets })
put_target-Extends t p a new = record {
  shards = refl;
  targets = λ s q h. find_target-put_kept t p a.targets s q new h;
  routes = λ k q h. h;
}

-- What a round makes of it, and the rounds of all peers.
abbrev pub AllRouted : List PeerRouting → Draft → SmartBackend × Draft × Option Error → Type 0
AllRouted peers d (b, d', none) = Extends d.snap d'.snap × All (Routed d'.snap) peers
AllRouted peers d (b, d', some e) = Unit {0}

publish_peer-AllRouted :
    (ended : Option CtxErr) (dialed : Except Connection) (peer : PeerRouting) (b : SmartBackend)
    (d : Draft)
    → AllRouted (peer ∷ []) d (publish_peer ended dialed peer b d)
publish_peer-AllRouted ended dialed peer b d =
    publish_peer_cases peer b d (Found peer.target d) (AllRouted (peer ∷ []) d) (λ e. tt)
      (λ b' e f. tt) (λ b' d' p e f. tt)
      (λ b' d' p l f h.
        let a = add_routes-Added p peer.role peer.partition_ids d'.snap.routes l h in
        (
          Extends-trans f.0 (record { shards = refl; targets = λ t q g. g; routes = a.kept }),
          (record { endpoint = p; target = f.1; routes = a.each }, tt),
        ))
      ended dialed
      (find_or_create_cases peer.target b d (Found peer.target d) (λ e. tt)
        (λ p e. (Extends-refl d.snap, e)) (λ p new e. found_new p new)
        (λ new c. found_new b.next new) dialed)
  where
    found_new :
        (p : Stub)
        → find_target peer.target d.snap.targets ≡ none
        → Extends d.snap (record (d.snap) { targets = put peer.target p d.snap.targets })
          × (find_target peer.target (put peer.target p d.snap.targets) ≡ some p)
    found_new p new = (
      put_target-Extends peer.target p d.snap new,
      find_target-put_same peer.target p d.snap.targets,
    )

module _ (ctx : Ctx) (factory : ℕ → String → Except Connection) where
  pub publish_peers-AllRouted :
      (peers : List PeerRouting) (t : ℕ) (b : SmartBackend) (d : Draft)
      → AllRouted peers d (publish_peers ctx factory peers t b d)
  unfolding publish_peers
  publish_peers-AllRouted [] t b d = (Extends-refl d.snap, tt)
  publish_peers-AllRouted (peer ∷ rest) t b d =
      goes_on (λ b' d'. publish_peers-AllRouted rest (suc t) b' d')
        (publish_peer (ctx t) (factory t peer.target) peer b d)
        (publish_peer-AllRouted (ctx t) (factory t peer.target) peer b d)
    where
      both :
          (d' : Draft)
          → Extends d.snap d'.snap
          → Routed d'.snap peer
          → (r : SmartBackend × Draft × Option Error) → AllRouted rest d' r
          → AllRouted (peer ∷ rest) d r
      both d' x y (b'', d'', none) k = (Extends-trans x k.0, (Routed-Extends k.0 y, k.1))
      both d' x y (b'', d'', some e) k = tt

      goes_on :
          ((b' : SmartBackend) (d' : Draft)
            → AllRouted rest d' (publish_peers ctx factory rest (suc t) b' d'))
          → (r : SmartBackend × Draft × Option Error) → AllRouted (peer ∷ []) d r
          → AllRouted (peer ∷ rest) d (
              let (b', d', e) = r in
              elim e as (λ x. SmartBackend × Draft × Option Error) [
                | none ↦ publish_peers ctx factory rest (suc t) b' d'
                | some e ↦ (b', d', some e)
              ])
      goes_on h (b', d', none) k =
          both d' k.0 k.1.0 (publish_peers ctx factory rest (suc t) b' d') (h b' d')
      goes_on h (b', d', some e) k = tt
