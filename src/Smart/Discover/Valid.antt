-- ===== src/Smart/Discover/Valid.antt =====
-- smart.go: which answers of a coordinator `discover` accepts, and what it makes of them.
use hurricache_go_client.Prelude.{
  ℕ, ◌≡◌, ◌<◌, refl, sym, ◌∙◌, Bool, true, false, not, ◌||◌, ◌&&◌, ◌==◌, ltb, Option, none, some,
  List, [], ◌∷◌, ◌++◌, String, subst, inr, ◌⊎◌, append_assoc, append-nil, arith, All,
}
use hurricache_go_client.Errors.{Code, Except, ok, err}
use hurricache_go_client.Errors.Guards.{if_ok, if_not, ok_inj}
use hurricache_go_client.Smart.Publish.{PeerRouting, Discovery}
use hurricache_go_client.Smart.Discover.{
  RoutingInfoData, stream, is_empty_string, inconsistent, gather, is_data_role, bad_route,
  check_partitions, check_peers, no_peers, check_discovery, check_gathered, no_discovery,
  read_reply,
}

-- A peer whose target has a name, whose role serves data, and whose partitions are among the shards.
pub record ValidPeer (shards : ℕ) (p : PeerRouting) : Type 0 where
  pub named : is_empty_string p.target ≡ false
  pub serves : is_data_role p.role ≡ true
  pub in_range : All (λ i. i < shards) p.partition_ids

-- The routes of all messages, in order.
abbrev pub all_peers : List RoutingInfoData → List PeerRouting
all_peers [] = []
all_peers (r ∷ rest) = r.peer_routing ++ all_peers rest

-- What was made of the messages of a stream.
pub record Accepted (rs : List RoutingInfoData) (end : Option (Code × List String)) (d : Discovery)
    : Type 0 where
  pub complete : end ≡ none
  pub counted : 0 < d.shards
  pub agreed : All (λ r. r.max_shards ≡ d.shards) rs
  pub gathered : d.peers ≡ all_peers rs
  pub some_peer : no_peers d.peers ≡ false
  pub valid : All (ValidPeer d.shards) d.peers

check_partitions_in_range :
    (shards : ℕ) (ids : List ℕ) (u : Unit {0})
    → check_partitions shards ids ≡ ok u
    → All (λ i. i < shards) ids
unfolding check_partitions
check_partitions_in_range shards [] u e = tt
check_partitions_in_range shards (i ∷ rest) u e =
    let (y, k) = if_ok (ltb i shards) (check_partitions shards rest) _ u e in
    (ground arith, check_partitions_in_range shards rest u k)

after_partitions :
    (c : Except (Unit {0})) (x : Except (Unit {0})) (u : Unit {0})
    → elim c as (λ z. Except (Unit {0})) [ err e ↦ err e | ok v ↦ x ] ≡ ok u
    → (c ≡ ok tt) × (x ≡ ok u)
after_partitions (ok v) x u h = (refl, h)
after_partitions (err e) x u h = absurd (ground arith)

good_route :
    (p : PeerRouting)
    → bad_route p ≡ false
    → (is_empty_string p.target ≡ false) × (is_data_role p.role ≡ true)
good_route p h = ground arith

check_peers-ValidPeer :
    (shards : ℕ) (peers : List PeerRouting) (u : Unit {0})
    → check_peers shards peers ≡ ok u
    → All (ValidPeer shards) peers
unfolding check_peers
check_peers-ValidPeer shards [] u e = tt
check_peers-ValidPeer shards (p ∷ rest) u e =
    let (n, k) = if_not (bad_route p) _ _ u e in
    let (c, m) = after_partitions (check_partitions shards p.partition_ids) _ u k in
    let (t, r) = good_route p n in
    (
      record {
        named = t;
        serves = r;
        in_range = check_partitions_in_range shards p.partition_ids tt c;
      },
      check_peers-ValidPeer shards rest u m,
    )

-- What the loop over the messages has made of them.
record Gathered (d : Discovery) (rs : List RoutingInfoData) (end : Option (Code × List String))
    (d' : Discovery) : Type 0 where
  complete : end ≡ none
  before : (d.shards ≡ 0) ⊎ (d.shards ≡ d'.shards)
  agreed : All (λ r. r.max_shards ≡ d'.shards) rs
  gathered : d'.peers ≡ d.peers ++ all_peers rs

agreeing :
    (m n k : ℕ)
    → (m == 0 || not (n == 0) && not (n == m)) ≡ false
    → (m ≡ 0) ⊎ (m ≡ k)
    → ((n ≡ 0) ⊎ (n ≡ k)) × (m ≡ k)
agreeing m n k h o = ground arith

gather-Gathered :
    (d : Discovery) (rs : List RoutingInfoData) (end : Option (Code × List String)) (d' : Discovery)
    → gather d rs end ≡ ok d'
    → Gathered d rs end d'
unfolding gather
gather-Gathered d [] none d' e = subst (Gathered d [] none) (ok_inj d d' e) (record {
  complete = refl;
  before = inr refl;
  agreed = tt;
  gathered = sym (append-nil d.peers);
})
gather-Gathered d [] (some f) d' e = absurd (ground arith)
gather-Gathered d (r ∷ rs) end d' e =
    let (n, k) = if_not (inconsistent d.shards r) _ _ d' e in
    let g = gather-Gathered _ rs end d' k in
    let (b, m) = agreeing r.max_shards d.shards d'.shards n g.before in
    record {
      complete = g.complete;
      before = b;
      agreed = (m, g.agreed);
      gathered = g.gathered ∙ append_assoc d.peers r.peer_routing (all_peers rs);
    }

check_discovery_ok :
    (d d' : Discovery)
    → check_discovery d ≡ ok d'
    → (d ≡ d') × (0 < d.shards) × (no_peers d.peers ≡ false) × All (ValidPeer d.shards) d.peers
unfolding check_discovery
check_discovery_ok d d' e =
    let (n, k) = if_not (d.shards == 0 || no_peers d.peers) _ _ d' e in
    let (c, m) = after_peers (check_peers d.shards d.peers) k in
    let (z, p) = not_either d.shards (no_peers d.peers) n in
    (ok_inj d d' m, z, p, check_peers-ValidPeer d.shards d.peers tt c)
  where
    after_peers :
        (c : Except (Unit {0}))
        → elim c as (λ z. Except Discovery) [ err e ↦ err e | ok v ↦ ok d ] ≡ ok d'
        → (c ≡ ok tt) × (Path (Except Discovery) (ok d) (ok d'))
    after_peers (ok v) h = (refl, h)
    after_peers (err x) h = absurd (ground arith)

    not_either : (n : ℕ) (b : Bool) → (n == 0 || b) ≡ false → (0 < n) × (b ≡ false)
    not_either n b h = ground arith

-- What `discover` accepts of a coordinator's stream is complete, gathers the routes of all its messages in order,
-- and is valid: every message gives the same number of shards, which is not zero, there is a peer, and every peer
-- has a target with a name, a role that serves data, and only partitions among the shards.
pub discovery_is_valid :
    (rs : List RoutingInfoData) (end : Option (Code × List String)) (d : Discovery)
    → read_reply (stream rs end) ≡ ok d
    → Accepted rs end d
unfolding read_reply
discovery_is_valid rs end d e =
    accepted_by (gather no_discovery rs end) (λ x h. gather-Gathered no_discovery rs end x h) e
  where
    accepted_by :
        (r : Except Discovery)
        → ((x : Discovery) → r ≡ ok x → Gathered no_discovery rs end x)
        → check_gathered r ≡ ok d
        → Accepted rs end d
    accepted_by (err x) h k = absurd (ground arith)
    accepted_by (ok x) h k =
        let (q, z, p, v) = check_discovery_ok x d k in
        let g = h x refl in
        subst (Accepted rs end) q (record {
          complete = g.complete;
          counted = z;
          agreed = g.agreed;
          gathered = g.gathered;
          some_peer = p;
          valid = v;
        })
