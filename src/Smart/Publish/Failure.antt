-- ===== src/Smart/Publish/Failure.antt =====
-- smart.go: what a `publish` that fails leaves as it was.
use hurricache_go_client.Prelude.{
  ℕ, suc, ◌+◌, ◌≡◌, refl, sym, ◌∙◌, Bool, true, false, ◌||◌, Option, none, some, List, [], ◌∷◌,
  String, length, subst, arith, if◌then◌else◌,
}
use hurricache_go_client.Errors.{Except, Error, CtxErr}
use hurricache_go_client.Rpc.{Stub}
use hurricache_go_client.World.{Ctx}
use hurricache_go_client.Smart.State.{Connection, Endpoint, SmartBackend, unpin_all, retire_locked}
use hurricache_go_client.Smart.State.Retire.{retire_nodes-Untouched}
use hurricache_go_client.Smart.Publish.{
  Discovery, Draft, PeerRouting, new_draft, publish_peer, publish_peers, cleanup, commit,
  commit_unless, no_routes, has_ended, install, publish, unwind,
}
use hurricache_go_client.Smart.Publish.Cases.{find_or_create_cases, publish_peer_cases}
use hurricache_go_client.Smart.Publish.Effects.{cleanup-released}

-- What is kept: the current topology and whether the client is closed.
pub record Retained (b c : SmartBackend) : Type 0 where
  pub snapshot : c.snapshot ≡ b.snapshot
  pub current : c.active_coordinator ≡ b.active_coordinator
  pub coordinators : c.coordinators ≡ b.coordinators
  pub closed : c.closed ≡ b.closed

pub Retained-refl : (b : SmartBackend) → Retained b b
Retained-refl b = record { snapshot = refl; current = refl; coordinators = refl; closed = refl }

pub Retained-trans : {a b c : SmartBackend} → Retained a b → Retained b c → Retained a c
Retained-trans u v = record {
  snapshot = v.snapshot ∙ u.snapshot;
  current = v.current ∙ u.current;
  coordinators = v.coordinators ∙ u.coordinators;
  closed = v.closed ∙ u.closed;
}

cleanup-Retained : (l : List (String × Stub)) (b : SmartBackend) → Retained b (cleanup l b)
cleanup-Retained l b =
    let (r, e, k) = cleanup-released l b in
    rw e (record { snapshot = refl; current = refl; coordinators = refl; closed = refl })

unwind-Retained : (ps : List Stub) (b : SmartBackend) → Retained b (unwind ps b)
unfolding unwind unpin_all retire_locked
unwind-Retained ps b =
    let u = retire_nodes-Untouched b.nodes _ in
    record {
      snapshot = u.snapshot;
      current = u.current;
      coordinators = u.coordinators;
      closed = u.over;
    }

pub publish_peer-Retained :
    (ended : Option CtxErr) (dialed : Except Connection) (peer : PeerRouting) (b : SmartBackend)
    (d : Draft)
    → Retained b (publish_peer ended dialed peer b d).0
publish_peer-Retained ended dialed peer b d =
    publish_peer_cases peer b d (λ r. Retained b r.0) (λ r. Retained b r.0)
      (λ e. cleanup-Retained d.created b)
      (λ b' e k. Retained-trans k (cleanup-Retained d.created b'))
      (λ b' d' p e k. Retained-trans k (cleanup-Retained d'.created b')) (λ b' d' p l k h. k) ended
      dialed
      (find_or_create_cases peer.target b d (λ r. Retained b r.0) (λ e. Retained-refl b)
        (λ p e. Retained-refl b) (λ p n e. same_but b) (λ n c. same_but b) dialed)
  where
    same_but :
        (b : SmartBackend) {h : Stub → Endpoint} {n : Stub}
        → Retained b (record b { endpoints = h; next = n })
    same_but b = record { snapshot = refl; current = refl; coordinators = refl; closed = refl }

-- The two refusals of a commit, and its success.
abbrev pub chosen :
    Bool → Bool → SmartBackend → SmartBackend → Error → Error → SmartBackend × Option Error
chosen c c' x y p q = if c then (x, some p) else if c' then (x, some q) else (y, none)

refused_by :
    (c c' : Bool) (x y : SmartBackend) (p q e : Error)
    → (chosen c c' x y p q).1 ≡ some e
    → (chosen c c' x y p q).0 ≡ x
refused_by true c' x y p q e h = refl
refused_by false true x y p q e h = refl
refused_by false false x y p q e h = ground arith

commit-Retained :
    (ended : Option CtxErr) (b : SmartBackend) (d : Draft) (e : Error)
    → (commit ended b d).1 ≡ some e
    → Retained b (commit ended b d).0
unfolding commit
commit-Retained ended b d e h =
    subst (Retained b)
      (sym (
        refused_by (no_routes d.snap.routes) (b.closed || has_ended ended) (cleanup d.created b)
          (install d.snap b) _ _ e h))
      (cleanup-Retained d.created b)

module _ (ctx : Ctx) (factory : ℕ → String → Except Connection) where
  publish_peers-Retained :
      (peers : List PeerRouting) (t : ℕ) (b : SmartBackend) (d : Draft)
      → Retained b (publish_peers ctx factory peers t b d).0
  unfolding publish_peers
  publish_peers-Retained [] t b d = Retained-refl b
  publish_peers-Retained (peer ∷ rest) t b d =
      goes_on (λ b' d'. publish_peers-Retained rest (suc t) b' d')
        (publish_peer (ctx t) (factory t peer.target) peer b d)
        (publish_peer-Retained (ctx t) (factory t peer.target) peer b d)
    where
      goes_on :
          ((b' : SmartBackend) (d' : Draft)
            → Retained b' (publish_peers ctx factory rest (suc t) b' d').0)
          → (r : SmartBackend × Draft × Option Error) → Retained b r.0
          → Retained b
              (let (b', d', e) = r in
                elim e as (λ x. SmartBackend × Draft × Option Error) [
                  | none ↦ publish_peers ctx factory rest (suc t) b' d'
                  | some e ↦ (b', d', some e)
                ]).0
      goes_on h (b', d', none) k = Retained-trans k (h b' d')
      goes_on h (b', d', some e) k = k

  commit_unless-Retained :
      (r : Option Error) (t : ℕ) (b : SmartBackend) (d : Draft) (e : Error)
      → (commit_unless ctx factory r t b d).1 ≡ some e
      → Retained b (commit_unless ctx factory r t b d).0
  commit_unless-Retained none t b d e h = commit-Retained (ctx t) b d e h
  commit_unless-Retained (some x) t b d e h = Retained-refl b

  pub publish-Retained :
      (disc : Discovery) (t : ℕ) (b : SmartBackend) (e : Error)
      → (publish ctx factory disc t b).1 ≡ some e
      → Retained b (publish ctx factory disc t b).0
  unfolding publish
  publish-Retained disc t b e h =
      let (b', d, x) = publish_peers ctx factory disc.peers t b (new_draft disc) in
      Retained-trans (publish_peers-Retained disc.peers t b (new_draft disc)) (
        Retained-trans (commit_unless-Retained x (t + length disc.peers) b' d e h)
          (unwind-Retained d.pinned _))
