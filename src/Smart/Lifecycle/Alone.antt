-- ===== src/Smart/Lifecycle/Alone.antt =====
-- smart.go: `publish`, run with no other goroutine between its sections under the lock, takes steps of the
-- system.
use hurricache_go_client.Prelude.{
  ℕ, suc, ◌+◌, refl, Option, none, some, List, [], ◌∷◌, String, length,
}
use hurricache_go_client.Errors.{Except, Error}
use hurricache_go_client.World.{Ctx}
use hurricache_go_client.Smart.State.{Connection, SmartBackend}
use hurricache_go_client.Smart.Publish.{
  PeerRouting, Discovery, Draft, new_draft, publish_peer, publish_peers, commit_unless, publish,
}
use hurricache_go_client.Smart.Lifecycle.{
  Holder, discovering, publishing, unwinding, System, publish_starts, publish_goes_on,
  publish_commits, publish_unwinds, Reach, here, next, after_round,
}

pub Reach-trans : {s t u : System} → Reach s t → Reach t u → Reach s u
Reach-trans r here = r
Reach-trans r (next q k) = next (Reach-trans r q) k

module _ (s : System) where
  -- The system with another backend and another holder of the gate.
  abbrev pub at : SmartBackend → Holder → System
  at b h = record s { backend = b; holder = h }

  module _ (ctx : Ctx) (factory : ℕ → String → Except Connection) where
    publish_peers-Reach :
        (peers : List PeerRouting) (t : ℕ) (b : SmartBackend) (d : Draft)
        → Reach
            (at b (publishing d peers))
            (after_round s [] (publish_peers ctx factory peers t b d))
    unfolding publish_peers
    publish_peers-Reach [] t b d = here
    publish_peers-Reach (peer ∷ rest) t b d =
        goes_on (λ b' d'. publish_peers-Reach rest (suc t) b' d')
          (publish_peer (ctx t) (factory t peer.target) peer b d)
          (next here (publish_goes_on d peer rest (ctx t) (factory t peer.target) refl))
      where
        goes_on :
            ((b' : SmartBackend) (d' : Draft)
              → Reach
                  (at b' (publishing d' rest))
                  (after_round s [] (publish_peers ctx factory rest (suc t) b' d')))
            → (r : SmartBackend × Draft × Option Error)
            → Reach (at b (publishing d (peer ∷ rest))) (after_round s rest r)
            → Reach (at b (publishing d (peer ∷ rest))) (
                after_round s [] (
                  let (b', d', e) = r in
                  elim e [
                    | none ↦ publish_peers ctx factory rest (suc t) b' d'
                    | some e ↦ (b', d', some e)
                  ]))
        goes_on h (b', d', none) k = Reach-trans k (h b' d')
        goes_on h (b', d', some e) k = k

    commit_unless-Reach :
        (t : ℕ) (b : SmartBackend) (d : Draft) (e : Option Error)
        → Reach
            (after_round s [] (b, d, e))
            (at (commit_unless ctx factory e t b d).0 (unwinding d.pinned))
    commit_unless-Reach t b d none = next here (publish_commits d (ctx t) refl)
    commit_unless-Reach t b d (some e) = here

    pub publish-Reach :
        (disc : Discovery) (t : ℕ) (b : SmartBackend)
        → Reach (at b discovering) (at (publish ctx factory disc t b).0 discovering)
    unfolding publish
    publish-Reach disc t b =
        let (b', d, e) = publish_peers ctx factory disc.peers t b (new_draft disc) in
        let n = t + length disc.peers in
        next
          (Reach-trans (next here (publish_starts disc refl)) (
            Reach-trans (publish_peers-Reach disc.peers t b (new_draft disc))
              (commit_unless-Reach n b' d e)))
          (publish_unwinds d.pinned refl)
