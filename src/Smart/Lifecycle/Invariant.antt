-- ===== src/Smart/Lifecycle/Invariant.antt =====
-- smart.go: what is invariant of the endpoints while a topology is used, and the sections of `run` and
-- `close` under the lock.
use hurricache_go_client.Prelude.{
  ℕ, pos, ◌+◌, ◌<◌, ◌≡◌, refl, sym, ◌∙◌, ap, Bool, true, false, Option, none, some, List, [], ◌∷◌,
  ◌++◌, String, ltb, arith, count, ◌⊎◌,
}
use hurricache_go_client.Rpc.{Stub}
use hurricache_go_client.Smart.Routing.{Topology, find_target}
use hurricache_go_client.Smart.State.{
  Endpoint, SmartBackend, endpoints_of, is_retired, retire_nodes, retire_locked, pin_snapshot,
  unpin_all,
}
use hurricache_go_client.Smart.State.Pins.{
  SameBut, pin-SameBut, pin-refs, unpin-SameBut, unpin-refs,
}
use hurricache_go_client.Smart.State.Retire.{
  entries, same, shut, retire_nodes-Untouched, retire_nodes-RetiredAt,
}
use hurricache_go_client.Smart.Lifecycle.Sound.{
  Places, Sound, NodeUsed, Sound-pin, Sound-unpin_call, Sound-unpin_draft, Sound-retire_same,
  Sound-retire_shut,
}

abbrev pub targets_of : Option Topology → List (String × Stub)
targets_of none = []
targets_of (some snap) = snap.targets

-- How often an endpoint is pinned by the running calls.
abbrev pub pins : Stub → List (List Stub) → ℕ
pins q [] = 0
pins q (ps ∷ calls) = count q ps + pins q calls

pins-append : (q : Stub) (xs ys : List (List Stub)) → pins q (xs ++ ys) ≡ pins q xs + pins q ys
pins-append q [] ys = omega arith
pins-append q (x ∷ xs) ys = omega (arith, pins-append q xs ys)

-- Where an endpoint stands, with the pins of the running calls, and with the topology that is being
-- built, the endpoints created for it and its pins.
abbrev pub places :
    List (List Stub)
    → List (String × Stub)
    → List (String × Stub)
    → List Stub
    → SmartBackend
    → Stub
    → Places
places calls targets created pinned b q = record {
  nodes = entries q b.nodes;
  calls = pins q calls;
  current = entries q (targets_of b.snapshot);
  drafted = entries q targets;
  pinned = count q pinned;
  created = entries q created;
  released = count q b.released;
}

module _ (over : Bool) (calls : List (List Stub)) (targets created : List (String × Stub))
    (pinned : List Stub) (b : SmartBackend) where
  abbrev pub SoundAll : Type 0
  SoundAll =
      (q : Stub)
      → Sound over (ltb q b.next) (b.endpoints q) (places calls targets created pinned b q)

  -- What is created for a topology is a target of it.
  pub record Inv : Type 0 where
    pub at : SoundAll
    pub used : (q : Stub) → NodeUsed (b.endpoints q) (places calls targets created pinned b q)
    pub keys : (t : String) → find_target t targets ≡ none → find_target t created ≡ none

abbrev pub Keys : List (String × Stub) → List (String × Stub) → Type 0
Keys targets created = (t : String) → find_target t targets ≡ none → find_target t created ≡ none

used_when_kept :
    (ep ep' : Endpoint) (n : ℕ)
    → ep'.active ≡ ep.active
    → ep.refs ≡ pos n
    → is_retired ep ≡ false
    → (ep'.active ≡ true) ⊎ (0 < n)
used_when_kept ep ep' n a r k = ground arith

used_more :
    {ep ep' : Endpoint} (m c n : ℕ)
    → SameBut ep' ep
    → (ep.active ≡ true) ⊎ (0 < c + n)
    → (ep'.active ≡ true) ⊎ (0 < m + c + n)
used_more m c n b u = ground arith

pins_of_calls :
    {calls : List (List Stub)} (q : Stub) (before : List (List Stub)) (ps : List Stub)
    (after : List (List Stub))
    → calls ≡ before ++ ps ∷ after
    → pins q calls ≡ count q ps + pins q (before ++ after)
pins_of_calls q before ps after e =
    rw e (omega (arith, pins-append q before (ps ∷ after), pins-append q before after))

retired_unheld :
    (ep : Endpoint) (n : ℕ) → ep.refs ≡ pos n → is_retired ep ≡ true → (ep.active ≡ false) × (n ≡ 0)
retired_unheld ep n r k = ground arith

module _ {over : Bool} {calls : List (List Stub)} {targets created : List (String × Stub)}
    {pinned : List Stub} where
  -- A retirement restores that every node is used, and keeps the rest.
  pub retire_locked-Inv :
      (b : SmartBackend)
      → SoundAll over calls targets created pinned b
      → Keys targets created
      → Inv over calls targets created pinned (retire_locked b)
  unfolding retire_locked
  retire_locked-Inv b s k =
      let c = retire_nodes b.nodes b in
      let u = retire_nodes-Untouched b.nodes b in
      record {
        at = λ q.
            let r = retire_nodes-RetiredAt b.nodes b q in
            rw (u.snapshot, u.next)
              (elim (r.closing) [
                | same e l ↦ Sound-retire_same _ _ (u.active q) (u.refs q) r.fewer (s q) e l
                | shut w e l ↦
                    let (i, h) = retired_unheld (b.endpoints q) _ (s q).refs w.0 in
                    Sound-retire_shut _ _ (u.active q) (u.refs q) r.fewer (s q) i h w.1 e l
              ]);
        used = λ q p.
            let r = retire_nodes-RetiredAt b.nodes b q in
            used_when_kept (b.endpoints q) (c.endpoints q) _ (u.active q) (s q).refs (r.kept p);
        keys = k;
      }

module _ {over : Bool} {targets created : List (String × Stub)} {pinned : List Stub} where
  -- A call that ends.
  pub unpin_all-Inv :
      {calls : List (List Stub)} (before : List (List Stub)) (ps : List Stub)
      (after : List (List Stub)) (b : SmartBackend)
      → calls ≡ before ++ ps ∷ after
      → Inv over calls targets created pinned b
      → Inv over (before ++ after) targets created pinned (unpin_all ps b)
  unfolding unpin_all
  unpin_all-Inv before ps after b e i =
      retire_locked-Inv _
        (λ q.
          let c = pins_of_calls q before ps after e in
          Sound-unpin_call _ (unpin-SameBut ps b.endpoints q) (omega (arith, c))
            (unpin-refs ps b.endpoints q _ ((i.at q).refs ∙ ap pos (omega (arith, c)))) (i.at q))
        i.keys

module _ {calls : List (List Stub)} {targets created : List (String × Stub)}
    {pinned : List Stub} where
  -- A call that starts.
  pub pin_snapshot-Inv :
      (snap : Topology) (b : SmartBackend)
      → b.snapshot ≡ some snap
      → Inv false calls targets created pinned b
      → Inv false (endpoints_of snap.targets ∷ calls) targets created pinned (pin_snapshot snap b)
  unfolding pin_snapshot
  pin_snapshot-Inv snap b e i =
      let ps = endpoints_of snap.targets in
      record {
        at = λ q.
            Sound-pin _ (pin-SameBut ps b.endpoints q) (sym (ap (λ o. entries q (targets_of o)) e))
              (pin-refs ps b.endpoints q _ (i.at q).refs) (i.at q);
        used = λ q n. used_more _ _ _ (pin-SameBut ps b.endpoints q) (i.used q n);
        keys = i.keys;
      }

module _ {over : Bool} {calls : List (List Stub)} {pinned : List Stub} where
  -- The unpinning after a publication.
  pub unpin_draft-Inv :
      (b : SmartBackend)
      → Inv over calls [] [] pinned b
      → Inv over calls [] [] [] (unpin_all pinned b)
  unfolding unpin_all
  unpin_draft-Inv b i =
      retire_locked-Inv _
        (λ q.
          Sound-unpin_draft (unpin-SameBut pinned b.endpoints q) refl
            (unpin-refs pinned b.endpoints q _ ((i.at q).refs ∙ ap pos (omega arith))) (i.at q))
        i.keys
