-- ===== src/Smart/Lifecycle/Publishing.antt =====
-- smart.go: how the rounds of `publish`, its commit and its failure keep the invariant of the endpoints.
use hurricache_go_client.Prelude.{
  ℕ, suc, pos, ◌≤◌, ◌<◌, ◌≡◌, ◌∙◌, ap, true, false, Option, none, some, List, [], ◌∷◌, ◌++◌, String,
  ◌==◌, if◌then◌else◌, arith, count-snoc, Bool-cases, inl, inr, ◌⊎◌, ◌||◌,
}
use hurricache_go_client.Errors.{Except, ok, err, Error, CtxErr}
use hurricache_go_client.Rpc.{Stub}
use hurricache_go_client.Smart.Routing.{find_target}
use hurricache_go_client.Smart.State.{Connection, Endpoint, SmartBackend, add_refs, write, put, pin}
use hurricache_go_client.Smart.State.Pins.{SameBut, pin-SameBut, pin-refs}
use hurricache_go_client.Smart.Publish.{
  Draft, PeerRouting, new_endpoint, publish_peer, cleanup, commit, install, has_ended, no_routes,
}
use hurricache_go_client.Smart.Publish.Cases.{find_or_create_cases, publish_peer_cases}
use hurricache_go_client.Smart.Publish.Effects.{
  put-entries, put_all-entries, cleanup-released, deactivate-Deactivated, activate-Activated,
}
use hurricache_go_client.Smart.Publish.Targets.{
  find_target-entries, put_new-entries, find_target-put-none, find_target-put_other,
}
use hurricache_go_client.Smart.Lifecycle.Building.{
  Sound-pin_node, Sound-created, Sound-not_created, Sound-cleanup, Sound-install,
}
use hurricache_go_client.Smart.Lifecycle.Invariant.{Inv, retire_locked-Inv}

-- The invariant while a topology is built.
abbrev pub DraftInv : List (List Stub) → SmartBackend → Draft → Type 0
DraftInv calls b d = Inv false calls d.snap.targets d.created d.pinned b

-- The invariant after a peer was looked up.
abbrev FoundInv : List (List Stub) → Draft → SmartBackend × Except (Draft × Stub) → Type 0
FoundInv calls d (b, err e) = DraftInv calls b d
FoundInv calls d (b, ok (d', p)) = DraftInv calls b d'

abbrev one_at : Stub → Stub → ℕ
one_at p q = if p == q then 1 else 0

one_hit : (p q : Stub) → (p == q) ≡ true → one_at p q ≡ 1
one_hit p q y = rw y

one_miss : (p q : Stub) → (p == q) ≡ false → one_at p q ≡ 0
one_miss p q n = rw n

used_grown :
    {ep ep' : Endpoint} (m n : ℕ)
    → SameBut ep' ep
    → m ≤ n
    → (ep.active ≡ true) ⊎ (0 < m)
    → (ep'.active ≡ true) ⊎ (0 < n)
used_grown m n b l u = ground arith

write_other :
    (p q : Stub) (ep : Endpoint) (h : Stub → Endpoint) → (p == q) ≡ false → write p ep h q ≡ h q
write_other p q ep h n = rw n

write_same :
    (p q : Stub) (ep : Endpoint) (h : Stub → Endpoint) → (p == q) ≡ true → write p ep h q ≡ ep
write_same p q ep h y = rw y

module _ (calls : List (List Stub)) (t : String) (b : SmartBackend) (d : Draft)
    (i : DraftInv calls b d) (new : find_target t d.snap.targets ≡ none) where
  -- A node is pinned and becomes a target.
  pin_node-Inv :
      (p : Stub)
      → find_target t b.nodes ≡ some p
      → Inv false calls
          (put t p d.snap.targets)
          d.created
          (d.pinned ++ p ∷ [])
          (record b { endpoints = add_refs (pos 1) p b.endpoints })
  unfolding pin
  pin_node-Inv p e = record {
    at = λ q.
        Sound-pin_node (one_at p q) _ _ (pin-SameBut (p ∷ []) b.endpoints q)
          (find_target-entries t b.nodes p q e) (put-entries q t p d.snap.targets)
          (omega (arith, count-snoc p q d.pinned))
          (pin-refs (p ∷ []) b.endpoints q _ (i.at q).refs ∙ ap pos (omega arith)) (i.used q)
          (i.at q);
    used = λ q h.
        used_grown _ _ (pin-SameBut (p ∷ []) b.endpoints q) (omega (arith, count-snoc p q d.pinned))
          (i.used q h);
    keys = λ s h. i.keys s (find_target-put-none t p d.snap.targets s h).1;
  }

  -- A new endpoint becomes a target.
  new_endpoint-Inv :
      (c : Connection)
      → Inv false calls
          (put t b.next d.snap.targets)
          (put t b.next d.created)
          d.pinned
          (record b { endpoints = write b.next (new_endpoint c) b.endpoints; next = suc b.next })
  new_endpoint-Inv c = record {
    at = λ q. elim (Bool-cases (b.next == q)) [
      | inl y ↦ rw (write_same b.next q (new_endpoint c) b.endpoints y) (
          Sound-created c _ _
            (omega (arith, put-entries q t b.next d.snap.targets, one_hit b.next q y))
            (put_new-entries q t b.next d.created (i.keys t new)
              ∙ omega (arith, one_hit b.next q y))
            (ground arith) (ground arith) (i.at q))
      | inr n ↦ rw (write_other b.next q (new_endpoint c) b.endpoints n) (
          Sound-not_created _ _
            (omega (arith, put-entries q t b.next d.snap.targets, one_miss b.next q n))
            (omega
              (arith, put_new-entries q t b.next d.created (i.keys t new), one_miss b.next q n))
            (λ h. ground arith) (i.at q))
    ];
    used = λ q h. elim (Bool-cases (b.next == q)) [
      | inl y ↦ absurd (omega (arith, ((i.at q).unknown_nowhere (ground arith)).0))
      | inr n ↦ rw (write_other b.next q (new_endpoint c) b.endpoints n) (i.used q h)
    ];
    keys = λ s h.
        let (n, k) = find_target-put-none t b.next d.snap.targets s h in
        find_target-put_other t b.next d.created s n (i.keys s k);
  }

-- A publication that has failed: what it created is closed, and its pins are left.
pub cleanup-Inv :
    (calls : List (List Stub)) (b : SmartBackend) (d : Draft)
    → DraftInv calls b d
    → Inv false calls [] [] d.pinned (cleanup d.created b)
cleanup-Inv calls b d i =
    let (r, e, k) = cleanup-released d.created b in
    rw e (record { at = λ q. Sound-cleanup _ (k q) (i.at q); used = i.used; keys = λ s h. h })

-- The invariant after a round: of the topology so far, or of a failure.
abbrev pub RoundInv : List (List Stub) → SmartBackend × Draft × Option Error → Type 0
RoundInv calls (b, d, none) = DraftInv calls b d
RoundInv calls (b, d, some e) = Inv false calls [] [] d.pinned b

pub publish_peer-Inv :
    (calls : List (List Stub)) (ended : Option CtxErr) (dialed : Except Connection)
    (peer : PeerRouting) (b : SmartBackend) (d : Draft)
    → DraftInv calls b d
    → RoundInv calls (publish_peer ended dialed peer b d)
publish_peer-Inv calls ended dialed peer b d i =
    publish_peer_cases peer b d (FoundInv calls d) (RoundInv calls) (λ e. cleanup-Inv calls b d i)
      (λ b' e j. cleanup-Inv calls b' d j) (λ b' d' p e j. cleanup-Inv calls b' d' j)
      (λ b' d' p l j h. record { at = j.at; used = j.used; keys = j.keys }) ended dialed
      (find_or_create_cases peer.target b d (FoundInv calls d) (λ e. i) (λ p e. i)
        (λ p new e. pin_node-Inv calls peer.target b d i new p e)
        (λ new c. new_endpoint-Inv calls peer.target b d i new c) dialed)

-- The topology becomes current.
pub install-Inv :
    (calls : List (List Stub)) (b : SmartBackend) (d : Draft)
    → DraftInv calls b d
    → Inv false calls [] [] d.pinned (install d.snap b)
unfolding install
install-Inv calls b d i =
    let j =
      retire_locked-Inv {targets = []} {created = []} _
        (λ q.
          Sound-install _ (deactivate-Deactivated b.nodes b.endpoints q)
            (activate-Activated d.snap.targets _ q) (put_all-entries q d.snap.targets b.nodes)
            (i.at q))
        (λ s h. h) in
    record { at = j.at; used = j.used; keys = j.keys }

pub commit-Inv :
    (calls : List (List Stub)) (ended : Option CtxErr) (b : SmartBackend) (d : Draft)
    → DraftInv calls b d
    → Inv false calls [] [] d.pinned (commit ended b d).0
unfolding commit
commit-Inv calls ended b d i = elim (Bool-cases (no_routes d.snap.routes)) [
  | inl y ↦ rw (y, commit) (cleanup-Inv calls b d i)
  | inr n ↦ elim (Bool-cases (b.closed || has_ended ended)) [
    | inl y ↦ rw (n, y, commit) (cleanup-Inv calls b d i)
    | inr m ↦ rw (n, m, commit) (install-Inv calls b d i)
  ]
]
