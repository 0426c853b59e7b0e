-- ===== src/Smart/Lifecycle/Closing.antt =====
-- smart.go: what `close` does to each endpoint, and how it keeps the invariant.
use hurricache_go_client.Prelude.{
  ◌<◌, ◌≡◌, refl, ◌∙◌, Bool, true, List, [], ◌∷◌, String, ◌==◌, arith, Bool-cases, inl, inr,
}
use hurricache_go_client.Rpc.{Stub}
use hurricache_go_client.Smart.State.{SmartBackend, close_node}
use hurricache_go_client.Smart.State.Retire.{
  entries, ClosedAt, same, shut, ClosedAt-close_node, Untouched, Untouched-refl, Untouched-trans,
  close_node-Untouched,
}
use hurricache_go_client.Smart.Lifecycle.{close_nodes}
use hurricache_go_client.Smart.Lifecycle.Building.{Sound-close_same, Sound-close_shut}
use hurricache_go_client.Smart.Lifecycle.Invariant.{Inv}

pub close_nodes-Untouched :
    (l : List (String × Stub)) (b : SmartBackend) → Untouched b (close_nodes l b)
unfolding close_nodes
close_nodes-Untouched [] b = Untouched-refl b
close_nodes-Untouched ((t, p) ∷ l) b =
    Untouched-trans (close_node-Untouched p b) (close_nodes-Untouched l (close_node p b))

pub close_nodes-nodes :
    (l : List (String × Stub)) (b : SmartBackend) → (close_nodes l b).nodes ≡ b.nodes
unfolding close_nodes
close_nodes-nodes [] b = refl
close_nodes-nodes ((t, p) ∷ l) b = close_nodes-nodes l (close_node p b)

close_nodes-ClosedAt :
    (l : List (String × Stub)) (b : SmartBackend) (q : Stub)
    → ClosedAt (0 < entries q l) b (close_nodes l b) q
unfolding close_nodes
close_nodes-ClosedAt [] b q = same refl refl
close_nodes-ClosedAt ((t, p) ∷ l) b q =
    ClosedAt-close_node _ _ p q b _ (λ h. omega arith) (λ e. ground arith)
      (close_nodes-ClosedAt l (close_node p b) q)

-- Once a node is closed it stays so, and `close` closes each.
stays_closed :
    (l : List (String × Stub)) (b : SmartBackend) (q : Stub)
    → (b.endpoints q).closed ≡ true
    → ((close_nodes l b).endpoints q).closed ≡ true
stays_closed l b q h = elim (close_nodes-ClosedAt l b q) [ same e k ↦ e ∙ h | shut r e k ↦ e ]

pub close_nodes-closed :
    (l : List (String × Stub)) (b : SmartBackend) (q : Stub)
    → 0 < entries q l
    → ((close_nodes l b).endpoints q).closed ≡ true
unfolding close_nodes
close_nodes-closed [] b q h = absurd (omega arith)
close_nodes-closed ((t, p) ∷ l) b q h = elim (Bool-cases (p == q)) [
  | inl y ↦ stays_closed l (close_node p b) q (ground arith)
  | inr n ↦ close_nodes-closed l (close_node p b) q (ground arith)
]

pub close_nodes-Inv :
    (over : Bool) (calls : List (List Stub)) (targets created : List (String × Stub))
    (pinned : List Stub) (b : SmartBackend)
    → Inv over calls targets created pinned b
    → Inv true calls targets created pinned (close_nodes b.nodes b)
close_nodes-Inv over calls targets created pinned b i =
    let u = close_nodes-Untouched b.nodes b in
    let n = close_nodes-nodes b.nodes b in
    record {
      at = λ q.
          rw (u.snapshot, u.next, n)
            (elim (close_nodes-ClosedAt b.nodes b q) [
              | same e k ↦ Sound-close_same _ (u.active q) (u.refs q) (i.at q) e k
              | shut w e k ↦ Sound-close_shut _ (u.active q) (u.refs q) (i.at q) w e k
            ]);
      used = λ q. rw (n, u.active q) (i.used q);
      keys = i.keys;
    }
