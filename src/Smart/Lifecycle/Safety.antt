-- ===== src/Smart/Lifecycle/Safety.antt =====
-- smart.go: what holds in every state that a smart client reaches, in whatever order its calls, its refreshes
-- and its close take the lock.
use hurricache_go_client.Prelude.{
  ℕ, pos, ◌+◌, ◌≤◌, ◌<◌, ◌≡◌, Bool, true, false, List, [], String, arith, count, ◌⊎◌,
}
use hurricache_go_client.Rpc.{Stub}
use hurricache_go_client.Smart.State.{SmartBackend, Endpoint}
use hurricache_go_client.Smart.State.Retire.{entries}
use hurricache_go_client.Smart.Lifecycle.{
  Holder, nobody, discovering, publishing, unwinding, System, Reach, new_system,
}
use hurricache_go_client.Smart.Lifecycle.Sound.{Sound, Places, held}
use hurricache_go_client.Smart.Lifecycle.Invariant.{Inv, pins, targets_of}
use hurricache_go_client.Smart.Lifecycle.Reachable.{HolderInv, Reach-Inv}

-- What the holder of the gate has pinned, and what else it has of a topology that is being built.
unfoldable pub holder_pins : Holder → List Stub
holder_pins nobody = []
holder_pins discovering = []
holder_pins (publishing d peers) = d.pinned
holder_pins (unwinding pinned) = pinned

abbrev holder_targets : Holder → List (String × Stub)
holder_targets (publishing d peers) = d.snap.targets
holder_targets _ = []

abbrev holder_created : Holder → List (String × Stub)
holder_created (publishing d peers) = d.created
holder_created _ = []

-- How often an endpoint is pinned, by running calls and by a publication.
unfoldable pub pinned : System → Stub → ℕ
unfolding holder_pins
pinned s q = pins q s.calls + count q (holder_pins s.holder)

HolderInv-Inv :
    (over : Bool) (calls : List (List Stub)) (h : Holder) (b : SmartBackend)
    → HolderInv over calls h b
    → Inv over calls (holder_targets h) (holder_created h) (holder_pins h) b
unfolding holder_pins
HolderInv-Inv over calls nobody b i = i
HolderInv-Inv over calls discovering b i = i
HolderInv-Inv over calls (publishing d peers) b i = i
HolderInv-Inv over calls (unwinding pinned) b i = i

-- What the theorems read of the invariant.
module _ (over known : Bool) (ep : Endpoint) (a : Places) (s : Sound over known ep a) where
  used_open : over ≡ false → 0 < a.current + held a → (ep.closed ≡ false) × (a.released ≡ 0)
  used_open f p =
      let c = s.open_while_used f in
      let d = s.current_active in let r = s.released_gone in used_open_by c d r p
    where
      used_open_by :
          (ep.closed ≡ true → (ep.active ≡ false) × (held a ≡ 0))
          → (0 < a.current → ep.active ≡ true)
          → (0 < a.released
              → (ep.closed ≡ true)
                ⊎ (a.nodes + a.calls + a.current + a.drafted + a.pinned + a.created ≡ 0))
          → 0 < a.current + held a
          → (ep.closed ≡ false) × (a.released ≡ 0)
      used_open_by c d r p = ground arith

module _ (coordinators : List String) (s : System) (r : Reach (new_system coordinators) s) where
  inv :
      Inv s.finished s.calls
        (holder_targets s.holder)
        (holder_created s.holder)
        (holder_pins s.holder)
        s.backend
  inv = HolderInv-Inv s.finished s.calls s.holder s.backend (Reach-Inv coordinators s r).at

-- In every state that a new smart client reaches, by any interleaving of its calls, refreshes and close, the
-- references of an endpoint are as many as its pins by running calls and by the publication that is going on.
pub refs_are_pins :
    (coordinators : List String) (s : System)
    → Reach (new_system coordinators) s
    → (q : Stub) → (s.backend.endpoints q).refs ≡ pos (pinned s q)
unfolding pinned
refs_are_pins coordinators s r q = ((inv coordinators s r).at q).refs

-- In every state that a new smart client reaches before `close` closes the endpoints, an endpoint that the
-- current topology names, or that a running call or the publication that is going on has pinned, is not closed,
-- and the `Close` of its connection was not called.
pub used_endpoints_are_open :
    (coordinators : List String) (s : System)
    → Reach (new_system coordinators) s
    → s.finished ≡ false
    → (q : Stub) → 0 < entries q (targets_of s.backend.snapshot) + pinned s q
    → ((s.backend.endpoints q).closed ≡ false) × (count q s.backend.released ≡ 0)
unfolding pinned
used_endpoints_are_open coordinators s r f q p = used_open _ _ _ _ ((inv coordinators s r).at q) f p

-- In every state that a new smart client reaches, its close included, the `Close` of an endpoint's connection was
-- called at most once.
pub closed_at_most_once :
    (coordinators : List String) (s : System)
    → Reach (new_system coordinators) s
    → (q : Stub) → count q s.backend.released ≤ 1
closed_at_most_once coordinators s r q = ((inv coordinators s r).at q).released_once

-- In every state that a new smart client reaches, each endpoint that it keeps among its nodes is active or
-- pinned by a running call or by the publication that is going on.
pub nodes_are_used :
    (coordinators : List String) (s : System)
    → Reach (new_system coordinators) s
    → (q : Stub) → 0 < entries q s.backend.nodes
    → ((s.backend.endpoints q).active ≡ true) ⊎ (0 < pinned s q)
unfolding pinned
nodes_are_used coordinators s r q n = (inv coordinators s r).used q n
