-- ===== src/Smart/Lifecycle/Sound.antt =====
-- smart.go: what is sound about one endpoint, in the numbers that tell where it stands, and how each
-- kind of change keeps it so.
use hurricache_go_client.Prelude.{
  ℕ, pos, ◌+◌, ◌≤◌, ◌<◌, ◌≡◌, ◌∙◌, ap, Bool, true, false, if◌then◌else◌, arith, inl, ◌⊎◌,
}
use hurricache_go_client.Smart.State.{Endpoint}
use hurricache_go_client.Smart.State.Pins.{SameBut}

-- How often an endpoint stands in the nodes, is pinned by running calls, stands in the current topology,
-- in the one that is being built, among its pins and among what was created for it, and how often its
-- connection was closed.
pub record Places : Type 0 where
  pub nodes : ℕ
  pub calls : ℕ
  pub current : ℕ
  pub drafted : ℕ
  pub pinned : ℕ
  pub created : ℕ
  pub released : ℕ

abbrev pub held : Places → ℕ
held a = a.calls + a.pinned

-- Whether no map, topology or list has the endpoint.
abbrev pub Nowhere : Places → Type 0
Nowhere a = a.nodes + a.calls + a.current + a.drafted + a.pinned + a.created ≡ 0

-- `over` tells whether the client has closed its endpoints, `known` whether the address is in use.
pub record Sound (over known : Bool) (ep : Endpoint) (a : Places) : Type 0 where
  -- The references count the pins.
  pub refs : ep.refs ≡ pos (held a)
  -- What is closed is neither active nor pinned.
  pub open_while_used : over ≡ false → ep.closed ≡ true → (ep.active ≡ false) × (held a ≡ 0)
  -- What the current topology names is active.
  pub current_active : 0 < a.current → ep.active ≡ true
  -- The topology that is being built names what was pinned or created for it.
  pub draft_held : 0 < a.drafted → (0 < a.pinned) ⊎ (0 < a.created)
  pub created_own :
      0 < a.created
      → (a.created ≡ 1) × (ep.closed ≡ false) × (a.nodes + a.calls + a.pinned + a.current ≡ 0)
  -- No connection is closed twice, and what was closed without the flag is nowhere.
  pub released_once : a.released ≤ 1
  pub released_gone : 0 < a.released → (ep.closed ≡ true) ⊎ Nowhere a
  pub unknown_nowhere : known ≡ false → Nowhere a × (a.released ≡ 0)

-- A node is active or pinned.
abbrev pub NodeUsed : Endpoint → Places → Type 0
NodeUsed ep a = 0 < a.nodes → (ep.active ≡ true) ⊎ (0 < held a)

-- A call pins the current topology.
pub Sound-pin :
    {known : Bool} {ep ep' : Endpoint} {a : Places} (n : ℕ)
    → SameBut ep' ep
    → n ≡ a.current
    → ep'.refs ≡ pos (n + held a)
    → Sound false known ep a
    → Sound false known ep' (record a { calls = n + a.calls })
Sound-pin n b c e s = record {
  refs = e ∙ ap pos (omega arith);
  open_while_used = ground arith;
  current_active = ground arith;
  draft_held = ground arith;
  created_own = ground arith;
  released_once = s.released_once;
  released_gone = ground arith;
  unknown_nowhere = ground arith;
}

-- Fewer pins, those of a call or those of `publish`, whose topology is then no longer being built.
pub Sound-unpin_call :
    {over known : Bool} {ep ep' : Endpoint} {a : Places} (n : ℕ)
    → SameBut ep' ep
    → n ≤ a.calls
    → ep'.refs ≡ pos (n + a.pinned)
    → Sound over known ep a
    → Sound over known ep' (record a { calls = n })
Sound-unpin_call n b l e s = record {
  refs = e;
  open_while_used = ground arith;
  current_active = ground arith;
  draft_held = ground arith;
  created_own = ground arith;
  released_once = s.released_once;
  released_gone = ground arith;
  unknown_nowhere = ground arith;
}

pub Sound-unpin_draft :
    {over known : Bool} {ep ep' : Endpoint} {a : Places}
    → SameBut ep' ep
    → a.drafted ≡ 0
    → ep'.refs ≡ pos (a.calls + 0)
    → Sound over known ep a
    → Sound over known ep' (record a { pinned = 0 })
Sound-unpin_draft b z e s = record {
  refs = e;
  open_while_used = ground arith;
  current_active = ground arith;
  draft_held = ground arith;
  created_own = ground arith;
  released_once = s.released_once;
  released_gone = ground arith;
  unknown_nowhere = ground arith;
}

module _ {over known : Bool} {ep ep' : Endpoint} {a : Places} (n k : ℕ)
    (active : ep'.active ≡ ep.active) (refs : ep'.refs ≡ ep.refs) (fewer : n ≤ a.nodes)
    (s : Sound over known ep a) where
  -- A retirement that leaves the endpoint open, and one that closes it.
  pub Sound-retire_same :
      ep'.closed ≡ ep.closed
      → k ≡ a.released
      → Sound over known ep' (record a { nodes = n; released = k })
  Sound-retire_same c e = record {
    refs = refs ∙ s.refs;
    open_while_used = ground arith;
    current_active = ground arith;
    draft_held = ground arith;
    created_own = ground arith;
    released_once = ground arith;
    released_gone = ground arith;
    unknown_nowhere = ground arith;
  }

  pub Sound-retire_shut :
      ep.active ≡ false
      → held a ≡ 0
      → 0 < a.nodes
      → ep'.closed ≡ true
      → k ≤ a.released + (if ep.closed then 0 else 1)
      → Sound over known ep' (record a { nodes = n; released = k })
  Sound-retire_shut i h p c l = record {
    refs = refs ∙ s.refs;
    open_while_used = λ _ _. (active ∙ i, h);
    current_active = ground arith;
    draft_held = ground arith;
    created_own = ground arith;
    released_once = ground arith;
    released_gone = λ _. inl c;
    unknown_nowhere = ground arith;
  }
