-- ===== src/Smart/Lifecycle/Building.antt =====
-- smart.go: how `publish` and `close` keep an endpoint sound, in the numbers that tell where it stands.
use hurricache_go_client.Prelude.{
  ℕ, pos, ◌+◌, ◌≤◌, ◌<◌, ◌≡◌, refl, sym, ◌∙◌, ap, Bool, true, false, if◌then◌else◌, arith, inl, ◌⊎◌,
}
use hurricache_go_client.Smart.State.{Connection, Endpoint}
use hurricache_go_client.Smart.State.Pins.{SameBut}
use hurricache_go_client.Smart.Publish.{new_endpoint}
use hurricache_go_client.Smart.Publish.Effects.{Deactivated, Activated}
use hurricache_go_client.Smart.Lifecycle.Sound.{Places, held, Sound, NodeUsed}

-- A node is pinned for the topology that is being built; `i` is 1 for that node and 0 for another.
pub Sound-pin_node :
    {known : Bool} {ep ep' : Endpoint} {a : Places} (i d n : ℕ)
    → SameBut ep' ep
    → i ≤ a.nodes
    → d ≤ a.drafted + i
    → n ≡ a.pinned + i
    → ep'.refs ≡ pos (i + held a)
    → NodeUsed ep a
    → Sound false known ep a
    → Sound false known ep' (record a { drafted = d; pinned = n })
Sound-pin_node i d n b l m p e u s = record {
  refs = e ∙ ap pos (omega arith);
  open_while_used = ground arith;
  current_active = ground arith;
  draft_held = ground arith;
  created_own = ground arith;
  released_once = s.released_once;
  released_gone = ground arith;
  unknown_nowhere = ground arith;
}

-- The endpoint that is created, and any other.
pub Sound-created :
    {over known known' : Bool} {ep : Endpoint} {a : Places} (c : Connection) (d n : ℕ)
    → d ≤ a.drafted + 1
    → n ≡ a.created + 1
    → known ≡ false
    → known' ≡ true
    → Sound over known ep a
    → Sound over known' (new_endpoint c) (record a { drafted = d; created = n })
Sound-created c d n l m u v s =
    let (w, r) = s.unknown_nowhere u in
    record {
      refs = ap pos (omega (arith, w));
      open_while_used = ground arith;
      current_active = ground arith;
      draft_held = ground arith;
      created_own = λ _. (omega (arith, w, m), refl, omega (arith, w));
      released_once = s.released_once;
      released_gone = ground arith;
      unknown_nowhere = ground arith;
    }

pub Sound-not_created :
    {over known known' : Bool} {ep : Endpoint} {a : Places} (d n : ℕ)
    → d ≤ a.drafted
    → n ≡ a.created
    → (known' ≡ false → known ≡ false)
    → Sound over known ep a
    → Sound over known' ep (record a { drafted = d; created = n })
Sound-not_created d n l m k s = record {
  refs = s.refs;
  open_while_used = s.open_while_used;
  current_active = s.current_active;
  draft_held = ground arith;
  created_own = ground arith;
  released_once = s.released_once;
  released_gone = ground arith;
  unknown_nowhere = λ e. let w = s.unknown_nowhere (k e) in ground arith;
}

-- A publication that fails closes what it created.
pub Sound-cleanup :
    {over known : Bool} {ep : Endpoint} {a : Places} (k : ℕ)
    → k ≤ a.released + a.created
    → Sound over known ep a
    → Sound over known ep (record a { drafted = 0; created = 0; released = k })
Sound-cleanup k l s = record {
  refs = s.refs;
  open_while_used = s.open_while_used;
  current_active = s.current_active;
  draft_held = ground arith;
  created_own = ground arith;
  released_once = ground arith;
  released_gone = ground arith;
  unknown_nowhere = ground arith;
}

install_open :
    (ep mid ep' : Endpoint) (a : Places)
    → ((0 < a.drafted) × (ep'.active ≡ true)) ⊎ ((a.drafted ≡ 0) × (ep'.active ≡ mid.active))
    → (mid.active ≡ true → ep.active ≡ true)
    → (ep.active ≡ false) × (held a ≡ 0)
    → (0 < a.drafted → (0 < a.pinned) ⊎ (0 < a.created))
    → (0 < a.created
        → (a.created ≡ 1) × (ep.closed ≡ false) × (a.nodes + a.calls + a.pinned + a.current ≡ 0))
    → ep.closed ≡ true
    → (ep'.active ≡ false) × (held a ≡ 0)
install_open ep mid ep' a v w old h o c = ground arith

-- The topology becomes current, before what it leaves out is retired.
pub Sound-install :
    {known : Bool} {ep mid ep' : Endpoint} {a : Places} (n : ℕ)
    → Deactivated mid ep
    → Activated a.drafted ep' mid
    → n ≤ a.nodes + a.drafted
    → Sound false known ep a
    → Sound false known ep' (record a { nodes = n; current = a.drafted; drafted = 0; created = 0 })
Sound-install {ep = ep} {mid = mid} {ep' = ep'} {a = a} n d e l s = record {
  refs = e.refs ∙ d.refs ∙ s.refs;
  open_while_used = λ _ c.
      let old = s.open_while_used refl (sym d.closed ∙ sym e.closed ∙ c) in
      install_open ep mid ep' a e.active d.active old s.draft_held s.created_own
        (sym d.closed ∙ sym e.closed ∙ c);
  current_active = ground arith;
  draft_held = ground arith;
  created_own = ground arith;
  released_once = s.released_once;
  released_gone = ground arith;
  unknown_nowhere = ground arith;
}

module _ {over known : Bool} {ep ep' : Endpoint} {a : Places} (k : ℕ)
    (active : ep'.active ≡ ep.active) (refs : ep'.refs ≡ ep.refs) (s : Sound over known ep a) where
  pub Sound-close_same :
      ep'.closed ≡ ep.closed → k ≡ a.released → Sound true known ep' (record a { released = k })
  Sound-close_same c e = record {
    refs = refs ∙ s.refs;
    open_while_used = ground arith;
    current_active = ground arith;
    draft_held = ground arith;
    created_own = ground arith;
    released_once = ground arith;
    released_gone = ground arith;
    unknown_nowhere = ground arith;
  }

  pub Sound-close_shut :
      0 < a.nodes
      → ep'.closed ≡ true
      → k ≤ a.released + (if ep.closed then 0 else 1)
      → Sound true known ep' (record a { released = k })
  Sound-close_shut p c l = record {
    refs = refs ∙ s.refs;
    open_while_used = ground arith;
    current_active = ground arith;
    draft_held = ground arith;
    created_own = ground arith;
    released_once = ground arith;
    released_gone = λ _. inl c;
    unknown_nowhere = ground arith;
  }
