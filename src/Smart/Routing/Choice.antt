-- ===== src/Smart/Routing/Choice.antt =====
-- smart.go: which endpoints of a shard `run` chooses.
use hurricache_go_client.Prelude.{
  ℕ, ◌≡◌, refl, Bool, true, false, Option, none, some, inl, inr, ◌⊎◌, arith,
}
use hurricache_go_client.Types.{
  Options, RoutingMode, master_then_backup, master, backup, lb_smart, other_mode,
}
use hurricache_go_client.Rpc.{Stub}
use hurricache_go_client.Session.{is_mode}
use hurricache_go_client.Smart.Routing.{
  Topology, View, master_node, backup_node, wanted_mode, available_mode, choose, pick, role_route,
}

-- A first endpoint among the two, and no fallback but the other of the two.
abbrev pub ChosenFrom : Option Stub → Option Stub → Option Stub × Option Stub → Type 0
ChosenFrom m b c =
    ((ep : Stub) × (c.0 ≡ some ep) × ((m ≡ some ep) ⊎ (b ≡ some ep)))
    × ((c.1 ≡ none) ⊎ (c.1 ≡ m) ⊎ (c.1 ≡ b))

abbrev pub HasRoute : Option Stub → Option Stub → Type 0
HasRoute m b = ((x : Stub) × (m ≡ some x)) ⊎ ((x : Stub) × (b ≡ some x))

choose-ChosenFrom :
    (mode : RoutingMode) (coin : Bool) (m b : Stub)
    → is_mode (some mode) ≡ true
    → ChosenFrom (some m) (some b) (choose mode coin (some m) (some b))
unfolding choose
choose-ChosenFrom master_then_backup coin m b h = ((m, refl, inl refl), inr (inr refl))
choose-ChosenFrom master coin m b h = ((m, refl, inl refl), inl refl)
choose-ChosenFrom backup coin m b h = ((b, refl, inr refl), inl refl)
choose-ChosenFrom lb_smart true m b h = ((b, refl, inr refl), inr (inl refl))
choose-ChosenFrom lb_smart false m b h = ((m, refl, inl refl), inr (inr refl))
choose-ChosenFrom (other_mode n) coin m b h = cc

wanted_mode-is_mode :
    (configured : RoutingMode) (write : Bool) (o : Options)
    → is_mode (some configured) ≡ true
    → is_mode o.mode ≡ true
    → is_mode (some (wanted_mode configured write o)) ≡ true
unfolding wanted_mode
wanted_mode-is_mode configured write o h k = ground arith

available-ChosenFrom :
    (mode : RoutingMode) (coin : Bool) (m b : Option Stub)
    → is_mode (some mode) ≡ true
    → HasRoute m b
    → ChosenFrom m b (choose (available_mode m b mode) coin m b)
available-ChosenFrom mode coin (some m) (some b) h k =
    unfold available_mode in choose-ChosenFrom mode coin m b h
available-ChosenFrom mode coin (some m) none h k =
    unfold available_mode choose in ((m, refl, inl refl), inl refl)
available-ChosenFrom mode coin none (some b) h k =
    unfold available_mode choose in ((b, refl, inr refl), inl refl)
available-ChosenFrom mode coin none none h (inl (x, e)) = cc
available-ChosenFrom mode coin none none h (inr (x, e)) = cc

module _ (v : View) (snap : Topology) (o : Options) (round : ℕ) where
  abbrev master_route : Option Stub
  master_route = role_route v snap o round master_node

  abbrev backup_route : Option Stub
  backup_route = role_route v snap o round backup_node

  -- When the shard of a call has a route, the call has a first endpoint, which is the shard's master
  -- or backup, and its fallback is one of those too, or none: for any valid configured mode and option,
  -- for reads and writes, and whatever the coin.
  pub pick-ChosenFrom :
      (configured : RoutingMode) (write coin : Bool)
      → is_mode (some configured) ≡ true
      → is_mode o.mode ≡ true
      → HasRoute master_route backup_route
      → ChosenFrom master_route backup_route (pick v configured snap o write round coin)
  unfolding pick
  pick-ChosenFrom configured write coin h k r =
      available-ChosenFrom (wanted_mode configured write o) coin _ _
        (wanted_mode-is_mode configured write o h k) r
