-- ===== src/Smart/Routing.antt =====
-- smart.go: `waitReady` and `run`, which send a call to an endpoint of the current topology and at
-- most once more to another. What other goroutines decide meanwhile is read from a `View`; the
-- references that a call holds on endpoints are in Smart/State.
pub mod Attempts
pub mod Replay
pub mod Choice
pub mod Limits
use hurricache_go_client.Prelude.{
  ℕ, suc, ℤ, ◌-ℤ◌, is_zero, ◌+◌, ◌%◌, Bool, true, false, not, ◌&&◌, Option, none, some, List, [],
  ◌∷◌, String, ◌==◌, if◌then◌else◌,
}
use text.Mathlib.Text.{◌==◌ as str_eq}
use hurricache_go_client.Errors.{
  Except, ok, err, Error, Ret, CtxErr, status, status_code, is_failed_precondition, is_unavailable,
  canceled, unavailable, internal, has_partial, as_rpc, from_context_error,
}
use hurricache_go_client.Types.{
  Options, KeyHint, RoutingMode, master_then_backup, master, backup, lb_smart, other_mode,
}
use hurricache_go_client.Rpc.{Stub}
use hurricache_go_client.World.{Ctx, World, Step, Exec, observe, lift, ◌>>=◌, ◌>>◌, or_return, give}
use hurricache_go_client.Session.{Backend, check_context}

-- The roles of the coordinator protocol.
pub data NodeRole : Type 0 where
  undefined_node master_node backup_node : NodeRole
  other_node : ℤ → NodeRole

abbrev pub same_role : NodeRole → NodeRole → Bool
same_role undefined_node undefined_node = true
same_role master_node master_node = true
same_role backup_node backup_node = true
same_role (other_node n) (other_node m) = is_zero (n -ℤ m)
same_role _ _ = false

pub record RouteKey : Type 0 where
  pub shard : ℕ
  pub role : NodeRole

abbrev pub same_key : RouteKey → RouteKey → Bool
same_key a b = a.shard == b.shard && same_role a.role b.role

-- The maps of a topology, as association lists without repeated keys.
pub record Topology : Type 0 where
  pub shards : ℕ
  pub routes : List (RouteKey × Stub)
  pub targets : List (String × Stub)

unfoldable pub find_route : RouteKey → List (RouteKey × Stub) → Option Stub
find_route k [] = none
find_route k ((j, ep) ∷ rest) = if same_key j k then some ep else find_route k rest

unfoldable pub find_target : String → List (String × Stub) → Option Stub
find_target t [] = none
find_target t ((u, ep) ∷ rest) = if str_eq u t then some ep else find_target t rest

-- How the wait for the first topology ends; where several channels are ready, Go chooses.
pub data Wake : Type 0 where
  ready life_ended : Wake
  context_ended : CtxErr → Wake

-- What a call reads of the rest of the program, at the moment of reading: the life of the client
-- before the wait and the end of the wait, `closed` and `snapshot` under the lock, the counter
-- `round` after its increment, and the coin of `rand.IntN(2)`.
pub record View : Type 0 where
  pub life_done : ℕ → Bool
  pub wait : ℕ → Wake
  pub closed : ℕ → Bool
  pub snapshot : ℕ → Topology
  pub round : ℕ → ℕ
  pub coin : ℕ → Bool

abbrev wait_result : Bool → Wake → Except (Unit {0})
wait_result true w = err (status canceled)
wait_result false ready = ok tt
wait_result false life_ended = err (status canceled)
wait_result false (context_ended e) = err (from_context_error e)

unfoldable pub shard_of : Options → ℕ → ℕ → ℕ
shard_of o round shards = elim o.hint [
  | none ↦ (round % 2147483648) % shards
  | some h ↦ elim h.weak_hash [ none ↦ (round % 2147483648) % shards | some x ↦ x % shards ]
]

abbrev mode_or : Option RoutingMode → RoutingMode → RoutingMode
mode_or none m = m
mode_or (some m) d = m

-- The mode by the kind of operation and the options, before the routes are looked at.
unfoldable pub wanted_mode : RoutingMode → Bool → Options → RoutingMode
wanted_mode configured write o = mode_or o.mode (if write then master_then_backup else configured)

-- A role without an endpoint hands over to the other.
unfoldable pub available_mode : Option Stub → Option Stub → RoutingMode → RoutingMode
available_mode m none mode = master
available_mode none (some b) mode = backup
available_mode (some m) (some b) mode = mode

-- The first endpoint and the fallback.
unfoldable pub choose : RoutingMode → Bool → Option Stub → Option Stub → Option Stub × Option Stub
choose master coin m b = (m, none)
choose backup coin m b = (b, none)
choose master_then_backup coin m b = (m, b)
choose lb_smart coin m b = if coin then (b, m) else (m, b)
choose (other_mode n) coin m b = (none, none)

-- Another endpoint than the first, if there is one.
abbrev pub distinct : Stub → Option Stub → Option Stub
distinct first none = none
distinct first (some ep) = if ep == first then none else some ep

abbrev pub first_route : Option (List String) → Option String
first_route (some (r ∷ rs)) = some r
first_route _ = none

abbrev target_of : Option String → List (String × Stub) → Option Stub
target_of none targets = none
target_of (some t) targets = find_target t targets

-- After a failure that may be answered elsewhere: the endpoint to go to.
unfoldable pub second_choice : Topology → Stub → Option Stub → Error → Option Stub
unfolding find_target
second_choice snap first second e =
    if is_failed_precondition (status_code e)
    then distinct first (target_of (first_route (as_rpc e)) snap.targets)
    else if is_unavailable (status_code e)
    then distinct first second
    else none

module _ (v : View) where
  unfoldable pub wait_ready : Exec (Unit {0})
  wait_ready w =
      let (done, w') = observe v.life_done w in
      let (woken, w'') = observe v.wait w' in (wait_result done woken, w'')

  -- The snapshot that a call works on, taken under the lock.
  unfoldable pub take_snapshot : Exec Topology
  take_snapshot w =
      let (c, w') = observe v.closed w in
      let (snap, w'') = observe v.snapshot w' in (if c then err (status canceled) else ok snap, w'')

  abbrev pub asks_refresh : Error → World → World
  asks_refresh e w = if is_unavailable (status_code e) then record w { wake = true } else w

  -- `first` failed by `e`, and the context has not ended: go to the second choice, if there is one.
  abbrev pub go_on :
      {T : Type 0} → Option Stub → (Stub → Step (Ret T)) → T → Error → World → Ret T × World
  go_on none action out e w = ((out, some e), w)
  go_on (some ep) action out e w = action ep w

  abbrev pub retry :
      {T : Type 0}
      → Option CtxErr
      → Option Stub
      → (Stub → Step (Ret T))
      → T
      → Error
      → World
      → Ret T × World
  retry (some x) choice action out e w = ((out, some e), w)
  retry none choice action out e w = go_on choice action out e (asks_refresh e w)

  abbrev pub after_first :
      {T : Type 0}
      → Topology
      → Ctx
      → Stub
      → Option Stub
      → (Stub → Step (Ret T))
      → Ret T × World
      → Ret T × World
  after_first snap ctx first second action ((out, none), w) = ((out, none), w)
  after_first snap ctx first second action ((out, some e), w) =
      if has_partial e
      then ((out, some e), w)
      else retry (ctx w.tick) (second_choice snap first second e) action out e
          (record w { tick = suc w.tick })

  -- The first action, and what follows on its result.
  unfoldable pub attempt :
      {T : Type 0} → Topology → Ctx → Stub → Option Stub → (Stub → Step (Ret T)) → Step (Ret T)
  attempt snap ctx first second action w = after_first snap ctx first second action (action first w)

  -- The routes of the shard of a call.
  abbrev pub role_route : Topology → Options → ℕ → NodeRole → Option Stub
  role_route snap o round role =
      find_route (record { shard = shard_of o round snap.shards; role = role }) snap.routes

  unfoldable pub pick :
      RoutingMode → Topology → Options → Bool → ℕ → Bool → Option Stub × Option Stub
  unfolding choose available_mode wanted_mode find_route shard_of
  pick configured snap o write round coin =
      let m = role_route snap o round master_node in
      let b = role_route snap o round backup_node in
      choose (available_mode m b (wanted_mode configured write o)) coin m b

  abbrev has_route : Topology → Options → ℕ → Bool
  has_route snap o round = elim (role_route snap o round master_node) [
    | some m ↦ true
    | none ↦ elim (role_route snap o round backup_node) [ some b ↦ true | none ↦ false ]
  ]

  abbrev check_route : Topology → Options → ℕ → Except (Unit {0})
  check_route snap o round = if has_route snap o round then ok tt else err (status unavailable)

  -- No mode leaves the first endpoint open when there is a route; the code would fault there.
  abbrev the_first : Option Stub → Except Stub
  the_first none = err (status internal)
  the_first (some ep) = ok ep

  abbrev pub Chosen : Type 0
  Chosen = Topology × Stub × Option Stub

  abbrev observing : {A : Type 0} → (ℕ → A) → Exec A
  observing f w = let (a, w') = observe f w in (ok a, w')

  -- All that `run` does before its first action.
  unfoldable pub choose_endpoints : RoutingMode → Ctx → Options → Bool → Exec Chosen
  unfolding pick
  choose_endpoints configured ctx o write = do
    wait_ready
    snap ← take_snapshot
    round ← observing v.round
    lift (check_route snap o round)
    coin ← observing v.coin
    check_context ctx
    first ← lift (the_first (pick configured snap o write round coin).0)
    lift (ok (snap, first, (pick configured snap o write round coin).1))

  unfoldable pub smart_run : RoutingMode → Backend
  smart_run configured T z ctx o write action =
      or_return z (choose_endpoints configured ctx o write) λ c. attempt c.0 ctx c.1 c.2 action
