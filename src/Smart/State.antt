-- ===== src/Smart/State.antt =====
-- smart.go: the state that a `smartBackend` guards by its lock, `retireLocked`, and the pins. Endpoints are shared
-- by maps and running calls, so they live in a heap and are known by their address.
pub mod Pins
pub mod Retire
use hurricache_go_client.Prelude.{
  ℕ, suc, ℤ, pos, negsuc, ◌+ℤ◌, is_zero, Bool, true, false, not, ◌&&◌, ◌||◌, Option, none, some,
  List, [], ◌∷◌, String, ◌==◌, if◌then◌else◌,
}
use text.Mathlib.Text.{◌==◌ as str_eq}
use hurricache_go_client.Errors.{Error}
use hurricache_go_client.Rpc.{Stub}
use hurricache_go_client.Smart.Routing.{Topology}

-- A connection: the channel, if the factory made one, and what its `Close` returns, if it has one.
pub record Connection : Type 0 where
  pub conn : Option ℕ
  pub close : Option (Option Error)

-- The stub of an endpoint is known by the endpoint's address.
pub record Endpoint : Type 0 where
  pub connection : Connection
  pub refs : ℤ
  pub active : Bool
  pub closed : Bool

-- `endpoints` is the heap, with `next` its first free address; `released` lists the endpoints whose
-- connection's `Close` was called, the last first.
pub record SmartBackend : Type 0 where
  pub coordinators : List String
  pub coordinator_connections : List (String × Connection)
  pub active_coordinator : ℕ
  pub snapshot : Option Topology
  pub nodes : List (String × Stub)
  pub closed : Bool
  pub ready : Bool
  pub endpoints : Stub → Endpoint
  pub next : Stub
  pub released : List Stub

-- A write to a map, which keeps one entry for a key; a range over a map follows its list.
abbrev pub put {ℓ} : {A : Type ℓ} → String → A → List (String × A) → List (String × A)
put t a [] = (t, a) ∷ []
put t a ((u, x) ∷ rest) = if str_eq u t then (t, a) ∷ rest else (u, x) ∷ put t a rest

abbrev pub write : Stub → Endpoint → (Stub → Endpoint) → Stub → Endpoint
write p ep h q = if p == q then ep else h q

-- `ep.refs += n`.
abbrev pub add_refs : ℤ → Stub → (Stub → Endpoint) → Stub → Endpoint
add_refs n p h = write p (record (h p) { refs = (h p).refs +ℤ n }) h

-- The loops that add or take one reference of each endpoint.
unfoldable pub pin : List Stub → (Stub → Endpoint) → Stub → Endpoint
pin [] h = h
pin (p ∷ rest) h = pin rest (add_refs (pos 1) p h)

unfoldable pub unpin : List Stub → (Stub → Endpoint) → Stub → Endpoint
unpin [] h = h
unpin (p ∷ rest) h = unpin rest (add_refs (negsuc 0) p h)

-- The endpoints of a topology's targets.
abbrev pub endpoints_of : List (String × Stub) → List Stub
endpoints_of [] = []
endpoints_of ((t, p) ∷ rest) = p ∷ endpoints_of rest

abbrev pub set_closed : Stub → (Stub → Endpoint) → Stub → Endpoint
set_closed p h = write p (record (h p) { closed = true }) h

abbrev pub has_close : Connection → Bool
has_close c = elim c.close [ none ↦ false | some r ↦ true ]

-- The call of `Close`, unless the endpoint is closed or has none.
abbrev pub release : Stub → SmartBackend → List Stub
release p b =
    let ep = b.endpoints p in
    if not ep.closed && has_close ep.connection then p ∷ b.released else b.released

-- What `retireLocked` and `close` do with an endpoint of `nodes`.
abbrev pub close_node : Stub → SmartBackend → SmartBackend
close_node p b = record b { released = release p b; endpoints = set_closed p b.endpoints }

abbrev pub is_retired : Endpoint → Bool
is_retired ep = not ep.active && is_zero ep.refs

abbrev pub keep_node : String → Stub → SmartBackend → SmartBackend
keep_node t p b = record b { nodes = (t, p) ∷ b.nodes }

-- The range over the nodes, which deletes the entry that it stands at: the others are kept.
unfoldable pub retire_nodes : List (String × Stub) → SmartBackend → SmartBackend
retire_nodes [] b = record b { nodes = [] }
retire_nodes ((t, p) ∷ rest) b = elim (is_retired (b.endpoints p)) [
  | true ↦ retire_nodes rest (close_node p b)
  | false ↦ keep_node t p (retire_nodes rest b)
]

unfoldable pub retire_locked : SmartBackend → SmartBackend
unfolding retire_nodes
retire_locked b = retire_nodes b.nodes b

-- What `run` does under the lock before and after its action.
unfoldable pub pin_snapshot : Topology → SmartBackend → SmartBackend
unfolding pin
pin_snapshot snap b = record b { endpoints = pin (endpoints_of snap.targets) b.endpoints }

unfoldable pub unpin_all : List Stub → SmartBackend → SmartBackend
unfolding unpin retire_locked
unpin_all ps b = retire_locked (record b { endpoints = unpin ps b.endpoints })

-- `IsReady`.
abbrev pub is_ready : SmartBackend → Bool
is_ready b = not b.closed && elim b.snapshot [ none ↦ false | some s ↦ true ]
