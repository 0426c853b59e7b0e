-- ===== src/Smart/Lifecycle.antt =====
-- smart.go: the goroutines that share a `smartBackend`. Calls of `run` pin a topology and unpin it, one
-- refresh at a time holds the gate and may publish, and `close` ends it all. Each step is one section
-- under the lock, with the work on local variables before it.
pub mod Sound
pub mod Building
pub mod Closing
pub mod Invariant
pub mod Publishing
pub mod Reachable
pub mod Safety
pub mod Alone
pub mod Sequential
pub mod Progress
pub mod Routed
use hurricache_go_client.Prelude.{
  ℕ, zero, suc, pos, ◌≡◌, Bool, true, false, not, ◌&&◌, Option, none, some, List, [], ◌∷◌, ◌++◌,
  String, if◌then◌else◌,
}
use hurricache_go_client.Errors.{Except, Error, CtxErr}
use hurricache_go_client.Rpc.{Stub}
use hurricache_go_client.Smart.Routing.{Topology}
use hurricache_go_client.Smart.State.{
  Connection, Endpoint, SmartBackend, endpoints_of, set_closed, close_node, pin_snapshot, unpin_all,
  retire_locked,
}
use hurricache_go_client.Smart.Discover.{connect}
use hurricache_go_client.Smart.Publish.{
  PeerRouting, Discovery, Draft, new_draft, publish_peer, commit, unwind,
}

-- Where the holder of the gate stands: none, between two publications, in the loop of `publish` with the
-- peers left, or before its deferred unpinning.
pub data Holder : Type 0 where
  nobody discovering : Holder
  publishing : Draft → List PeerRouting → Holder
  unwinding : List Stub → Holder

-- Where the goroutine of `loop` stands: in its refresh, in the select after it, or returned.
pub data Looping : Type 0 where
  refreshing selecting returned : Looping

-- `calls` has the pinned endpoints of each call that is running, `waiting` counts the refreshes that wait
-- for the gate, `finished` tells whether `close` has closed the endpoints.
-- The refreshes of `loop` are among those that wait or hold the gate; `wake` tells whether its channel is full, and
-- `canceled` whether `close` has canceled the client's own context.
pub record System : Type 0 where
  pub backend : SmartBackend
  pub calls : List (List Stub)
  pub holder : Holder
  pub waiting : ℕ
  pub looping : Looping
  pub wake : Bool
  pub canceled : Bool
  pub finished : Bool

-- The loop of `close` over the nodes.
unfoldable pub close_nodes : List (String × Stub) → SmartBackend → SmartBackend
close_nodes [] b = b
close_nodes ((t, p) ∷ rest) b = close_nodes rest (close_node p b)

abbrev pub close_result : Connection → Option Error → Option Error
close_result c last = elim c.close [
  | none ↦ last
  | some r ↦ elim r [ none ↦ last | some e ↦ some e ]
]

-- The error that `close` returns: the last that a `Close` returned.
unfoldable pub close_errors :
    List (String × Stub)
    → List (String × Connection)
    → (Stub → Endpoint)
    → Option Error
    → Option Error
close_errors [] [] h last = last
close_errors [] ((t, c) ∷ rest) h last = close_errors [] rest h (close_result c last)
close_errors ((t, p) ∷ rest) conns h last =
    close_errors rest conns (set_closed p h)
      (if (h p).closed then last else close_result (h p).connection last)

-- The state after a round of `publish`, by whether it failed.
abbrev pub after_round : System → List PeerRouting → SmartBackend × Draft × Option Error → System
after_round s rest (b, d, none) = record s { backend = b; holder = publishing d rest }
after_round s rest (b, d, some e) = record s { backend = b; holder = unwinding d.pinned }

abbrev pub start_call : Topology → System → System
start_call snap s = record s {
  backend = pin_snapshot snap s.backend;
  calls = endpoints_of snap.targets ∷ s.calls;
}

abbrev pub end_call : List (List Stub) → List Stub → List (List Stub) → System → System
end_call before ps after s = record s { backend = unpin_all ps s.backend; calls = before ++ after }

-- `requestRefresh`: the channel holds one request.
abbrev pub request_refresh : System → System
request_refresh s = record s { wake = true }

-- Why a refresh gives up or returns: for reasons of its own (its caller's context, a success, no coordinator
-- left), or because the client's own context, from which its context is made, was canceled.
pub data Cause (s : System) : Type 0 where
  of_its_own : Cause s
  by_cancel : s.canceled ≡ true → Cause s

pub data Step (s : System) : System → Type 0 where
  call_starts :
      (snap : Topology)
      → s.backend.closed ≡ false
      → s.backend.snapshot ≡ some snap
      → Step s (start_call snap s)
  call_ends :
      (before : List (List Stub)) (ps : List Stub) (after : List (List Stub))
      → s.calls ≡ before ++ ps ∷ after
      → Step s (end_call before ps after s)
  refresh_enters : s.backend.closed ≡ false → Step s (record s { waiting = suc s.waiting })
  refresh_leaves : (n : ℕ) → Cause s → s.waiting ≡ suc n → Step s (record s { waiting = n })
  gate_taken :
      (n : ℕ)
      → s.waiting ≡ suc n
      → s.holder ≡ nobody
      → Step s (record s { waiting = n; holder = discovering })
  gate_released : Cause s → s.holder ≡ discovering → Step s (record s { holder = nobody })
  coordinator_dialed :
      (dialed : Except Connection) (target : String)
      → s.holder ≡ discovering
      → Step s (record s { backend = (connect dialed target s.backend).0 })
  coordinator_chosen :
      (index : ℕ)
      → s.holder ≡ discovering
      → Step s (record s { backend = record (s.backend) { active_coordinator = index } })
  publish_starts :
      (d : Discovery)
      → s.holder ≡ discovering
      → Step s (record s { holder = publishing (new_draft d) d.peers })
  publish_goes_on :
      (d : Draft) (peer : PeerRouting) (rest : List PeerRouting) (ended : Option CtxErr)
      (dialed : Except Connection)
      → s.holder ≡ publishing d (peer ∷ rest)
      → Step s (after_round s rest (publish_peer ended dialed peer s.backend d))
  publish_commits :
      (d : Draft) (ended : Option CtxErr)
      → s.holder ≡ publishing d []
      → Step s (record s { backend = (commit ended s.backend d).0; holder = unwinding d.pinned })
  publish_unwinds :
      (pinned : List Stub)
      → s.holder ≡ unwinding pinned
      → Step s (record s { backend = unwind pinned s.backend; holder = discovering })
  refresh_requested : Step s (request_refresh s)
  loop_selects : Cause s → s.looping ≡ refreshing → Step s (record s { looping = selecting })
  ticker_ticks : s.looping ≡ selecting → Step s (record s { looping = refreshing })
  loop_wakes :
      s.looping ≡ selecting
      → s.wake ≡ true
      → Step s (record s { looping = refreshing; wake = false })
  loop_returns :
      s.looping ≡ selecting → s.canceled ≡ true → Step s (record s { looping = returned })
  close_begins : Step s (record s { backend = record (s.backend) { closed = true } })
  close_cancels : s.backend.closed ≡ true → Step s (record s { canceled = true })
  close_ends :
      s.backend.closed ≡ true
      → s.canceled ≡ true
      → s.looping ≡ returned
      → s.waiting ≡ 0
      → s.holder ≡ nobody
      → s.finished ≡ false
      → Step s (record s { backend = close_nodes s.backend.nodes s.backend; finished = true })

pub data Reach (s : System) : System → Type 0 where
  here : Reach s s
  next : {t u : System} → Reach s t → Step t u → Reach s u

-- The backend that `NewSmartClient` makes.
abbrev pub new_backend : List String → SmartBackend
new_backend coordinators = record {
  coordinators = coordinators;
  coordinator_connections = [];
  active_coordinator = 0;
  snapshot = none;
  nodes = [];
  closed = false;
  ready = false;
  endpoints = λ p. record {
    connection = record { conn = none; close = none };
    refs = pos 0;
    active = false;
    closed = false;
  };
  next = 0;
  released = [];
}

abbrev pub new_system : List String → System
new_system coordinators = record {
  backend = new_backend coordinators;
  calls = [];
  holder = nobody;
  waiting = 0;
  looping = refreshing;
  wake = false;
  canceled = false;
  finished = false;
}
