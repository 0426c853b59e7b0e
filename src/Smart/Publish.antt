-- ===== src/Smart/Publish.antt =====
-- smart.go: `publish`, which builds a topology of what was discovered and makes it current. The steps
-- between which other goroutines may take the lock are functions of their own.
pub mod Cases
pub mod Effects
pub mod Targets
pub mod Failure
pub mod Routes
pub mod Published
pub mod Current
use hurricache_go_client.Prelude.{
  ℕ, suc, pos, ◌+◌, length, Bool, true, false, not, ◌&&◌, ◌||◌, Option, none, some, List, [], ◌∷◌,
  ◌++◌, String, ◌==◌, if◌then◌else◌, ltb,
}
use hurricache_go_client.Errors.{
  Except, ok, err, Error, CtxErr, status, canceled, invalid_argument, data_loss, unavailable,
  from_context_error,
}
use hurricache_go_client.Rpc.{Stub}
use hurricache_go_client.World.{Ctx}
use hurricache_go_client.Smart.Routing.{
  NodeRole, RouteKey, same_key, Topology, find_route, find_target,
}
use hurricache_go_client.Smart.State.{
  Connection, Endpoint, SmartBackend, put, write, add_refs, endpoints_of, has_close, retire_locked,
  unpin_all,
}

-- `cpb.PeerRouting`.
pub record PeerRouting : Type 0 where
  pub target : String
  pub role : NodeRole
  pub partition_ids : List ℕ

pub record Discovery : Type 0 where
  pub shards : ℕ
  pub peers : List PeerRouting

-- The local variables of `publish`: the topology so far, and what it created and pinned.
pub record Draft : Type 0 where
  pub snap : Topology
  pub created : List (String × Stub)
  pub pinned : List Stub

unfoldable pub new_draft : Discovery → Draft
new_draft d = record {
  snap = record { shards = d.shards; routes = []; targets = [] };
  created = [];
  pinned = [];
}

unfoldable pub put_route : RouteKey → Stub → List (RouteKey × Stub) → List (RouteKey × Stub)
put_route k ep [] = (k, ep) ∷ []
put_route k ep ((j, old) ∷ rest) =
    if same_key j k then (k, ep) ∷ rest else (j, old) ∷ put_route k ep rest

abbrev pub conflicts : Option Stub → Stub → Bool
conflicts none ep = false
conflicts (some old) ep = not (old == ep)

-- The routes of one peer, unless one of them is taken by another endpoint.
unfoldable pub add_routes :
    Stub → NodeRole → List ℕ → List (RouteKey × Stub) → Except (List (RouteKey × Stub))
unfolding put_route find_route
add_routes ep role [] routes = ok routes
add_routes ep role (shard ∷ rest) routes =
    let k : RouteKey = record { shard = shard; role = role } in
    let more = add_routes ep role rest (put_route k ep routes) in
    if conflicts (find_route k routes) ep then err (status data_loss) else more

-- The close of what was created, which no map holds yet.
unfoldable pub cleanup : List (String × Stub) → SmartBackend → SmartBackend
cleanup [] b = b
cleanup ((t, p) ∷ rest) b =
    cleanup rest
      (if has_close (b.endpoints p).connection then record b { released = p ∷ b.released } else b)

-- A new endpoint, not active and with no references.
abbrev pub new_endpoint : Connection → Endpoint
new_endpoint c = record { connection = c; refs = pos 0; active = false; closed = false }

-- The endpoint of a peer: of this topology, of the nodes (then pinned), or a new one. The `Close` of a
-- connection without a channel is not recorded.
unfoldable pub find_or_create :
    Except Connection → String → SmartBackend → Draft → SmartBackend × Except (Draft × Stub)
unfolding find_target
find_or_create dialed t b d = elim (find_target t d.snap.targets) [
  | some p ↦ (b, ok (d, p))
  | none ↦ elim (find_target t b.nodes) [
    | some p ↦ (
      record b { endpoints = add_refs (pos 1) p b.endpoints },
      ok (
        record d {
          snap = record (d.snap) { targets = put t p d.snap.targets };
          pinned = d.pinned ++ p ∷ [];
        },
        p,
      ),
    )
    | none ↦ elim dialed [
      | err e ↦ (b, err e)
      | ok c ↦ elim c.conn [
        | none ↦ (b, err (status invalid_argument))
        | some ch ↦ (
          record b { endpoints = write b.next (new_endpoint c) b.endpoints; next = suc b.next },
          ok (
            record d {
              snap = record (d.snap) { targets = put t b.next d.snap.targets };
              created = put t b.next d.created;
            },
            b.next,
          ),
        )
      ]
    ]
  ]
]

-- A failure closes what was created; the pins are taken back in a later step.
abbrev pub fail_with : Draft → SmartBackend → Error → SmartBackend × Draft × Option Error
fail_with d b e = (cleanup d.created b, d, some e)

abbrev pub with_routes :
    SmartBackend → Draft → Except (List (RouteKey × Stub)) → SmartBackend × Draft × Option Error
with_routes b d (ok routes) = (b, record d { snap = record (d.snap) { routes = routes } }, none)
with_routes b d (err e) = fail_with d b e

abbrev pub with_endpoint :
    PeerRouting → Draft → SmartBackend × Except (Draft × Stub) → SmartBackend × Draft × Option Error
with_endpoint peer d (b, err e) = fail_with d b e
with_endpoint peer d (b, ok (d', p)) =
    with_routes b d' (add_routes p peer.role peer.partition_ids d'.snap.routes)

-- One round of the loop over the peers; `ended` and `dialed` are what the context and the factory answer.
unfoldable pub publish_peer :
    Option CtxErr
    → Except Connection
    → PeerRouting
    → SmartBackend
    → Draft
    → SmartBackend × Draft × Option Error
unfolding find_or_create add_routes cleanup
publish_peer (some e) dialed peer b d = fail_with d b (from_context_error e)
publish_peer none dialed peer b d = with_endpoint peer d (find_or_create dialed peer.target b d)

-- The loops of the commit over the nodes and the targets.
unfoldable pub deactivate : List (String × Stub) → (Stub → Endpoint) → Stub → Endpoint
deactivate [] h = h
deactivate ((t, p) ∷ rest) h = deactivate rest (write p (record (h p) { active = false }) h)

unfoldable pub activate : List (String × Stub) → (Stub → Endpoint) → Stub → Endpoint
activate [] h = h
activate ((t, p) ∷ rest) h = activate rest (write p (record (h p) { active = true }) h)

unfoldable pub put_all : List (String × Stub) → List (String × Stub) → List (String × Stub)
put_all [] nodes = nodes
put_all ((t, p) ∷ rest) nodes = put_all rest (put t p nodes)

unfoldable pub install : Topology → SmartBackend → SmartBackend
unfolding deactivate activate put_all retire_locked
install snap b =
    record (retire_locked (record b {
      endpoints = activate snap.targets (deactivate b.nodes b.endpoints);
      nodes = put_all snap.targets b.nodes;
      snapshot = some snap;
    })) { ready = true }

abbrev pub has_ended : Option CtxErr → Bool
has_ended none = false
has_ended (some e) = true

abbrev pub no_routes : List (RouteKey × Stub) → Bool
no_routes [] = true
no_routes (r ∷ rest) = false

-- After the loop: the topology becomes current, unless it has no route or the client is closed.
unfoldable pub commit : Option CtxErr → SmartBackend → Draft → SmartBackend × Option Error
unfolding install cleanup
commit ended b d =
    if no_routes d.snap.routes
    then (cleanup d.created b, some (status unavailable))
    else if b.closed || has_ended ended
    then (cleanup d.created b, some (status canceled))
    else (install d.snap b, none)

-- The deferred unpinning.
unfoldable pub unwind : List Stub → SmartBackend → SmartBackend
unfolding unpin_all
unwind pinned b = unpin_all pinned b

module _ (ctx : Ctx) (factory : ℕ → String → Except Connection) where
  -- The loop over the peers, from the moment `t` on, where no other goroutine takes the lock.
  unfoldable pub publish_peers :
      List PeerRouting → ℕ → SmartBackend → Draft → SmartBackend × Draft × Option Error
  publish_peers [] t b d = (b, d, none)
  publish_peers (peer ∷ rest) t b d =
      let (b', d', e) = publish_peer (ctx t) (factory t peer.target) peer b d in
      elim e [ none ↦ publish_peers rest (suc t) b' d' | some e ↦ (b', d', some e) ]

  abbrev pub commit_unless : Option Error → ℕ → SmartBackend → Draft → SmartBackend × Option Error
  commit_unless (some e) t b d = (b, some e)
  commit_unless none t b d = commit (ctx t) b d

  unfoldable pub publish : Discovery → ℕ → SmartBackend → SmartBackend × Option Error
  unfolding publish_peers commit unwind
  publish disc t b =
      let (b', d, e) = publish_peers disc.peers t b (new_draft disc) in
      let (b'', r) = commit_unless e (t + length disc.peers) b' d in (unwind d.pinned b'', r)
