-- ===== src/Smart/Publish/Cases.antt =====
-- smart.go: the ways in which `publish` finds the endpoint of a peer, and in which a round ends.
use hurricache_go_client.Prelude.{
  suc, pos, ◌≡◌, refl, Option, none, some, List, [], ◌∷◌, ◌++◌, String, Option-cases, inl, inr,
}
use hurricache_go_client.Errors.{Except, ok, err, Error, CtxErr, from_context_error}
use hurricache_go_client.Rpc.{Stub}
use hurricache_go_client.Smart.Routing.{RouteKey, find_target}
use hurricache_go_client.Smart.State.{Connection, SmartBackend, put, write, add_refs}
use hurricache_go_client.Smart.Publish.{
  Draft, PeerRouting, new_endpoint, find_or_create, add_routes, fail_with, with_routes,
  with_endpoint, publish_peer,
}

-- The draft with another target, and the state and draft after a node was pinned or an endpoint created.
abbrev pub with_target : String → Stub → Draft → Draft
with_target t p d = record d { snap = record (d.snap) { targets = put t p d.snap.targets } }

abbrev pub pin_node : Stub → SmartBackend → SmartBackend
pin_node p b = record b { endpoints = add_refs (pos 1) p b.endpoints }

abbrev pub pinned_draft : String → Stub → Draft → Draft
pinned_draft t p d = record (with_target t p d) { pinned = d.pinned ++ p ∷ [] }

abbrev pub add_endpoint : Connection → SmartBackend → SmartBackend
add_endpoint c b = record b {
  endpoints = write b.next (new_endpoint c) b.endpoints;
  next = suc b.next;
}

abbrev pub created_draft : String → Stub → Draft → Draft
created_draft t p d = record (with_target t p d) { created = put t p d.created }

module _ (t : String) (b : SmartBackend) (d : Draft)
    (P : SmartBackend × Except (Draft × Stub) → Type 0) (failed : (e : Error) → P (b, err e)) where
  dialed_cases :
      ((c : Connection) → P (add_endpoint c b, ok (created_draft t b.next d, b.next)))
      → (dialed : Except Connection) → find_target t d.snap.targets ≡ none
      → find_target t b.nodes ≡ none
      → P (find_or_create dialed t b d)
  unfolding find_or_create
  dialed_cases made (err r) new e = rw (new, e, find_or_create) (failed r)
  dialed_cases made (ok c) new e = elim (Option-cases c.conn) [
    | inl f ↦ rw (new, e, f, find_or_create) (failed _)
    | inr (ch, f) ↦ rw (new, e, f, find_or_create) (made c)
  ]

  -- A target of the draft, a node, a failure, or a new endpoint.
  pub find_or_create_cases :
      ((p : Stub) → find_target t d.snap.targets ≡ some p → P (b, ok (d, p)))
      → ((p : Stub)
          → find_target t d.snap.targets ≡ none
          → find_target t b.nodes ≡ some p
          → P (pin_node p b, ok (pinned_draft t p d, p)))
      → (find_target t d.snap.targets ≡ none
          → (c : Connection) → P (add_endpoint c b, ok (created_draft t b.next d, b.next)))
      → (dialed : Except Connection) → P (find_or_create dialed t b d)
  unfolding find_or_create
  find_or_create_cases known node made dialed = elim (Option-cases (find_target t d.snap.targets)) [
    | inr (p, e) ↦ rw (e, find_or_create) (known p e)
    | inl new ↦ elim (Option-cases (find_target t b.nodes)) [
      | inr (p, e) ↦ rw (new, e, find_or_create) (node p new e)
      | inl e ↦ dialed_cases (made new) dialed new e
    ]
  ]

-- A round that has ended by the context, failed to find an endpoint, found a conflict, or added its routes.
module _ (peer : PeerRouting) (b : SmartBackend) (d : Draft)
    (F : SmartBackend × Except (Draft × Stub) → Type 0)
    (P : SmartBackend × Draft × Option Error → Type 0)
    (ended_by : (e : Error) → P (fail_with d b e))
    (unfound : (b' : SmartBackend) (e : Error) → F (b', err e) → P (fail_with d b' e))
    (conflict : (b' : SmartBackend) (d' : Draft) (p : Stub) (e : Error)
      → F (b', ok (d', p))
      → P (fail_with d' b' e))
    (added : (b' : SmartBackend) (d' : Draft) (p : Stub) (l : List (RouteKey × Stub))
      → F (b', ok (d', p))
      → add_routes p peer.role peer.partition_ids d'.snap.routes ≡ ok l
      → P (with_routes b' d' (ok l))) where
  after_found : (r : SmartBackend × Except (Draft × Stub)) → F r → P (with_endpoint peer d r)
  after_found (b', err e) f = unfound b' e f
  after_found (b', ok (d', p)) f =
      after_added (add_routes p peer.role peer.partition_ids d'.snap.routes) refl
    where
      after_added :
          (r : Except (List (RouteKey × Stub)))
          → add_routes p peer.role peer.partition_ids d'.snap.routes ≡ r
          → P (with_routes b' d' r)
      after_added (err e) k = conflict b' d' p e f
      after_added (ok l) k = added b' d' p l f k

  pub publish_peer_cases :
      (ended : Option CtxErr) (dialed : Except Connection)
      → F (find_or_create dialed peer.target b d)
      → P (publish_peer ended dialed peer b d)
  unfolding publish_peer
  publish_peer_cases (some e) dialed f = ended_by (from_context_error e)
  publish_peer_cases none dialed f = after_found (find_or_create dialed peer.target b d) f
