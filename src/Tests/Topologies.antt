-- ===== src/Tests/Topologies.antt =====
-- Concrete runs of the smart client: a coordinator that names one node, a refresh, and a call.
use hurricache_go_client.Prelude.{
  ℕ, suc, pos, ◌<◌, ◌≤◌, ◌≡◌, refl, true, false, Option, none, some, List, [], ◌∷◌, String, ◌⊎◌,
  arith, count,
}
use hurricache_go_client.Errors.{Except, ok, Error, unavailable}
use hurricache_go_client.Rpc.{Stub}
use hurricache_go_client.World.{Ctx}
use hurricache_go_client.Smart.Routing.{find_route, Topology, master_node}
use hurricache_go_client.Smart.State.{Connection, SmartBackend, pin_snapshot}
use hurricache_go_client.Smart.State.Retire.{entries}
use hurricache_go_client.Smart.Publish.{PeerRouting, Discovery, new_draft, publish_peer, publish}
use hurricache_go_client.Smart.Publish.Failure.{Retained}
use hurricache_go_client.Smart.Publish.Current.{Serves, published_topology-Serves}
use hurricache_go_client.Smart.Discover.{RoutingInfoData, RoutingReply, refused, stream, read_reply}
use hurricache_go_client.Smart.Discover.Valid.{Accepted, discovery_is_valid}
use hurricache_go_client.Smart.Refresh.{Outside, attempt_coordinator, refresh}
use hurricache_go_client.Smart.Refresh.Failure.{failed_refresh_retains}
use hurricache_go_client.Smart.Lifecycle.{
  System, call_starts, Reach, next, new_backend, new_system, start_call,
}
use hurricache_go_client.Smart.Lifecycle.Sequential.{refresh_takes_steps}
use hurricache_go_client.Smart.Lifecycle.Safety.{
  pinned, refs_are_pins, used_endpoints_are_open, closed_at_most_once, nodes_are_used,
}
use hurricache_go_client.Smart.Lifecycle.Routed.{routed_endpoints_are_open}
use hurricache_go_client.Smart.Lifecycle.Progress.{Forced, close_can_end}

abbrev one_peer : PeerRouting
one_peer = record { target = "node"; role = master_node; partition_ids = 0 ∷ 1 ∷ [] }

abbrev one_node : Discovery
one_node = record { shards = 2; peers = one_peer ∷ [] }

abbrev one_message : RoutingInfoData
one_message = record { max_shards = 2; peer_routing = one_peer ∷ [] }

abbrev a_connection : Connection
a_connection = record { conn = some 7; close = some none }

abbrev open_ctx : Ctx
open_ctx t = none

abbrev a_factory : ℕ → String → Except Connection
a_factory t target = ok a_connection

-- A network in which the coordinator answers, and one in which it refuses.
abbrev answering : RoutingReply → Outside
answering r = record {
  factory = a_factory;
  reply = λ t target. r;
  ended_attempt = open_ctx;
  answered = suc;
  next_round = suc;
}

abbrev coordinators : List String
coordinators = "coordinator" ∷ []

abbrev refreshed : RoutingReply → SmartBackend × Option Error
refreshed r =
    refresh open_ctx (attempt_coordinator (answering r)) (answering r).next_round none 0
      (new_backend coordinators)

abbrev good_reply : RoutingReply
good_reply = stream (one_message ∷ []) none

abbrev after_refresh : System
after_refresh = record (new_system coordinators) { backend = (refreshed good_reply).0 }

reach_refresh : Reach (new_system coordinators) after_refresh
reach_refresh =
    refresh_takes_steps (new_system coordinators) (answering good_reply) open_ctx none 0 refl

-- The topology after the refresh: one endpoint, at address 0, with both routes.
abbrev one_topology : Topology
one_topology = record {
  shards = 2;
  routes =
      (record { shard = 0; role = master_node }, 0)
      ∷ (record { shard = 1; role = master_node }, 0)
      ∷ [];
  targets = ("node", 0) ∷ [];
}

discovery_is_valid_example : Accepted (one_message ∷ []) none one_node
unfolding read_reply
discovery_is_valid_example = discovery_is_valid (one_message ∷ []) none one_node refl

published_topology-Serves_example :
    (snap : Topology) × ((publish open_ctx a_factory one_node 0
        (new_backend coordinators)).0.snapshot
      ≡ some snap)
    × Serves one_node snap
unfolding publish publish_peer new_draft
published_topology-Serves_example =
    published_topology-Serves open_ctx a_factory one_node 0 (new_backend coordinators) refl

failed_refresh_retains_example :
    Retained (new_backend coordinators) (refreshed (refused unavailable)).0
unfolding refresh attempt_coordinator publish_peer new_draft
failed_refresh_retains_example =
    failed_refresh_retains (answering (refused unavailable)) open_ctx none 0
      (new_backend coordinators) _ refl

refresh_takes_steps_example : Reach (new_system coordinators) after_refresh
refresh_takes_steps_example =
    refresh_takes_steps (new_system coordinators) (answering good_reply) open_ctx none 0 refl

abbrev in_call : System
in_call = start_call one_topology after_refresh

reach_call : Reach (new_system coordinators) in_call
unfolding refresh attempt_coordinator publish_peer new_draft
reach_call = next reach_refresh (call_starts one_topology refl refl)

refs_are_pins_example : (in_call.backend.endpoints 0).refs ≡ pos (pinned in_call 0)
refs_are_pins_example = refs_are_pins coordinators in_call reach_call 0

used_endpoints_are_open_example :
    ((in_call.backend.endpoints 0).closed ≡ false) × (count 0 in_call.backend.released ≡ 0)
unfolding refresh attempt_coordinator publish_peer new_draft pinned
used_endpoints_are_open_example =
    used_endpoints_are_open coordinators in_call reach_call refl 0 (omega arith)

closed_at_most_once_example : count 0 in_call.backend.released ≤ 1
closed_at_most_once_example = closed_at_most_once coordinators in_call reach_call 0

nodes_are_used_example : ((in_call.backend.endpoints 0).active ≡ true) ⊎ (0 < pinned in_call 0)
unfolding refresh attempt_coordinator publish_peer new_draft pin_snapshot
nodes_are_used_example = nodes_are_used coordinators in_call reach_call 0 (omega arith)

abbrev closing : System
closing = record in_call { backend = record (in_call.backend) { closed = true } }

close_can_end_example :
    (t : System) × Forced closing t
    × (t.finished ≡ true)
    × ((q : Stub) → 0 < entries q t.backend.nodes → (t.backend.endpoints q).closed ≡ true)
close_can_end_example = close_can_end closing refl refl

routed_endpoints_are_open_example :
    (0 < entries 0 one_topology.targets)
    × ((in_call.backend.endpoints 0).closed ≡ false)
    × (count 0 in_call.backend.released ≡ 0)
unfolding refresh attempt_coordinator publish_peer new_draft pin_snapshot find_route
routed_endpoints_are_open_example =
    routed_endpoints_are_open coordinators in_call reach_call refl one_topology refl
      (record { shard = 1; role = master_node }) 0 refl
