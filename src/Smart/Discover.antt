-- ===== src/Smart/Discover.antt =====
-- smart.go: `discover`, which asks one coordinator for the topology and checks the answer.
pub mod Connect
pub mod Valid
use hurricache_go_client.Prelude.{
  ℕ, ◌+◌, Bool, true, false, not, ◌&&◌, ◌||◌, Option, none, some, List, [], ◌∷◌, ◌++◌, String, ◌==◌,
  ltb, if◌then◌else◌,
}
use text.Mathlib.Text.{◌==◌ as str_eq}
use hurricache_go_client.Errors.{
  Except, ok, err, Error, Code, status, foreign, rpc, canceled, invalid_argument, data_loss,
  unavailable,
}
use hurricache_go_client.Smart.Routing.{
  NodeRole, undefined_node, master_node, backup_node, other_node,
}
use hurricache_go_client.Smart.State.{Connection, SmartBackend, put}
use hurricache_go_client.Smart.Publish.{PeerRouting, Discovery}

-- `cpb.RoutingInfoData`.
pub record RoutingInfoData : Type 0 where
  pub max_shards : ℕ
  pub peer_routing : List PeerRouting

-- What a coordinator answers: no stream, or its messages and the failure that ends it, if any.
pub data RoutingReply : Type 0 where
  refused : Code → RoutingReply
  stream : List RoutingInfoData → Option (Code × List String) → RoutingReply

abbrev is_empty_string : String → Bool
is_empty_string t = str_eq t ""

unfoldable pub find_connection : String → List (String × Connection) → Option Connection
find_connection t [] = none
find_connection t ((u, c) ∷ rest) = if str_eq u t then some c else find_connection t rest

-- The connection to a coordinator, which is kept for later, or closed, which is not recorded; `dialed` is what the factory answers. The
-- state is that of the second look under the lock: only the holder of the gate adds connections.
unfoldable pub connect :
    Except Connection → String → SmartBackend → SmartBackend × Except Connection
unfolding find_connection
connect dialed t b = elim (find_connection t b.coordinator_connections) [
  | some c ↦ (b, ok c)
  | none ↦ elim dialed [
    | err e ↦ (b, err e)
    | ok c ↦ elim c.conn [
      | none ↦ (b, err (status invalid_argument))
      | some ch ↦
          if b.closed
          then (b, err (status canceled))
          else (record b { coordinator_connections = put t c b.coordinator_connections }, ok c)
    ]
  ]
]

abbrev pub inconsistent : ℕ → RoutingInfoData → Bool
inconsistent shards r = r.max_shards == 0 || not (shards == 0) && not (shards == r.max_shards)

abbrev stream_error : Code × List String → Error
stream_error (c, routes) = rpc (foreign c) routes

-- The loop that receives the messages.
unfoldable pub gather :
    Discovery → List RoutingInfoData → Option (Code × List String) → Except Discovery
gather d [] none = ok d
gather d [] (some f) = err (stream_error f)
gather d (r ∷ rest) end =
    let more =
      gather (record { shards = r.max_shards; peers = d.peers ++ r.peer_routing }) rest end in
    if inconsistent d.shards r then err (status data_loss) else more

abbrev pub is_data_role : NodeRole → Bool
is_data_role master_node = true
is_data_role backup_node = true
is_data_role _ = false

abbrev pub bad_route : PeerRouting → Bool
bad_route p = is_empty_string p.target || not (is_data_role p.role)

unfoldable pub check_partitions : ℕ → List ℕ → Except (Unit {0})
check_partitions shards [] = ok tt
check_partitions shards (shard ∷ rest) =
    if ltb shard shards then check_partitions shards rest else err (status data_loss)

unfoldable pub check_peers : ℕ → List PeerRouting → Except (Unit {0})
unfolding check_partitions
check_peers shards [] = ok tt
check_peers shards (p ∷ rest) =
    let more = check_peers shards rest in
    if bad_route p
    then err (status data_loss)
    else elim (check_partitions shards p.partition_ids) [ err e ↦ err e | ok u ↦ more ]

abbrev no_peers : List PeerRouting → Bool
no_peers [] = true
no_peers (p ∷ rest) = false

unfoldable pub check_discovery : Discovery → Except Discovery
unfolding check_peers
check_discovery d =
    if d.shards == 0 || no_peers d.peers
    then err (status unavailable)
    else elim (check_peers d.shards d.peers) [ err e ↦ err e | ok u ↦ ok d ]

abbrev no_discovery : Discovery
no_discovery = record { shards = 0; peers = [] }

abbrev check_gathered : Except Discovery → Except Discovery
check_gathered (err e) = err e
check_gathered (ok d) = check_discovery d

unfoldable pub read_reply : RoutingReply → Except Discovery
unfolding gather check_discovery
read_reply (refused c) = err (foreign c)
read_reply (stream rs end) = check_gathered (gather no_discovery rs end)

abbrev pub ask : SmartBackend × Except Connection → RoutingReply → SmartBackend × Except Discovery
ask (b, err e) reply = (b, err e)
ask (b, ok c) reply = (b, read_reply reply)

-- `reply` is what the coordinator answers, if it is asked.
unfoldable pub discover :
    Except Connection → RoutingReply → String → SmartBackend → SmartBackend × Except Discovery
unfolding connect read_reply
discover dialed reply t b = ask (connect dialed t b) reply
