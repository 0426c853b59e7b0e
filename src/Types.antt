-- ===== src/Types.antt =====
-- The public data of types.go and the enumerations that it takes from the protocol. A pointer to an
-- optional value is an `Option`; bytes are numbers.
use hurricache_go_client.Prelude.{ℕ, ℤ, Bool, Option, none, List, []}

abbrev pub Bytes : Type 0
Bytes = List ℕ

-- Enumeration values that the protocol does not name are `other_type`, `other_lock`, `other_mode`.
pub data ContainerType : Type 0 where
  undefined vector list queue set map ordered_map ordered_set : ContainerType
  other_type : ℤ → ContainerType

pub data LockType : Type 0 where
  no_lock write_lock read_lock global_lock : LockType
  other_lock : ℤ → LockType

pub data LockStatus : Type 0 where
  lock_ok cant_lock cant_unlock lock_generic_error : LockStatus
  other_status : ℤ → LockStatus

pub data RoutingMode : Type 0 where
  master_then_backup master backup lb_smart : RoutingMode
  other_mode : ℕ → RoutingMode

pub record KeyHint : Type 0 where
  pub weak_hash : Option ℕ
  pub strong_hash : Option ℕ

pub record CompressionInfo : Type 0 where
  pub enabled : Bool
  pub raw_size : Option ℕ

pub record LockInfo : Type 0 where
  pub type : LockType
  pub locked_by : Option ℕ
  pub locked_till_millis : Option ℕ

pub record Payload : Type 0 where
  pub bytes : Bytes
  pub expires_at_millis : Option ℕ
  pub lock : Option LockInfo
  pub hint : Option KeyHint
  pub compression : Option CompressionInfo
  pub client_id : Option ℕ

-- `OrderedPayload` embeds its `Payload`.
pub record OrderedPayload : Type 0 where
  pub payload : Payload
  pub order : Option ℕ

pub record Entry : Type 0 where
  pub key : Payload
  pub value : Payload

pub record OrderedEntry : Type 0 where
  pub key : OrderedPayload
  pub value : Payload

pub record ValueResult : Type 0 where
  pub value : Option Payload
  pub ordered : Option OrderedPayload
  pub hint : Option KeyHint

pub record UpdateResult : Type 0 where
  pub updated : Bool
  pub previous : Option Payload

pub record AtomicResult : Type 0 where
  pub value : ℤ
  pub hint : Option KeyHint

pub record CasResult : Type 0 where
  pub swapped : Bool
  pub expected : Option AtomicResult
  pub hint : Option KeyHint

-- Durations are nanoseconds.
pub record TtlResult : Type 0 where
  pub remaining : Option ℤ
  pub expires_at_millis : Option ℕ

-- The optional diagnostic text of the server is left out.
pub record LockResult : Type 0 where
  pub status : LockStatus

pub record Options : Type 0 where
  pub hint : Option KeyHint
  pub client_id : Option ℕ
  pub ttl : Option ℤ
  pub timeout : Option ℤ
  pub mode : Option RoutingMode

pub record Position : Type 0 where
  pub start : ℕ
  pub end : Option ℕ
  pub type : Option ContainerType
  pub reverse : Bool

pub record ContainerData : Type 0 where
  pub values : List Payload
  pub ordered_values : List OrderedPayload
  pub entries : List Entry
  pub ordered_entries : List OrderedEntry

pub record Removal : Type 0 where
  pub type : ContainerType
  pub values : List Payload
  pub keys : List Payload

abbrev pub no_data : ContainerData
no_data = record { values = []; ordered_values = []; entries = []; ordered_entries = [] }

abbrev pub no_payload : Payload
no_payload = record {
  bytes = [];
  expires_at_millis = none;
  lock = none;
  hint = none;
  compression = none;
  client_id = none;
}
