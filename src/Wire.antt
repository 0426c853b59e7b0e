-- ===== src/Wire.antt =====
-- The protocol messages of proto/cache.proto that the client sends and reads, as the structs of
-- proto/cachepb/cache.pb.go have them. A message field that may be absent is an `Option`.
use hurricache_go_client.Prelude.{ℕ, ℤ, Bool, Option, List}
use hurricache_go_client.Types.{Bytes, ContainerType, LockType, LockStatus}

-- `BinaryPayload` and `KeyBinaryPayload` have the same fields.
pub record BinaryPayload : Type 0 where
  pub payload : Bytes
  pub size : ℕ

pub record PbKeyHint : Type 0 where
  pub week_hash : Option ℕ
  pub strong_hash : Option ℕ

pub record CompressedInfo : Type 0 where
  pub enabled : Bool
  pub raw_size : Option ℕ

pub record Key : Type 0 where
  pub payload : Option BinaryPayload
  pub compression_info : Option CompressedInfo
  pub key_hint : Option PbKeyHint
  pub client_id : Option ℕ

pub record OrderedKey : Type 0 where
  pub payload : Option BinaryPayload
  pub order : Option ℕ
  pub compression_info : Option CompressedInfo
  pub key_hint : Option PbKeyHint
  pub client_id : Option ℕ

pub record PbLockInfo : Type 0 where
  pub type : LockType
  pub locked_by : Option ℕ
  pub locked_till : Option ℕ

pub record Value : Type 0 where
  pub value : Option BinaryPayload
  pub compression_info : Option CompressedInfo
  pub ttl : Option ℕ
  pub lock_info : Option PbLockInfo

pub record OrderedValue : Type 0 where
  pub value : Option BinaryPayload
  pub order : Option ℕ
  pub compression_info : Option CompressedInfo
  pub ttl : Option ℕ
  pub lock_info : Option PbLockInfo

pub record GetRequest : Type 0 where
  pub key : Key

pub record ContainerGetRequest : Type 0 where
  pub key : Key
  pub element_key : Key

pub record TtlRequest : Type 0 where
  pub key : Key
  pub ttl : Option ℕ

pub record TtlResponse : Type 0 where
  pub ttl : Option ℕ

pub record CreateRequest : Type 0 where
  pub key : Key
  pub value : Value

pub record UpdateRequest : Type 0 where
  pub key : Key
  pub value : Value

pub record UpdateContainerRequest : Type 0 where
  pub key : Key
  pub element_key : Key
  pub value : Value

pub record BoolResponse : Type 0 where
  pub value : Bool

pub record IntResponse : Type 0 where
  pub size : ℕ

pub record ValueResponse : Type 0 where
  pub value_unordered : Option Value
  pub value_ordered : Option OrderedValue
  pub key_hint : Option PbKeyHint

-- A repeated message field may hold nil elements in Go.
pub record BatchValueResponse : Type 0 where
  pub key_unordered : List (Option Key)
  pub key_ordered : List (Option OrderedKey)
  pub value_unordered : List (Option Value)
  pub value_ordered : List (Option OrderedValue)

pub record UpdateValueResponse : Type 0 where
  pub result : Bool
  pub value : Option Value

pub record KeyHintResponse : Type 0 where
  pub key_hint : Option PbKeyHint

pub record KeyPositionRequest : Type 0 where
  pub key : Key
  pub type : Option ContainerType
  pub pos : ℕ
  pub end : Option ℕ
  pub reverse : Bool

pub record CreateContainerRequest : Type 0 where
  pub key : Key
  pub type : ContainerType
  pub ttl : Option ℕ
  pub key_unordered : List Key
  pub value_unordered : List Value
  pub key_ordered : List OrderedKey
  pub value_ordered : List OrderedValue

pub record AddToRequest : Type 0 where
  pub key : Key
  pub type : Option ContainerType
  pub pos : Option ℕ
  pub key_unordered : List Key
  pub value_unordered : List Value
  pub key_ordered : List OrderedKey
  pub value_ordered : List OrderedValue

pub record AddToValRequest : Type 0 where
  pub key : Key
  pub is_before : Bool
  pub pos : Option Value
  pub value : List Value

pub record RemoveFromContainerRequest : Type 0 where
  pub key : Key
  pub type : Option ContainerType
  pub values : List Value
  pub keys : List Key

pub record LockRequest : Type 0 where
  pub key : Key
  pub lock_type : LockType
  pub client_id : Option ℕ
  pub lock_duration : Option ℕ

pub record UnLockRequest : Type 0 where
  pub key : Key
  pub client_id : Option ℕ

-- `LockResponse` and `UnlockResponse`, without the diagnostic text.
pub record LockResponse : Type 0 where
  pub result : LockStatus

pub record AtomicValue : Type 0 where
  pub val : ℤ
  pub key_hint : Option PbKeyHint

pub record AtomicCreate : Type 0 where
  pub key : Key
  pub val : AtomicValue
  pub ttl : Option ℕ

pub record AtomicCas : Type 0 where
  pub key : Key
  pub expected : AtomicValue
  pub to_set : AtomicValue
  pub ttl : Option ℕ

pub record AtomicCasRes : Type 0 where
  pub result : Bool
  pub expected : Option AtomicValue
  pub key_hint : Option PbKeyHint
