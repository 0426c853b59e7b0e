-- ===== src/Interface.antt =====
-- interface.go: the operations that the direct and the smart client share, as one type.
pub mod Run
pub mod Limits
pub mod Bounded
use hurricache_go_client.Prelude.{ℕ, ℤ, Bool, Option, List}
use hurricache_go_client.Errors.{Ret}
use hurricache_go_client.Types.{
  Bytes, KeyHint, Options, Payload, OrderedPayload, Entry, OrderedEntry, ContainerData, Position,
  ValueResult, UpdateResult, AtomicResult, CasResult, TtlResult, LockResult, LockType,
  ContainerType, Removal,
}
use hurricache_go_client.Config.{Config}
use hurricache_go_client.World.{Ctx, Environment, Step}
use hurricache_go_client.Session.{Backend}
use hurricache_go_client.Operations
use hurricache_go_client.Operations.Values
use hurricache_go_client.Operations.Times
use hurricache_go_client.Collections.Create
use hurricache_go_client.Collections.Add
use hurricache_go_client.Collections.Streams
use hurricache_go_client.Convenience

-- An operation with its arguments, the key and the options excepted.
pub data Operation : Type 0 where
  get_value get_and_delete_value exist_key remove get_size get_front get_head get_tail
        get_and_remove_front get_and_remove_tail remove_head remove_tail atomic_load
        atomic_load_and_delete :
      Operation
  atomic_create atomic_store atomic_exchange atomic_add atomic_sub atomic_or atomic_and atomic_xor :
      ℤ → Operation
  atomic_compare_and_set : ℤ → ℤ → Operation
  set_ttl : ℤ → Operation
  get_ttl : Operation
  lock_object : LockType → ℤ → Operation
  unlock_object : Operation
  create_key_value update_key_value : Bytes → Operation
  get_element_at_position get_and_remove_element_at_position remove_element_at_position :
      Position → Operation
  get_container_value get_and_remove_container_value contains_container_key remove_container_key :
      Bytes → Operation
  update_container_value : Bytes → Bytes → Operation
  create_container : ContainerType → ContainerData → Operation
  remove_from_container : Removal → Operation
  get_container : Operation
  get_element_in_range : Position → Operation
  create_queue : List Payload → Operation
  stream_queue : Operation
  create_list : List Payload → Operation
  stream_list : Operation
  create_vector : List Payload → Operation
  stream_vector : Operation
  create_set : List Payload → Operation
  stream_set : Operation
  create_ordered_set : List OrderedPayload → Operation
  stream_ordered_set : Operation
  create_map : List Entry → Operation
  stream_map : Operation
  create_ordered_map : List OrderedEntry → Operation
  stream_ordered_map : Operation
  add_element : List Payload → Operation
  add_element_ordered add_element_ordered_set : List OrderedPayload → Operation
  add_element_to_tail add_element_to_head : List Payload → Operation
  add_element_to_position : List Payload → ℕ → Operation
  add_element_with_weight : List OrderedPayload → Operation
  add_element_to_position_before add_element_to_position_after : List Payload → Payload → Operation
  add_element_hash_map : List Entry → Operation
  add_element_ordered_map : List OrderedEntry → Operation
  add_element_to_head_count add_element_to_tail_count : List Payload → Operation
  add_element_to_position_before_count add_element_to_position_after_count :
      List Payload → Payload → Operation
  add_element_unordered : List Payload → Operation
  stream_element_in_range_unordered : ContainerType → ℕ → ℕ → Operation
  stream_element_in_range_ordered_set : ℕ → ℕ → Bool → Operation
  stream_element_in_range_ordered : ℕ → ℕ → Operation
  stream_element_in_range_ordered_map : ℕ → ℕ → Bool → Operation
  get_element_with_weight get_and_remove_element_with_weight : ℕ → Operation

-- What an operation returns beside its error.
abbrev pub Result : Operation → Type 0
Result get_value = ValueResult
Result get_and_delete_value = ValueResult
Result exist_key = Bool
Result remove = Bool
Result get_size = ℕ
Result get_front = ValueResult
Result get_head = ValueResult
Result get_tail = ValueResult
Result get_and_remove_front = ValueResult
Result get_and_remove_tail = ValueResult
Result remove_head = Bool
Result remove_tail = Bool
Result atomic_load = AtomicResult
Result atomic_load_and_delete = AtomicResult
Result (atomic_create _) = Option KeyHint
Result (atomic_store _) = Option KeyHint
Result (atomic_exchange _) = AtomicResult
Result (atomic_add _) = AtomicResult
Result (atomic_sub _) = AtomicResult
Result (atomic_or _) = AtomicResult
Result (atomic_and _) = AtomicResult
Result (atomic_xor _) = AtomicResult
Result (atomic_compare_and_set _ _) = CasResult
Result (set_ttl _) = Bool
Result get_ttl = TtlResult
Result (lock_object _ _) = LockResult
Result unlock_object = LockResult
Result (create_key_value _) = Option KeyHint
Result (update_key_value _) = UpdateResult
Result (get_element_at_position _) = ValueResult
Result (get_and_remove_element_at_position _) = ValueResult
Result (remove_element_at_position _) = Bool
Result (get_container_value _) = ValueResult
Result (get_and_remove_container_value _) = ValueResult
Result (contains_container_key _) = Bool
Result (remove_container_key _) = ℕ
Result (update_container_value _ _) = UpdateResult
Result (create_container _ _) = Option KeyHint
Result (remove_from_container _) = ℕ
Result get_container = ContainerData
Result (get_element_in_range _) = ContainerData
Result (create_queue _) = Option KeyHint
Result stream_queue = List Payload
Result (create_list _) = Option KeyHint
Result stream_list = List Payload
Result (create_vector _) = Option KeyHint
Result stream_vector = List Payload
Result (create_set _) = Option KeyHint
Result stream_set = List Payload
Result (create_ordered_set _) = Option KeyHint
Result stream_ordered_set = List OrderedPayload
Result (create_map _) = Option KeyHint
Result stream_map = List Entry
Result (create_ordered_map _) = Option KeyHint
Result stream_ordered_map = List OrderedEntry
Result (add_element _) = Bool
Result (add_element_ordered _) = Bool
Result (add_element_ordered_set _) = Bool
Result (add_element_to_tail _) = Bool
Result (add_element_to_head _) = Bool
Result (add_element_to_position _ _) = ℕ
Result (add_element_with_weight _) = ℕ
Result (add_element_to_position_before _ _) = Bool
Result (add_element_to_position_after _ _) = Bool
Result (add_element_hash_map _) = ℕ
Result (add_element_ordered_map _) = ℕ
Result (add_element_to_head_count _) = ℕ
Result (add_element_to_tail_count _) = ℕ
Result (add_element_to_position_before_count _ _) = ℕ
Result (add_element_to_position_after_count _ _) = ℕ
Result (add_element_unordered _) = ℕ
Result (stream_element_in_range_unordered _ _ _) = List Payload
Result (stream_element_in_range_ordered_set _ _ _) = List OrderedPayload
Result (stream_element_in_range_ordered _ _) = List OrderedPayload
Result (stream_element_in_range_ordered_map _ _ _) = List OrderedEntry
Result (get_element_with_weight _) = ValueResult
Result (get_and_remove_element_with_weight _) = ValueResult
