-- ===== src/Interface/Run.antt =====
-- interface.go: the function that runs an operation over a backend.
use hurricache_go_client.Errors.{Ret}
use hurricache_go_client.Types.{Bytes, Options}
use hurricache_go_client.Config.{Config}
use hurricache_go_client.World.{Ctx, Environment, Step}
use hurricache_go_client.Session.{Backend}
use hurricache_go_client.Operations
use hurricache_go_client.Operations.Values
use hurricache_go_client.Operations.Times
use hurricache_go_client.Collections.Create
use hurricache_go_client.Collections.Add
use hurricache_go_client.Collections.Streams
use hurricache_go_client.Convenience
use hurricache_go_client.Interface.{
  Operation, Result, get_value, get_and_delete_value, exist_key, remove, get_size, get_front,
  get_head, get_tail, get_and_remove_front, get_and_remove_tail, remove_head, remove_tail,
  atomic_load, atomic_load_and_delete, atomic_create, atomic_store, atomic_exchange, atomic_add,
  atomic_sub, atomic_or, atomic_and, atomic_xor, atomic_compare_and_set, set_ttl, get_ttl,
  lock_object, unlock_object, create_key_value, update_key_value, get_element_at_position,
  get_and_remove_element_at_position, remove_element_at_position, get_container_value,
  get_and_remove_container_value, contains_container_key, remove_container_key,
  update_container_value, create_container, remove_from_container, get_container,
  get_element_in_range, create_queue, stream_queue, create_list, stream_list, create_vector,
  stream_vector, create_set, stream_set, create_ordered_set, stream_ordered_set, create_map,
  stream_map, create_ordered_map, stream_ordered_map, add_element, add_element_ordered,
  add_element_ordered_set, add_element_to_tail, add_element_to_head, add_element_to_position,
  add_element_with_weight, add_element_to_position_before, add_element_to_position_after,
  add_element_hash_map, add_element_ordered_map, add_element_to_head_count,
  add_element_to_tail_count, add_element_to_position_before_count,
  add_element_to_position_after_count, add_element_unordered, stream_element_in_range_unordered,
  stream_element_in_range_ordered_set, stream_element_in_range_ordered,
  stream_element_in_range_ordered_map, get_element_with_weight, get_and_remove_element_with_weight,
}

module _ (env : Environment) (backend : Backend) (c : Config) (ctx : Ctx) (key : Bytes)
    (o : Options) where
  unfoldable pub run_operation : (op : Operation) → Step (Ret (Result op))
  run_operation get_value = Operations.get_value env backend c ctx key o
  run_operation get_and_delete_value = Operations.get_and_delete_value env backend c ctx key o
  run_operation exist_key = Operations.exist_key env backend c ctx key o
  run_operation remove = Operations.remove env backend c ctx key o
  run_operation get_size = Operations.get_size env backend c ctx key o
  run_operation get_front = Operations.get_front env backend c ctx key o
  run_operation get_head = Operations.get_head env backend c ctx key o
  run_operation get_tail = Operations.get_tail env backend c ctx key o
  run_operation get_and_remove_front = Operations.get_and_remove_front env backend c ctx key o
  run_operation get_and_remove_tail = Operations.get_and_remove_tail env backend c ctx key o
  run_operation remove_head = Operations.remove_head env backend c ctx key o
  run_operation remove_tail = Operations.remove_tail env backend c ctx key o
  run_operation atomic_load = Operations.atomic_load env backend c ctx key o
  run_operation atomic_load_and_delete = Operations.atomic_load_and_delete env backend c ctx key o
  run_operation (atomic_create a) = Operations.atomic_create env backend c ctx key a o
  run_operation (atomic_store a) = Operations.atomic_store env backend c ctx key a o
  run_operation (atomic_exchange a) = Operations.atomic_exchange env backend c ctx key a o
  run_operation (atomic_add a) = Operations.atomic_add env backend c ctx key a o
  run_operation (atomic_sub a) = Operations.atomic_sub env backend c ctx key a o
  run_operation (atomic_or a) = Operations.atomic_or env backend c ctx key a o
  run_operation (atomic_and a) = Operations.atomic_and env backend c ctx key a o
  run_operation (atomic_xor a) = Operations.atomic_xor env backend c ctx key a o
  run_operation (atomic_compare_and_set a b) =
      Operations.atomic_compare_and_set env backend c ctx key a b o
  run_operation (set_ttl a) = Times.set_ttl env backend c ctx key a o
  run_operation get_ttl = Times.get_ttl env backend c ctx key o
  run_operation (lock_object a b) = Times.lock_object env backend c ctx key a b o
  run_operation unlock_object = Times.unlock_object env backend c ctx key o
  run_operation (create_key_value a) = Values.create_key_value env backend c ctx key a o
  run_operation (update_key_value a) = Values.update_key_value env backend c ctx key a o
  run_operation (get_element_at_position a) =
      Values.get_element_at_position env backend c ctx key a o
  run_operation (get_and_remove_element_at_position a) =
      Values.get_and_remove_element_at_position env backend c ctx key a o
  run_operation (remove_element_at_position a) =
      Values.remove_element_at_position env backend c ctx key a o
  run_operation (get_container_value a) = Values.get_container_value env backend c ctx key a o
  run_operation (get_and_remove_container_value a) =
      Values.get_and_remove_container_value env backend c ctx key a o
  run_operation (contains_container_key a) = Values.contains_container_key env backend c ctx key a o
  run_operation (remove_container_key a) = Values.remove_container_key env backend c ctx key a o
  run_operation (update_container_value a b) =
      Values.update_container_value env backend c ctx key a b o
  run_operation (create_container a b) = Create.create_container env backend c ctx key a b o
  run_operation (remove_from_container a) = Add.remove_from_container env backend c ctx key a o
  run_operation get_container = Streams.get_container env backend c ctx key o
  run_operation (get_element_in_range a) = Streams.get_element_in_range env backend c ctx key a o
  run_operation (create_queue a) = Convenience.create_queue env backend c ctx key a o
  run_operation stream_queue = Convenience.stream_queue env backend c ctx key o
  run_operation (create_list a) = Convenience.create_list env backend c ctx key a o
  run_operation stream_list = Convenience.stream_list env backend c ctx key o
  run_operation (create_vector a) = Convenience.create_vector env backend c ctx key a o
  run_operation stream_vector = Convenience.stream_vector env backend c ctx key o
  run_operation (create_set a) = Convenience.create_set env backend c ctx key a o
  run_operation stream_set = Convenience.stream_set env backend c ctx key o
  run_operation (create_ordered_set a) = Convenience.create_ordered_set env backend c ctx key a o
  run_operation stream_ordered_set = Convenience.stream_ordered_set env backend c ctx key o
  run_operation (create_map a) = Convenience.create_map env backend c ctx key a o
  run_operation stream_map = Convenience.stream_map env backend c ctx key o
  run_operation (create_ordered_map a) = Convenience.create_ordered_map env backend c ctx key a o
  run_operation stream_ordered_map = Convenience.stream_ordered_map env backend c ctx key o
  run_operation (add_element a) = Convenience.add_element env backend c ctx key a o
  run_operation (add_element_ordered a) = Convenience.add_element_ordered env backend c ctx key a o
  run_operation (add_element_ordered_set a) =
      Convenience.add_element_ordered_set env backend c ctx key a o
  run_operation (add_element_to_tail a) = Convenience.add_element_to_tail env backend c ctx key a o
  run_operation (add_element_to_head a) = Convenience.add_element_to_head env backend c ctx key a o
  run_operation (add_element_to_position a b) =
      Convenience.add_element_to_position env backend c ctx key a b o
  run_operation (add_element_with_weight a) =
      Convenience.add_element_with_weight env backend c ctx key a o
  run_operation (add_element_to_position_before a b) =
      Convenience.add_element_to_position_before env backend c ctx key a b o
  run_operation (add_element_to_position_after a b) =
      Convenience.add_element_to_position_after env backend c ctx key a b o
  run_operation (add_element_hash_map a) =
      Convenience.add_element_hash_map env backend c ctx key a o
  run_operation (add_element_ordered_map a) =
      Convenience.add_element_ordered_map env backend c ctx key a o
  run_operation (add_element_to_head_count a) =
      Convenience.add_element_to_head_count env backend c ctx key a o
  run_operation (add_element_to_tail_count a) =
      Convenience.add_element_to_tail_count env backend c ctx key a o
  run_operation (add_element_to_position_before_count a b) =
      Convenience.add_element_to_position_before_count env backend c ctx key a b o
  run_operation (add_element_to_position_after_count a b) =
      Convenience.add_element_to_position_after_count env backend c ctx key a b o
  run_operation (add_element_unordered a) =
      Convenience.add_element_unordered env backend c ctx key a o
  run_operation (stream_element_in_range_unordered a b d) =
      Convenience.stream_element_in_range_unordered env backend c ctx key a b d o
  run_operation (stream_element_in_range_ordered_set a b d) =
      Convenience.stream_element_in_range_ordered_set env backend c ctx key a b d o
  run_operation (stream_element_in_range_ordered a b) =
      Convenience.stream_element_in_range_ordered env backend c ctx key a b o
  run_operation (stream_element_in_range_ordered_map a b d) =
      Convenience.stream_element_in_range_ordered_map env backend c ctx key a b d o
  run_operation (get_element_with_weight a) =
      Convenience.get_element_with_weight env backend c ctx key a o
  run_operation (get_and_remove_element_with_weight a) =
      Convenience.get_and_remove_element_with_weight env backend c ctx key a o
