-- ===== src/Interface/Limits.antt =====
-- interface.go: whatever the operation, no request above the configured size leaves the client.
pub mod Scalars
pub mod Elements
pub mod Containers
pub mod Named
use hurricache_go_client.Types.{Bytes, Options}
use hurricache_go_client.Config.{Config}
use hurricache_go_client.World.{Ctx, Environment, World}
use hurricache_go_client.World.Keeps.{Keeps}
use hurricache_go_client.Session.{Backend}
use hurricache_go_client.Session.Limits.{AllWithin, Respects}
use hurricache_go_client.Interface.Run.{run_operation}
use hurricache_go_client.Interface.Limits.Scalars.{
  get_value-Keeps, get_and_delete_value-Keeps, exist_key-Keeps, remove-Keeps, get_size-Keeps,
  get_front-Keeps, get_head-Keeps, get_tail-Keeps, get_and_remove_front-Keeps,
  get_and_remove_tail-Keeps, remove_head-Keeps, remove_tail-Keeps, atomic_load-Keeps,
  atomic_load_and_delete-Keeps, atomic_create-Keeps, atomic_store-Keeps, atomic_exchange-Keeps,
  atomic_add-Keeps, atomic_sub-Keeps, atomic_or-Keeps, atomic_and-Keeps, atomic_xor-Keeps,
  atomic_compare_and_set-Keeps,
}
use hurricache_go_client.Interface.Limits.Elements.{
  set_ttl-Keeps, get_ttl-Keeps, lock_object-Keeps, unlock_object-Keeps, create_key_value-Keeps,
  update_key_value-Keeps, get_element_at_position-Keeps, get_and_remove_element_at_position-Keeps,
  remove_element_at_position-Keeps, get_container_value-Keeps, get_and_remove_container_value-Keeps,
  contains_container_key-Keeps, remove_container_key-Keeps, update_container_value-Keeps,
}
use hurricache_go_client.Interface.Limits.Containers.{
  create_container-Keeps, remove_from_container-Keeps, get_container-Keeps,
  get_element_in_range-Keeps,
}
use hurricache_go_client.Interface.Limits.Named.{
  create_queue-Keeps, stream_queue-Keeps, create_list-Keeps, stream_list-Keeps, create_vector-Keeps,
  stream_vector-Keeps, create_set-Keeps, stream_set-Keeps, create_ordered_set-Keeps,
  stream_ordered_set-Keeps, create_map-Keeps, stream_map-Keeps, create_ordered_map-Keeps,
  stream_ordered_map-Keeps, add_element-Keeps, add_element_ordered-Keeps,
  add_element_ordered_set-Keeps, add_element_to_tail-Keeps, add_element_to_head-Keeps,
  add_element_to_position-Keeps, add_element_with_weight-Keeps,
  add_element_to_position_before-Keeps, add_element_to_position_after-Keeps,
  add_element_hash_map-Keeps, add_element_ordered_map-Keeps, add_element_to_head_count-Keeps,
  add_element_to_tail_count-Keeps, add_element_to_position_before_count-Keeps,
  add_element_to_position_after_count-Keeps, add_element_unordered-Keeps,
  stream_element_in_range_unordered-Keeps, stream_element_in_range_ordered_set-Keeps,
  stream_element_in_range_ordered-Keeps, stream_element_in_range_ordered_map-Keeps,
  get_element_with_weight-Keeps, get_and_remove_element_with_weight-Keeps,
}
use hurricache_go_client.Interface.{
  Operation, get_value, get_and_delete_value, exist_key, remove, get_size, get_front, get_head,
  get_tail, get_and_remove_front, get_and_remove_tail, remove_head, remove_tail, atomic_load,
  atomic_load_and_delete, atomic_create, atomic_store, atomic_exchange, atomic_add, atomic_sub,
  atomic_or, atomic_and, atomic_xor, atomic_compare_and_set, set_ttl, get_ttl, lock_object,
  unlock_object, create_key_value, update_key_value, get_element_at_position,
  get_and_remove_element_at_position, remove_element_at_position, get_container_value,
  get_and_remove_container_value, contains_container_key, remove_container_key,
  update_container_value, create_container, remove_from_container, get_container,
  get_element_in_range, create_queue, stream_queue, create_list, stream_list, create_vector,
  stream_vector, create_set, stream_set, create_ordered_set, stream_ordered_set, create_map,
  stream_map, create_ordered_map, stream_ordered_map, add_element, add_element_ordered,
  add_element_ordered_set, add_element_to_tail, add_element_to_head, add_element_to_position,
  add_element_with_weight, add_element_to_position_before, add_element_to_position_after,
  add_element_hash_map, add_element_ordered_map, add_element_to_head_count,
  add_element_to_tail_count, add_element_to_position_before_count,
  add_element_to_position_after_count, add_element_unordered, stream_element_in_range_unordered,
  stream_element_in_range_ordered_set, stream_element_in_range_ordered,
  stream_element_in_range_ordered_map, get_element_with_weight, get_and_remove_element_with_weight,
}

pub run_operation-Keeps :
    (env : Environment) (backend : Backend) (c : Config) (ctx : Ctx) (key : Bytes) (o : Options)
    (op : Operation)
    → Respects (AllWithin env c.max_request_bytes) backend
    → Keeps (AllWithin env c.max_request_bytes) (run_operation env backend c ctx key o op)
unfolding run_operation
run_operation-Keeps env backend c ctx key o get_value r = get_value-Keeps env backend c ctx key o r
run_operation-Keeps env backend c ctx key o get_and_delete_value r =
    get_and_delete_value-Keeps env backend c ctx key o r
run_operation-Keeps env backend c ctx key o exist_key r = exist_key-Keeps env backend c ctx key o r
run_operation-Keeps env backend c ctx key o remove r = remove-Keeps env backend c ctx key o r
run_operation-Keeps env backend c ctx key o get_size r = get_size-Keeps env backend c ctx key o r
run_operation-Keeps env backend c ctx key o get_front r = get_front-Keeps env backend c ctx key o r
run_operation-Keeps env backend c ctx key o get_head r = get_head-Keeps env backend c ctx key o r
run_operation-Keeps env backend c ctx key o get_tail r = get_tail-Keeps env backend c ctx key o r
run_operation-Keeps env backend c ctx key o get_and_remove_front r =
    get_and_remove_front-Keeps env backend c ctx key o r
run_operation-Keeps env backend c ctx key o get_and_remove_tail r =
    get_and_remove_tail-Keeps env backend c ctx key o r
run_operation-Keeps env backend c ctx key o remove_head r =
    remove_head-Keeps env backend c ctx key o r
run_operation-Keeps env backend c ctx key o remove_tail r =
    remove_tail-Keeps env backend c ctx key o r
run_operation-Keeps env backend c ctx key o atomic_load r =
    atomic_load-Keeps env backend c ctx key o r
run_operation-Keeps env backend c ctx key o atomic_load_and_delete r =
    atomic_load_and_delete-Keeps env backend c ctx key o r
run_operation-Keeps env backend c ctx key o (atomic_create a) r =
    atomic_create-Keeps env backend c ctx key o r a
run_operation-Keeps env backend c ctx key o (atomic_store a) r =
    atomic_store-Keeps env backend c ctx key o r a
run_operation-Keeps env backend c ctx key o (atomic_exchange a) r =
    atomic_exchange-Keeps env backend c ctx key o r a
run_operation-Keeps env backend c ctx key o (atomic_add a) r =
    atomic_add-Keeps env backend c ctx key o r a
run_operation-Keeps env backend c ctx key o (atomic_sub a) r =
    atomic_sub-Keeps env backend c ctx key o r a
run_operation-Keeps env backend c ctx key o (atomic_or a) r =
    atomic_or-Keeps env backend c ctx key o r a
run_operation-Keeps env backend c ctx key o (atomic_and a) r =
    atomic_and-Keeps env backend c ctx key o r a
run_operation-Keeps env backend c ctx key o (atomic_xor a) r =
    atomic_xor-Keeps env backend c ctx key o r a
run_operation-Keeps env backend c ctx key o (atomic_compare_and_set a b) r =
    atomic_compare_and_set-Keeps env backend c ctx key o r a b
run_operation-Keeps env backend c ctx key o (set_ttl a) r =
    set_ttl-Keeps env backend c ctx key o r a
run_operation-Keeps env backend c ctx key o get_ttl r = get_ttl-Keeps env backend c ctx key o r
run_operation-Keeps env backend c ctx key o (lock_object a b) r =
    lock_object-Keeps env backend c ctx key o r a b
run_operation-Keeps env backend c ctx key o unlock_object r =
    unlock_object-Keeps env backend c ctx key o r
run_operation-Keeps env backend c ctx key o (create_key_value a) r =
    create_key_value-Keeps env backend c ctx key o r a
run_operation-Keeps env backend c ctx key o (update_key_value a) r =
    update_key_value-Keeps env backend c ctx key o r a
run_operation-Keeps env backend c ctx key o (get_element_at_position a) r =
    get_element_at_position-Keeps env backend c ctx key o r a
run_operation-Keeps env backend c ctx key o (get_and_remove_element_at_position a) r =
    get_and_remove_element_at_position-Keeps env backend c ctx key o r a
run_operation-Keeps env backend c ctx key o (remove_element_at_position a) r =
    remove_element_at_position-Keeps env backend c ctx key o r a
run_operation-Keeps env backend c ctx key o (get_container_value a) r =
    get_container_value-Keeps env backend c ctx key o r a
run_operation-Keeps env backend c ctx key o (get_and_remove_container_value a) r =
    get_and_remove_container_value-Keeps env backend c ctx key o r a
run_operation-Keeps env backend c ctx key o (contains_container_key a) r =
    contains_container_key-Keeps env backend c ctx key o r a
run_operation-Keeps env backend c ctx key o (remove_container_key a) r =
    remove_container_key-Keeps env backend c ctx key o r a
run_operation-Keeps env backend c ctx key o (update_container_value a b) r =
    update_container_value-Keeps env backend c ctx key o r a b
run_operation-Keeps env backend c ctx key o (create_container a b) r =
    create_container-Keeps env backend c ctx key o r a b
run_operation-Keeps env backend c ctx key o (remove_from_container a) r =
    remove_from_container-Keeps env backend c ctx key o r a
run_operation-Keeps env backend c ctx key o get_container r =
    get_container-Keeps env backend c ctx key o r
run_operation-Keeps env backend c ctx key o (get_element_in_range a) r =
    get_element_in_range-Keeps env backend c ctx key o r a
run_operation-Keeps env backend c ctx key o (create_queue a) r =
    create_queue-Keeps env backend c ctx key o r a
run_operation-Keeps env backend c ctx key o stream_queue r =
    stream_queue-Keeps env backend c ctx key o r
run_operation-Keeps env backend c ctx key o (create_list a) r =
    create_list-Keeps env backend c ctx key o r a
run_operation-Keeps env backend c ctx key o stream_list r =
    stream_list-Keeps env backend c ctx key o r
run_operation-Keeps env backend c ctx key o (create_vector a) r =
    create_vector-Keeps env backend c ctx key o r a
run_operation-Keeps env backend c ctx key o stream_vector r =
    stream_vector-Keeps env backend c ctx key o r
run_operation-Keeps env backend c ctx key o (create_set a) r =
    create_set-Keeps env backend c ctx key o r a
run_operation-Keeps env backend c ctx key o stream_set r =
    stream_set-Keeps env backend c ctx key o r
run_operation-Keeps env backend c ctx key o (create_ordered_set a) r =
    create_ordered_set-Keeps env backend c ctx key o r a
run_operation-Keeps env backend c ctx key o stream_ordered_set r =
    stream_ordered_set-Keeps env backend c ctx key o r
run_operation-Keeps env backend c ctx key o (create_map a) r =
    create_map-Keeps env backend c ctx key o r a
run_operation-Keeps env backend c ctx key o stream_map r =
    stream_map-Keeps env backend c ctx key o r
run_operation-Keeps env backend c ctx key o (create_ordered_map a) r =
    create_ordered_map-Keeps env backend c ctx key o r a
run_operation-Keeps env backend c ctx key o stream_ordered_map r =
    stream_ordered_map-Keeps env backend c ctx key o r
run_operation-Keeps env backend c ctx key o (add_element a) r =
    add_element-Keeps env backend c ctx key o r a
run_operation-Keeps env backend c ctx key o (add_element_ordered a) r =
    add_element_ordered-Keeps env backend c ctx key o r a
run_operation-Keeps env backend c ctx key o (add_element_ordered_set a) r =
    add_element_ordered_set-Keeps env backend c ctx key o r a
run_operation-Keeps env backend c ctx key o (add_element_to_tail a) r =
    add_element_to_tail-Keeps env backend c ctx key o r a
run_operation-Keeps env backend c ctx key o (add_element_to_head a) r =
    add_element_to_head-Keeps env backend c ctx key o r a
run_operation-Keeps env backend c ctx key o (add_element_to_position a b) r =
    add_element_to_position-Keeps env backend c ctx key o r a b
run_operation-Keeps env backend c ctx key o (add_element_with_weight a) r =
    add_element_with_weight-Keeps env backend c ctx key o r a
run_operation-Keeps env backend c ctx key o (add_element_to_position_before a b) r =
    add_element_to_position_before-Keeps env backend c ctx key o r a b
run_operation-Keeps env backend c ctx key o (add_element_to_position_after a b) r =
    add_element_to_position_after-Keeps env backend c ctx key o r a b
run_operation-Keeps env backend c ctx key o (add_element_hash_map a) r =
    add_element_hash_map-Keeps env backend c ctx key o r a
run_operation-Keeps env backend c ctx key o (add_element_ordered_map a) r =
    add_element_ordered_map-Keeps env backend c ctx key o r a
run_operation-Keeps env backend c ctx key o (add_element_to_head_count a) r =
    add_element_to_head_count-Keeps env backend c ctx key o r a
run_operation-Keeps env backend c ctx key o (add_element_to_tail_count a) r =
    add_element_to_tail_count-Keeps env backend c ctx key o r a
run_operation-Keeps env backend c ctx key o (add_element_to_position_before_count a b) r =
    add_element_to_position_before_count-Keeps env backend c ctx key o r a b
run_operation-Keeps env backend c ctx key o (add_element_to_position_after_count a b) r =
    add_element_to_position_after_count-Keeps env backend c ctx key o r a b
run_operation-Keeps env backend c ctx key o (add_element_unordered a) r =
    add_element_unordered-Keeps env backend c ctx key o r a
run_operation-Keeps env backend c ctx key o (stream_element_in_range_unordered a b d) r =
    stream_element_in_range_unordered-Keeps env backend c ctx key o r a b d
run_operation-Keeps env backend c ctx key o (stream_element_in_range_ordered_set a b d) r =
    stream_element_in_range_ordered_set-Keeps env backend c ctx key o r a b d
run_operation-Keeps env backend c ctx key o (stream_element_in_range_ordered a b) r =
    stream_element_in_range_ordered-Keeps env backend c ctx key o r a b
run_operation-Keeps env backend c ctx key o (stream_element_in_range_ordered_map a b d) r =
    stream_element_in_range_ordered_map-Keeps env backend c ctx key o r a b d
run_operation-Keeps env backend c ctx key o (get_element_with_weight a) r =
    get_element_with_weight-Keeps env backend c ctx key o r a
run_operation-Keeps env backend c ctx key o (get_and_remove_element_with_weight a) r =
    get_and_remove_element_with_weight-Keeps env backend c ctx key o r a
