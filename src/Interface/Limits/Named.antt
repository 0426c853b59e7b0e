-- ===== src/Interface/Limits/Named.antt =====
-- convenience.go: the named variants make no call above the configured size.
use hurricache_go_client.Prelude.{ℕ, refl, Bool, false, List}
use hurricache_go_client.Types.{
  Bytes, Options, Payload, OrderedPayload, Entry, OrderedEntry, ContainerType,
}
use hurricache_go_client.Config.{Config}
use hurricache_go_client.Rpc
use hurricache_go_client.Rpc.{Call}
use hurricache_go_client.World.{Ctx, Environment, Step}
use hurricache_go_client.World.Keeps.{Keeps, Keeps-same, Keeps-if}
use hurricache_go_client.Session.{Backend}
use hurricache_go_client.Session.Limits.{AllWithin, Respects, call-Keeps}
use hurricache_go_client.Interface.Limits.Containers.{
  create_container-Keeps, get_container-Keeps, get_element_in_range-Keeps, add-Keeps,
}
use hurricache_go_client.Convenience
use hurricache_go_client.Convenience.{after, is_unordered_range}

after-Keeps :
    {P : List Call → Type 0} {A B : Type 0} (f : A → B) {m : Step A}
    → Keeps P m
    → Keeps P (after f m)
unfolding after
after-Keeps f k = record { at = λ w p. k.at w p }

module _ (env : Environment) (backend : Backend) (c : Config) (ctx : Ctx) (key : Bytes)
    (o : Options) (r : Respects (AllWithin env c.max_request_bytes) backend) where
  abbrev Within : {A : Type 0} → Step A → Type 0
  Within m = Keeps (AllWithin env c.max_request_bytes) m

  pub create_queue-Keeps :
      (a : List Payload) → Within (Convenience.create_queue env backend c ctx key a o)
  unfolding Convenience.create_queue
  create_queue-Keeps a = create_container-Keeps env backend c ctx key o r _ _

  pub stream_queue-Keeps : Within (Convenience.stream_queue env backend c ctx key o)
  unfolding Convenience.stream_queue
  stream_queue-Keeps = after-Keeps _ (get_container-Keeps env backend c ctx key o r)

  pub create_list-Keeps :
      (a : List Payload) → Within (Convenience.create_list env backend c ctx key a o)
  unfolding Convenience.create_list
  create_list-Keeps a = create_container-Keeps env backend c ctx key o r _ _

  pub stream_list-Keeps : Within (Convenience.stream_list env backend c ctx key o)
  unfolding Convenience.stream_list
  stream_list-Keeps = after-Keeps _ (get_container-Keeps env backend c ctx key o r)

  pub create_vector-Keeps :
      (a : List Payload) → Within (Convenience.create_vector env backend c ctx key a o)
  unfolding Convenience.create_vector
  create_vector-Keeps a = create_container-Keeps env backend c ctx key o r _ _

  pub stream_vector-Keeps : Within (Convenience.stream_vector env backend c ctx key o)
  unfolding Convenience.stream_vector
  stream_vector-Keeps = after-Keeps _ (get_container-Keeps env backend c ctx key o r)

  pub create_set-Keeps :
      (a : List Payload) → Within (Convenience.create_set env backend c ctx key a o)
  unfolding Convenience.create_set
  create_set-Keeps a = create_container-Keeps env backend c ctx key o r _ _

  pub stream_set-Keeps : Within (Convenience.stream_set env backend c ctx key o)
  unfolding Convenience.stream_set
  stream_set-Keeps = after-Keeps _ (get_container-Keeps env backend c ctx key o r)

  pub create_ordered_set-Keeps :
      (a : List OrderedPayload) → Within (Convenience.create_ordered_set env backend c ctx key a o)
  unfolding Convenience.create_ordered_set
  create_ordered_set-Keeps a = create_container-Keeps env backend c ctx key o r _ _

  pub stream_ordered_set-Keeps : Within (Convenience.stream_ordered_set env backend c ctx key o)
  unfolding Convenience.stream_ordered_set
  stream_ordered_set-Keeps = after-Keeps _ (get_container-Keeps env backend c ctx key o r)

  pub create_map-Keeps :
      (a : List Entry) → Within (Convenience.create_map env backend c ctx key a o)
  unfolding Convenience.create_map
  create_map-Keeps a = create_container-Keeps env backend c ctx key o r _ _

  pub stream_map-Keeps : Within (Convenience.stream_map env backend c ctx key o)
  unfolding Convenience.stream_map
  stream_map-Keeps = after-Keeps _ (get_container-Keeps env backend c ctx key o r)

  pub create_ordered_map-Keeps :
      (a : List OrderedEntry) → Within (Convenience.create_ordered_map env backend c ctx key a o)
  unfolding Convenience.create_ordered_map
  create_ordered_map-Keeps a = create_container-Keeps env backend c ctx key o r _ _

  pub stream_ordered_map-Keeps : Within (Convenience.stream_ordered_map env backend c ctx key o)
  unfolding Convenience.stream_ordered_map
  stream_ordered_map-Keeps = after-Keeps _ (get_container-Keeps env backend c ctx key o r)

  pub add_element-Keeps :
      (a : List Payload) → Within (Convenience.add_element env backend c ctx key a o)
  unfolding Convenience.add_element
  add_element-Keeps a = after-Keeps _ (add-Keeps env backend c ctx key o r _ _ _ _ _ _)

  pub add_element_ordered-Keeps :
      (a : List OrderedPayload) → Within (Convenience.add_element_ordered env backend c ctx key a o)
  unfolding Convenience.add_element_ordered
  add_element_ordered-Keeps a = after-Keeps _ (add-Keeps env backend c ctx key o r _ _ _ _ _ _)

  pub add_element_ordered_set-Keeps :
      (a : List OrderedPayload)
      → Within (Convenience.add_element_ordered_set env backend c ctx key a o)
  unfolding Convenience.add_element_ordered_set
  add_element_ordered_set-Keeps a = after-Keeps _ (add-Keeps env backend c ctx key o r _ _ _ _ _ _)

  pub add_element_to_tail-Keeps :
      (a : List Payload) → Within (Convenience.add_element_to_tail env backend c ctx key a o)
  unfolding Convenience.add_element_to_tail
  add_element_to_tail-Keeps a = after-Keeps _ (add-Keeps env backend c ctx key o r _ _ _ _ _ _)

  pub add_element_to_head-Keeps :
      (a : List Payload) → Within (Convenience.add_element_to_head env backend c ctx key a o)
  unfolding Convenience.add_element_to_head
  add_element_to_head-Keeps a = after-Keeps _ (add-Keeps env backend c ctx key o r _ _ _ _ _ _)

  pub add_element_to_position-Keeps :
      (a : List Payload) (b : ℕ)
      → Within (Convenience.add_element_to_position env backend c ctx key a b o)
  unfolding Convenience.add_element_to_position
  add_element_to_position-Keeps a b =
      after-Keeps _ (add-Keeps env backend c ctx key o r _ _ _ _ _ _)

  pub add_element_with_weight-Keeps :
      (a : List OrderedPayload)
      → Within (Convenience.add_element_with_weight env backend c ctx key a o)
  unfolding Convenience.add_element_with_weight
  add_element_with_weight-Keeps a = after-Keeps _ (add-Keeps env backend c ctx key o r _ _ _ _ _ _)

  pub add_element_to_position_before-Keeps :
      (a : List Payload) (b : Payload)
      → Within (Convenience.add_element_to_position_before env backend c ctx key a b o)
  unfolding Convenience.add_element_to_position_before
  add_element_to_position_before-Keeps a b =
      after-Keeps _ (add-Keeps env backend c ctx key o r _ _ _ _ _ _)

  pub add_element_to_position_after-Keeps :
      (a : List Payload) (b : Payload)
      → Within (Convenience.add_element_to_position_after env backend c ctx key a b o)
  unfolding Convenience.add_element_to_position_after
  add_element_to_position_after-Keeps a b =
      after-Keeps _ (add-Keeps env backend c ctx key o r _ _ _ _ _ _)

  pub add_element_hash_map-Keeps :
      (a : List Entry) → Within (Convenience.add_element_hash_map env backend c ctx key a o)
  unfolding Convenience.add_element_hash_map
  add_element_hash_map-Keeps a = after-Keeps _ (add-Keeps env backend c ctx key o r _ _ _ _ _ _)

  pub add_element_ordered_map-Keeps :
      (a : List OrderedEntry)
      → Within (Convenience.add_element_ordered_map env backend c ctx key a o)
  unfolding Convenience.add_element_ordered_map
  add_element_ordered_map-Keeps a = after-Keeps _ (add-Keeps env backend c ctx key o r _ _ _ _ _ _)

  pub add_element_to_head_count-Keeps :
      (a : List Payload) → Within (Convenience.add_element_to_head_count env backend c ctx key a o)
  unfolding Convenience.add_element_to_head_count
  add_element_to_head_count-Keeps a =
      after-Keeps _ (add-Keeps env backend c ctx key o r _ _ _ _ _ _)

  pub add_element_to_tail_count-Keeps :
      (a : List Payload) → Within (Convenience.add_element_to_tail_count env backend c ctx key a o)
  unfolding Convenience.add_element_to_tail_count
  add_element_to_tail_count-Keeps a =
      after-Keeps _ (add-Keeps env backend c ctx key o r _ _ _ _ _ _)

  pub add_element_to_position_before_count-Keeps :
      (a : List Payload) (b : Payload)
      → Within (Convenience.add_element_to_position_before_count env backend c ctx key a b o)
  unfolding Convenience.add_element_to_position_before_count
  add_element_to_position_before_count-Keeps a b =
      after-Keeps _ (add-Keeps env backend c ctx key o r _ _ _ _ _ _)

  pub add_element_to_position_after_count-Keeps :
      (a : List Payload) (b : Payload)
      → Within (Convenience.add_element_to_position_after_count env backend c ctx key a b o)
  unfolding Convenience.add_element_to_position_after_count
  add_element_to_position_after_count-Keeps a b =
      after-Keeps _ (add-Keeps env backend c ctx key o r _ _ _ _ _ _)

  pub add_element_unordered-Keeps :
      (a : List Payload) → Within (Convenience.add_element_unordered env backend c ctx key a o)
  unfolding Convenience.add_element_unordered
  add_element_unordered-Keeps a = after-Keeps _ (add-Keeps env backend c ctx key o r _ _ _ _ _ _)

  pub stream_element_in_range_unordered-Keeps :
      (a : ContainerType) (b : ℕ) (d : ℕ)
      → Within (Convenience.stream_element_in_range_unordered env backend c ctx key a b d o)
  unfolding Convenience.stream_element_in_range_unordered
  stream_element_in_range_unordered-Keeps a b d =
      Keeps-if (is_unordered_range a)
        (after-Keeps _ (get_element_in_range-Keeps env backend c ctx key o r _))
        (Keeps-same (λ w. refl))

  pub stream_element_in_range_ordered_set-Keeps :
      (a : ℕ) (b : ℕ) (d : Bool)
      → Within (Convenience.stream_element_in_range_ordered_set env backend c ctx key a b d o)
  unfolding Convenience.stream_element_in_range_ordered_set
  stream_element_in_range_ordered_set-Keeps a b d =
      after-Keeps _ (get_element_in_range-Keeps env backend c ctx key o r _)

  pub stream_element_in_range_ordered-Keeps :
      (a : ℕ) (b : ℕ)
      → Within (Convenience.stream_element_in_range_ordered env backend c ctx key a b o)
  unfolding Convenience.stream_element_in_range_ordered
  stream_element_in_range_ordered-Keeps a b = stream_element_in_range_ordered_set-Keeps a b false

  pub stream_element_in_range_ordered_map-Keeps :
      (a : ℕ) (b : ℕ) (d : Bool)
      → Within (Convenience.stream_element_in_range_ordered_map env backend c ctx key a b d o)
  unfolding Convenience.stream_element_in_range_ordered_map
  stream_element_in_range_ordered_map-Keeps a b d =
      after-Keeps _ (get_element_in_range-Keeps env backend c ctx key o r _)

  pub get_element_with_weight-Keeps :
      (a : ℕ) → Within (Convenience.get_element_with_weight env backend c ctx key a o)
  unfolding Convenience.get_element_with_weight
  get_element_with_weight-Keeps a =
      call-Keeps env backend c ctx key o r _ _ _ _ Rpc.get_element_at_position _ _ λ s q w. refl

  pub get_and_remove_element_with_weight-Keeps :
      (a : ℕ) → Within (Convenience.get_and_remove_element_with_weight env backend c ctx key a o)
  unfolding Convenience.get_and_remove_element_with_weight
  get_and_remove_element_with_weight-Keeps a =
      call-Keeps env backend c ctx key o r _ _ _ _ Rpc.get_and_remove_element_at_position _ _
        λ s q w. refl
