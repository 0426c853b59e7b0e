-- ===== src/Convenience.antt =====
-- convenience.go: the named variants of the container operations. Each fixes the container type,
-- the kind of insertion and the representation; a stream of another representation is DataLoss.
use hurricache_go_client.Prelude.{
  ℕ, Bool, true, false, Option, none, some, List, [], length, ◌==◌, if◌then◌else◌,
}
use hurricache_go_client.Errors.{Ret, status, invalid_argument, data_loss}
use hurricache_go_client.Types.{
  Bytes, KeyHint, Options, Payload, no_payload, OrderedPayload, Entry, OrderedEntry, ContainerData,
  no_data, Position, ValueResult, ContainerType, vector, list, queue, set, map, ordered_map,
  ordered_set,
}
use hurricache_go_client.Config.{Config}
use hurricache_go_client.Codec.Results.{decode_result}
use hurricache_go_client.Rpc
use hurricache_go_client.World.{Ctx, Environment, Step, or_return, give}
use hurricache_go_client.Session.{Backend, unary, perform}
use hurricache_go_client.Operations.{zero_result}
use hurricache_go_client.Operations.Values.{position_pb}
use hurricache_go_client.Collections.Add.{
  add_generic, add_head, add_tail, add_position, add_before, add_after, add_bool, add_ordered_bool,
  AddOutcome, add,
}
use hurricache_go_client.Collections.Create.{create_container}
use hurricache_go_client.Collections.Streams.{count_data, get_container, get_element_in_range}

-- A representation: how its elements stand in the container data.
abbrev pub of_values : List Payload → ContainerData
of_values d = record no_data { values = d }

abbrev pub of_ordered_values : List OrderedPayload → ContainerData
of_ordered_values d = record no_data { ordered_values = d }

abbrev pub of_entries : List Entry → ContainerData
of_entries d = record no_data { entries = d }

abbrev pub of_ordered_entries : List OrderedEntry → ContainerData
of_ordered_entries d = record no_data { ordered_entries = d }

-- Only the first error counts; without one, data beyond the wanted part is DataLoss.
abbrev pub only {ℓ} : {A : Type ℓ} → (ContainerData → List A) → Ret ContainerData → Ret (List A)
only part (d, some e) = (part d, some e)
only part (d, none) =
    (part d, if count_data d == length (part d) then none else some (status data_loss))

unfoldable pub after : {A B : Type 0} → (A → B) → Step A → Step B
after f m w = let (r, w') = m w in (f r, w')

abbrev pub count_of : Ret AddOutcome → Ret ℕ
count_of (r, e) = (r.count, e)

abbrev pub ok_of : Ret AddOutcome → Ret Bool
ok_of (r, e) = (r.ok, e)

abbrev pub is_unordered_range : ContainerType → Bool
is_unordered_range list = true
is_unordered_range vector = true
is_unordered_range set = true
is_unordered_range _ = false

abbrev pub range : ContainerType → ℕ → ℕ → Bool → Position
range t start end reverse = record {
  start = start;
  end = some end;
  type = some t;
  reverse = reverse;
}

abbrev pub weight_position : ℕ → Position
weight_position w = record { start = w; end = none; type = none; reverse = false }

module _ (env : Environment) (backend : Backend) (c : Config) (ctx : Ctx) (key : Bytes) where
  unfoldable pub create_queue : List Payload → Options → Step (Ret (Option KeyHint))
  create_queue d o = create_container env backend c ctx key queue (of_values d) o

  unfoldable pub stream_queue : Options → Step (Ret (List Payload))
  stream_queue o = after (only λ d. d.values) (get_container env backend c ctx key o)

  unfoldable pub create_list : List Payload → Options → Step (Ret (Option KeyHint))
  create_list d o = create_container env backend c ctx key list (of_values d) o

  unfoldable pub stream_list : Options → Step (Ret (List Payload))
  stream_list o = after (only λ d. d.values) (get_container env backend c ctx key o)

  unfoldable pub create_vector : List Payload → Options → Step (Ret (Option KeyHint))
  create_vector d o = create_container env backend c ctx key vector (of_values d) o

  unfoldable pub stream_vector : Options → Step (Ret (List Payload))
  stream_vector o = after (only λ d. d.values) (get_container env backend c ctx key o)

  unfoldable pub create_set : List Payload → Options → Step (Ret (Option KeyHint))
  create_set d o = create_container env backend c ctx key set (of_values d) o

  unfoldable pub stream_set : Options → Step (Ret (List Payload))
  stream_set o = after (only λ d. d.values) (get_container env backend c ctx key o)

  unfoldable pub create_ordered_set : List OrderedPayload → Options → Step (Ret (Option KeyHint))
  create_ordered_set d o =
      create_container env backend c ctx key ordered_set (of_ordered_values d) o

  unfoldable pub stream_ordered_set : Options → Step (Ret (List OrderedPayload))
  stream_ordered_set o = after (only λ d. d.ordered_values) (get_container env backend c ctx key o)

  unfoldable pub create_map : List Entry → Options → Step (Ret (Option KeyHint))
  create_map d o = create_container env backend c ctx key map (of_entries d) o

  unfoldable pub stream_map : Options → Step (Ret (List Entry))
  stream_map o = after (only λ d. d.entries) (get_container env backend c ctx key o)

  unfoldable pub create_ordered_map : List OrderedEntry → Options → Step (Ret (Option KeyHint))
  create_ordered_map d o =
      create_container env backend c ctx key ordered_map (of_ordered_entries d) o

  unfoldable pub stream_ordered_map : Options → Step (Ret (List OrderedEntry))
  stream_ordered_map o = after (only λ d. d.ordered_entries) (get_container env backend c ctx key o)

  unfoldable pub add_element : List Payload → Options → Step (Ret Bool)
  add_element d o =
      after ok_of (add env backend c ctx key set (of_values d) add_bool 0 no_payload o false)

  unfoldable pub add_element_ordered : List OrderedPayload → Options → Step (Ret Bool)
  add_element_ordered d o = after ok_of (
      add env backend c ctx key ordered_set (of_ordered_values d) add_ordered_bool 0 no_payload o
        false)

  unfoldable pub add_element_ordered_set : List OrderedPayload → Options → Step (Ret Bool)
  add_element_ordered_set d o = after ok_of (
      add env backend c ctx key ordered_set (of_ordered_values d) add_ordered_bool 0 no_payload o
        false)

  unfoldable pub add_element_to_tail : List Payload → Options → Step (Ret Bool)
  add_element_to_tail d o =
      after ok_of (add env backend c ctx key list (of_values d) add_tail 0 no_payload o false)

  unfoldable pub add_element_to_head : List Payload → Options → Step (Ret Bool)
  add_element_to_head d o =
      after ok_of (add env backend c ctx key list (of_values d) add_head 0 no_payload o false)

  unfoldable pub add_element_to_position : List Payload → ℕ → Options → Step (Ret ℕ)
  add_element_to_position d pos o =
      after count_of
        (add env backend c ctx key list (of_values d) add_position pos no_payload o false)

  unfoldable pub add_element_with_weight : List OrderedPayload → Options → Step (Ret ℕ)
  add_element_with_weight d o =
      after count_of (
        add env backend c ctx key ordered_set (of_ordered_values d) add_generic 0 no_payload o
          false)

  unfoldable pub add_element_to_position_before : List Payload → Payload → Options → Step (Ret Bool)
  add_element_to_position_before d pivot o =
      after ok_of (add env backend c ctx key list (of_values d) add_before 0 pivot o false)

  unfoldable pub add_element_to_position_after : List Payload → Payload → Options → Step (Ret Bool)
  add_element_to_position_after d pivot o =
      after ok_of (add env backend c ctx key list (of_values d) add_after 0 pivot o false)

  unfoldable pub add_element_hash_map : List Entry → Options → Step (Ret ℕ)
  add_element_hash_map d o =
      after count_of (add env backend c ctx key map (of_entries d) add_generic 0 no_payload o false)

  unfoldable pub add_element_ordered_map : List OrderedEntry → Options → Step (Ret ℕ)
  add_element_ordered_map d o = after count_of (
      add env backend c ctx key ordered_map (of_ordered_entries d) add_generic 0 no_payload o false)

  unfoldable pub add_element_to_head_count : List Payload → Options → Step (Ret ℕ)
  add_element_to_head_count d o =
      after count_of (add env backend c ctx key list (of_values d) add_head 0 no_payload o true)

  unfoldable pub add_element_to_tail_count : List Payload → Options → Step (Ret ℕ)
  add_element_to_tail_count d o =
      after count_of (add env backend c ctx key list (of_values d) add_tail 0 no_payload o true)

  unfoldable pub add_element_to_position_before_count :
      List Payload → Payload → Options → Step (Ret ℕ)
  add_element_to_position_before_count d pivot o =
      after count_of (add env backend c ctx key list (of_values d) add_before 0 pivot o true)

  unfoldable pub add_element_to_position_after_count :
      List Payload → Payload → Options → Step (Ret ℕ)
  add_element_to_position_after_count d pivot o =
      after count_of (add env backend c ctx key list (of_values d) add_after 0 pivot o true)

  unfoldable pub add_element_unordered : List Payload → Options → Step (Ret ℕ)
  add_element_unordered d o =
      after count_of (add env backend c ctx key list (of_values d) add_bool 0 no_payload o true)

  unfoldable pub stream_element_in_range_unordered :
      ContainerType → ℕ → ℕ → Options → Step (Ret (List Payload))
  stream_element_in_range_unordered t start end o =
      if is_unordered_range t
      then after (only λ d. d.values)
          (get_element_in_range env backend c ctx key (range t start end false) o)
      else give ([], some (status invalid_argument))

  unfoldable pub stream_element_in_range_ordered_set :
      ℕ → ℕ → Bool → Options → Step (Ret (List OrderedPayload))
  stream_element_in_range_ordered_set start end reverse o =
      after (only λ d. d.ordered_values)
        (get_element_in_range env backend c ctx key (range ordered_set start end reverse) o)

  unfoldable pub stream_element_in_range_ordered :
      ℕ → ℕ → Options → Step (Ret (List OrderedPayload))
  unfolding stream_element_in_range_ordered_set
  stream_element_in_range_ordered start end o =
      stream_element_in_range_ordered_set start end false o

  unfoldable pub stream_element_in_range_ordered_map :
      ℕ → ℕ → Bool → Options → Step (Ret (List OrderedEntry))
  stream_element_in_range_ordered_map start end reverse o =
      after (only λ d. d.ordered_entries)
        (get_element_in_range env backend c ctx key (range ordered_map start end reverse) o)

  -- The weight is sent as a position; the range check of the other positional reads is not made.
  unfoldable pub get_element_with_weight : ℕ → Options → Step (Ret ValueResult)
  get_element_with_weight weight o =
      perform env backend ValueResult zero_result c ctx key o false λ s.
        or_return zero_result
          (unary env s Rpc.get_element_at_position (position_pb s.key (weight_position weight)))
          λ r. give (decode_result env.compressors r s.config)

  -- It removes, yet is dispatched as a read.
  unfoldable pub get_and_remove_element_with_weight : ℕ → Options → Step (Ret ValueResult)
  get_and_remove_element_with_weight weight o =
      perform env backend ValueResult zero_result c ctx key o false λ s.
        or_return zero_result
          (unary env s Rpc.get_and_remove_element_at_position
            (position_pb s.key (weight_position weight)))
          λ r. give (decode_result env.compressors r s.config)
