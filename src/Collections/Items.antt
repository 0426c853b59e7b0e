-- ===== src/Collections/Items.antt =====
-- collections.go: `item`, `encodeItems`, `addRequest`, `createRequest`.
use hurricache_go_client.Prelude.{
  ℕ, Bool, true, false, ◌&&◌, Option, none, some, List, [], ◌∷◌, ◌++◌, if◌then◌else◌,
}
use hurricache_go_client.Errors.{Except, ok, err, status, invalid_argument}
use hurricache_go_client.Types.{
  Payload, OrderedPayload, Entry, OrderedEntry, ContainerData, ContainerType, undefined, map,
  ordered_map, ordered_set, other_type,
}
use hurricache_go_client.Wire.{
  Key, OrderedKey, Value, OrderedValue, CreateContainerRequest, AddToRequest,
}
use hurricache_go_client.Config.{Config}
use hurricache_go_client.Codec.{
  Compressors, Encoded, encode, encode_key_policy, encode_value_policy, encode_ordered, binary,
  hint_pb, copy_ptr, order_or_zero,
}
use hurricache_go_client.World.{Ctx, Exec, lift, ◌>>=◌, ◌>>◌}
use hurricache_go_client.Session.{Session, check_context}

pub record Item : Type 0 where
  pub key : Option Key
  pub ordered_key : Option OrderedKey
  pub value : Option Value
  pub ordered_value : Option OrderedValue

abbrev pub no_item : Item
no_item = record { key = none; ordered_key = none; value = none; ordered_value = none }

-- `t >= Vector && t <= OrderedSet`.
abbrev pub is_container : ContainerType → Bool
is_container undefined = false
is_container (other_type n) = false
is_container _ = true

abbrev pub is_empty {ℓ} : {A : Type ℓ} → List A → Bool
is_empty [] = true
is_empty (x ∷ xs) = false

-- Whether the data has only the representation that the type takes.
abbrev pub matches_type : ContainerType → ContainerData → Bool
matches_type map d = is_empty d.values && is_empty d.ordered_values && is_empty d.ordered_entries
matches_type ordered_map d = is_empty d.values && is_empty d.ordered_values && is_empty d.entries
matches_type ordered_set d = is_empty d.values && is_empty d.entries && is_empty d.ordered_entries
matches_type _ d = is_empty d.ordered_values && is_empty d.entries && is_empty d.ordered_entries

-- The containers whose elements take the expiration of a creation.
abbrev pub passes_ttl : ContainerType → Bool
passes_ttl map = true
passes_ttl ordered_map = true
passes_ttl ordered_set = true
passes_ttl _ = false

abbrev pub element_ttl : Bool → ContainerType → Option ℕ → Option ℕ
element_ttl creation t ttl = if creation && passes_ttl t then ttl else none

-- An entry's own client ID, or else the session's.
abbrev pub id_or : Option ℕ → Option ℕ → Option ℕ
id_or (some id) session_id = some id
id_or none session_id = session_id

-- One loop of `encodeItems`: the context is looked at before each element.
unfoldable pub encode_each {ℓ} : {A : Type ℓ} → Ctx → (A → Except Item) → List A → Exec (List Item)
encode_each ctx f [] = lift (ok [])
encode_each ctx f (p ∷ ps) = do
  check_context ctx
  it ← lift (f p)
  rest ← encode_each ctx f ps
  lift (ok (it ∷ rest))

module _ (z : Compressors) (c : Config) where
  abbrev pub value_item : Option ℕ → Payload → Except Item
  value_item ttl p = elim (encode_value_policy z p ttl c false) [
    | ok v ↦ ok (record no_item { value = some v })
    | err e ↦ err e
  ]

  abbrev pub ordered_item : Option ℕ → OrderedPayload → Except Item
  ordered_item ttl p = elim (encode_ordered z p ttl c) [
    | ok v ↦ ok (record no_item { ordered_value = some v })
    | err e ↦ err e
  ]

  abbrev pub entry_item : Option ℕ → Option ℕ → Entry → Except Item
  entry_item id ttl p =
      elim (encode_key_policy z p.key.bytes p.key.hint (id_or p.key.client_id id) c false) [
        | err e ↦ err e
        | ok k ↦ elim (encode_value_policy z p.value ttl c false) [
          | ok v ↦ ok (record no_item { key = some k; value = some v })
          | err e ↦ err e
        ]
      ]

  abbrev pub ordered_key_of : Option ℕ → OrderedPayload → Encoded → OrderedKey
  ordered_key_of id p e = record {
    payload = binary e.0;
    order = copy_ptr (order_or_zero p.order);
    compression_info = e.1;
    key_hint = hint_pb p.payload.hint;
    client_id = copy_ptr (id_or p.payload.client_id id);
  }

  abbrev pub ordered_entry_item : Option ℕ → Option ℕ → OrderedEntry → Except Item
  ordered_entry_item id ttl p = elim (encode z p.key.payload.bytes true c) [
    | err e ↦ err e
    | ok k ↦ elim (encode_value_policy z p.value ttl c true) [
      | ok v ↦
          ok (record no_item { ordered_key = some (ordered_key_of id p.key k); value = some v })
      | err e ↦ err e
    ]
  ]

abbrev check_type : ContainerType → Except (Unit {0})
check_type t = if is_container t then ok tt else err (status invalid_argument)

abbrev check_data : ContainerType → ContainerData → Except (Unit {0})
check_data t d = if matches_type t d then ok tt else err (status invalid_argument)

unfoldable pub encode_items :
    Compressors → Session → ContainerType → ContainerData → Bool → Exec (List Item)
encode_items z s t d creation = do
  lift (check_type t)
  lift (check_data t d)
  a ← encode_each s.ctx (value_item z s.config (element_ttl creation t s.ttl)) d.values
  b ← encode_each s.ctx (ordered_item z s.config (element_ttl creation t s.ttl)) d.ordered_values
  e ←
      encode_each s.ctx (entry_item z s.config s.key.client_id (element_ttl creation t s.ttl))
        d.entries
  g ←
      encode_each s.ctx
        (ordered_entry_item z s.config s.key.client_id (element_ttl creation t s.ttl))
        d.ordered_entries
  lift (ok (a ++ b ++ e ++ g))

abbrev pub push {ℓ} : {A : Type ℓ} → Option A → List A → List A
push none xs = xs
push (some x) xs = x ∷ xs

-- The items' parts, each kind in a field of its own.
module _ {A : Type 0} (part : Item → Option A) where
  unfoldable pub collect_parts : List Item → List A
  collect_parts [] = []
  collect_parts (it ∷ items) = push (part it) (collect_parts items)

unfoldable pub add_request : Key → Option ContainerType → Option ℕ → List Item → AddToRequest
unfolding collect_parts
add_request k t pos items = record {
  key = k;
  type = copy_ptr t;
  pos = copy_ptr pos;
  key_unordered = collect_parts (λ it. it.key) items;
  key_ordered = collect_parts (λ it. it.ordered_key) items;
  value_unordered = collect_parts (λ it. it.value) items;
  value_ordered = collect_parts (λ it. it.ordered_value) items;
}

unfoldable pub create_request : Key → ContainerType → Option ℕ → List Item → CreateContainerRequest
unfolding add_request
create_request k t ttl items =
    let a = add_request k none none items in
    record {
      key = k;
      type = t;
      ttl = copy_ptr ttl;
      key_unordered = a.key_unordered;
      key_ordered = a.key_ordered;
      value_unordered = a.value_unordered;
      value_ordered = a.value_ordered;
    }
