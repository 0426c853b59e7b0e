-- ===== src/Collections/Streams.antt =====
-- collections.go: `decodeBatch`, `collect`, `GetContainer`, `GetElementInRange`.
use hurricache_go_client.Prelude.{
  ℕ, suc, ◌+◌, Bool, false, not, ◌&&◌, ◌||◌, Option, none, some, List, [], ◌∷◌, ◌++◌, length, ltb,
  ◌==◌, if◌then◌else◌,
}
use hurricache_go_client.Errors.{
  Except, ok, err, Error, Ret, status, foreign, rpc, data_loss, partial,
}
use hurricache_go_client.Types.{
  Bytes, Options, Payload, OrderedPayload, Entry, OrderedEntry, ContainerData, no_data, Position,
}
use hurricache_go_client.Wire.{Key, OrderedKey, Value, OrderedValue, BatchValueResponse}
use hurricache_go_client.Config.{Config}
use hurricache_go_client.Codec.{Compressors, decode_value, decode_ordered, copy_ptr}
use hurricache_go_client.Codec.Results.{decode_key}
use hurricache_go_client.Rpc.{Stream}
use hurricache_go_client.Rpc
use hurricache_go_client.World.{Ctx, Environment, Step, Exec, lift, ◌>>◌, or_return, give}
use hurricache_go_client.Session.{Session, Backend, check_size, invoke, perform}
use hurricache_go_client.Operations.{get_request}
use hurricache_go_client.Operations.Values.{validate_position, position_pb}
use hurricache_go_client.Collections.Items.{is_empty}

-- Which representation the values of a batch have: by themselves, or under the keys at hand.
pub data Keys : Type 0 where
  unkeyed : Keys
  keyed : List (Option Key) → Keys
  ordered_keyed : List (Option OrderedKey) → Keys

-- `key_unordered` is looked at first.
abbrev pub keys_of : List (Option Key) → List (Option OrderedKey) → Keys
keys_of [] [] = unkeyed
keys_of [] (k ∷ ks) = ordered_keyed (k ∷ ks)
keys_of (k ∷ ks) os = keyed (k ∷ ks)

-- A non-nil value, or DataLoss.
abbrev present {ℓ} : {A : Type ℓ} → Except (Option A) → Except A
present (ok none) = err (status data_loss)
present (ok (some a)) = ok a
present (err e) = err e

-- The key that an ordered key stands for, when it is decoded.
abbrev pub plain_key : OrderedKey → Key
plain_key k = record {
  payload = k.payload;
  compression_info = k.compression_info;
  key_hint = k.key_hint;
  client_id = k.client_id;
}

module _ (z : Compressors) (c : Config) where
  abbrev decode_ordered_key : Option OrderedKey → Except OrderedPayload
  decode_ordered_key none = err (status data_loss)
  decode_ordered_key (some k) = elim (decode_key z (some (plain_key k)) c) [
    | ok p ↦ ok (record { payload = p; order = copy_ptr k.order })
    | err e ↦ err e
  ]

  unfoldable pub decode_values : List (Option Value) → Except (List Payload)
  decode_values [] = ok []
  decode_values (v ∷ vs) =
      let rest = decode_values vs in
      elim (present (decode_value z v c)) [
        | err e ↦ err e
        | ok p ↦ elim rest [ ok ps ↦ ok (p ∷ ps) | err e ↦ err e ]
      ]

  -- The values in step with their keys. There is a key for each value, since the counts were compared.
  unfoldable pub decode_entries : List (Option Key) → List (Option Value) → Except (List Entry)
  decode_entries ks [] = ok []
  decode_entries [] (v ∷ vs) = err (status data_loss)
  decode_entries (k ∷ ks) (v ∷ vs) =
      let rest = decode_entries ks vs in
      elim (present (decode_value z v c)) [
        | err e ↦ err e
        | ok p ↦ elim (decode_key z k c) [
          | err e ↦ err e
          | ok k' ↦ elim rest [ ok ps ↦ ok (record { key = k'; value = p } ∷ ps) | err e ↦ err e ]
        ]
      ]

  unfoldable pub decode_ordered_entries :
      List (Option OrderedKey) → List (Option Value) → Except (List OrderedEntry)
  decode_ordered_entries ks [] = ok []
  decode_ordered_entries [] (v ∷ vs) = err (status data_loss)
  decode_ordered_entries (k ∷ ks) (v ∷ vs) =
      let rest = decode_ordered_entries ks vs in
      elim (present (decode_value z v c)) [
        | err e ↦ err e
        | ok p ↦ elim (decode_ordered_key k) [
          | err e ↦ err e
          | ok k' ↦ elim rest [ ok ps ↦ ok (record { key = k'; value = p } ∷ ps) | err e ↦ err e ]
        ]
      ]

  unfoldable pub decode_ordered_values : List (Option OrderedValue) → Except (List OrderedPayload)
  decode_ordered_values [] = ok []
  decode_ordered_values (v ∷ vs) =
      let rest = decode_ordered_values vs in
      elim (present (decode_ordered z v c)) [
        | err e ↦ err e
        | ok p ↦ elim rest [ ok ps ↦ ok (p ∷ ps) | err e ↦ err e ]
      ]

  -- The loop over `ValueUnordered`.
  unfoldable pub decode_unordered : Keys → List (Option Value) → Except ContainerData
  unfolding decode_values decode_entries decode_ordered_entries
  decode_unordered unkeyed vs = elim (decode_values vs) [
    | ok ps ↦ ok (record no_data { values = ps })
    | err e ↦ err e
  ]
  decode_unordered (keyed ks) vs = elim (decode_entries ks vs) [
    | ok ps ↦ ok (record no_data { entries = ps })
    | err e ↦ err e
  ]
  decode_unordered (ordered_keyed ks) vs = elim (decode_ordered_entries ks vs) [
    | ok ps ↦ ok (record no_data { ordered_entries = ps })
    | err e ↦ err e
  ]

  abbrev pub mixed_keys : BatchValueResponse → Bool
  mixed_keys b = not (is_empty b.key_unordered) && not (is_empty b.key_ordered)

  abbrev pub key_count : BatchValueResponse → ℕ
  key_count b = length b.key_unordered + length b.key_ordered

  abbrev pub counts_differ : BatchValueResponse → Bool
  counts_differ b =
      ltb 0 (key_count b)
      && (not (key_count b == length b.value_unordered) || not (is_empty b.value_ordered))

  unfoldable pub decode_batch : BatchValueResponse → Except ContainerData
  unfolding decode_unordered decode_ordered_values
  decode_batch b =
      if mixed_keys b
      then err (status data_loss)
      else if counts_differ b
      then err (status data_loss)
      else elim (decode_unordered (keys_of b.key_unordered b.key_ordered) b.value_unordered) [
        | err e ↦ err e
        | ok d ↦ elim (decode_ordered_values b.value_ordered) [
          | ok os ↦ ok (record d { ordered_values = os })
          | err e ↦ err e
        ]
      ]

abbrev pub append_data : ContainerData → ContainerData → ContainerData
append_data a d = record {
  values = a.values ++ d.values;
  ordered_values = a.ordered_values ++ d.ordered_values;
  entries = a.entries ++ d.entries;
  ordered_entries = a.ordered_entries ++ d.ordered_entries;
}

abbrev pub count_data : ContainerData → ℕ
count_data d =
    length d.values + length d.ordered_values + length d.entries + length d.ordered_entries

module _ (z : Compressors) (c : Config) where
  -- The loop of `collect`: the data read so far, and the end of the stream or the first failure.
  unfoldable pub receive :
      ContainerData → ℕ → ℕ → List BatchValueResponse → Option Error → Ret ContainerData
  receive result chunks items [] none = (result, none)
  receive result chunks items [] (some e) = (result, partial chunks items (some e))
  receive result chunks items (b ∷ bs) end = elim (decode_batch z c b) [
    | err e ↦ (result, partial chunks items (some e))
    | ok d ↦ receive (append_data result d) (suc chunks) (items + count_data d) bs end
  ]

abbrev pub stream_failure : Stream → Option Error
stream_failure s = elim s.failure [
  | none ↦ none
  | some (code, routes) ↦ some (rpc (foreign code) routes)
]

module _ (env : Environment) (s : Session) where
  -- A stream is opened under the request limit; the context is the transport's to look at.
  abbrev open_stream : (m : Rpc.Method) → Rpc.Request m → Exec (Rpc.Response m)
  open_stream m q = do lift (check_size env s.config m q); invoke env s.stub m q

  abbrev open_for : Option Position → Exec Stream
  open_for none = open_stream Rpc.get_container (get_request s)
  open_for (some p) = do
    lift (validate_position p)
    open_stream Rpc.get_element_in_range (position_pb s.key p)

  unfoldable pub collect : Option Position → Step (Ret ContainerData)
  collect pos = or_return no_data (open_for pos) λ stream.
      give (receive env.compressors s.config no_data 0 0 stream.batches (stream_failure stream))

module _ (env : Environment) (backend : Backend) (c : Config) (ctx : Ctx) (key : Bytes) where
  unfoldable pub get_container : Options → Step (Ret ContainerData)
  get_container o =
      perform env backend ContainerData no_data c ctx key o false λ s. collect env s none

  unfoldable pub get_element_in_range : Position → Options → Step (Ret ContainerData)
  get_element_in_range pos o =
      perform env backend ContainerData no_data c ctx key o false λ s. collect env s (some pos)
