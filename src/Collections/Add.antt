-- ===== src/Collections/Add.antt =====
-- collections.go: `add` and `RemoveFromContainer`, which send their items in bounded chunks.
use hurricache_go_client.Prelude.{
  ℕ, suc, ltb, ◌+◌, ◌-◌, ◌%◌, Bool, true, false, not, ◌&&◌, Option, none, some, List, [], ◌∷◌, ◌++◌,
  length, slice, reverse, ◌==◌, if◌then◌else◌,
}
use hurricache_go_client.Errors.{
  Except, ok, err, Ret, status, invalid_argument, out_of_range, aborted, partial,
}
use hurricache_go_client.Types.{
  Bytes, Options, Payload, ContainerData, ContainerType, map, ordered_map, Removal,
}
use hurricache_go_client.Wire.{
  Value, AddToRequest, AddToValRequest, RemoveFromContainerRequest, IntResponse,
}
use hurricache_go_client.Config.{Config}
use hurricache_go_client.Codec.{uint32_mod, encode_key, encode_value_policy}
use hurricache_go_client.Rpc.{add_message, add_relative_message, remove_message, Message}
use hurricache_go_client.Rpc
use hurricache_go_client.World.{
  Ctx, Environment, Step, Exec, lift, ◌>>=◌, ◌>>◌, or_return, or_handle, give, return_ok,
}
use hurricache_go_client.Session.{Session, Backend, unary, perform}
use hurricache_go_client.Operations.Times.{max_uint32}
use hurricache_go_client.Collections.Split.{Span, split}
use hurricache_go_client.Collections.Items.{
  Item, no_item, encode_items, encode_each, value_item, is_container, add_request,
}

pub data AddKind : Type 0 where
  add_generic add_head add_tail add_position add_before add_after add_bool add_ordered_bool :
      AddKind

pub record AddOutcome : Type 0 where
  pub count : ℕ
  pub ok : Bool

abbrev pub is_relative : AddKind → Bool
is_relative add_before = true
is_relative add_after = true
is_relative _ = false

abbrev pub is_before_kind : AddKind → Bool
is_before_kind add_before = true
is_before_kind _ = false

-- The kinds whose answer is a Boolean: a count of zero is a rejection.
abbrev pub is_boolean : AddKind → Bool
is_boolean add_generic = false
is_boolean add_position = false
is_boolean _ = true

-- `uint32` arithmetic on the position of the first item of a chunk.
abbrev pub chunk_position : AddKind → ℕ → ℕ → Option ℕ
chunk_position add_position at i = some ((at + i % uint32_mod) % uint32_mod)
chunk_position add_bool at i = some max_uint32
chunk_position add_ordered_bool at i = some (i % uint32_mod)
chunk_position _ at i = none

abbrev pub map_type : ContainerType → Option ContainerType
map_type map = some map
map_type ordered_map = some ordered_map
map_type _ = none

-- Relative-after insertion keeps the order within a request, so its chunks go last first.
abbrev pub send_order : AddKind → List Span → List Span
send_order add_after parts = reverse parts
send_order _ parts = parts

abbrev pub position_overflows : AddKind → ℕ → ℕ → Bool
position_overflows add_position at n = ltb max_uint32 (at + n)
position_overflows _ at n = false

module _ (s : Session) (t : ContainerType) (kind : AddKind) (at : ℕ) (pv : Option Value)
    (items : List Item) where
  unfoldable pub build_add : ℕ → ℕ → AddToRequest
  build_add i j = add_request s.key (map_type t) (chunk_position kind at i) (slice i j items)

  unfoldable pub build_relative : ℕ → ℕ → AddToValRequest
  unfolding build_add
  build_relative i j = record {
    key = s.key;
    is_before = is_before_kind kind;
    pos = pv;
    value = (build_add i j).value_unordered;
  }

  -- The request that `build` makes of the items from `i` to `j`.
  abbrev pub build : ℕ → ℕ → Message
  build i j =
      if is_relative kind
      then add_relative_message (build_relative i j)
      else add_message (build_add i j)

module _ (env : Environment) (s : Session) (t : ContainerType) (kind : AddKind) (at : ℕ)
    (pv : Option Value) (items : List Item) where
  -- The call for one chunk, by the kind of insertion.
  abbrev pub send_by : AddKind → Span → Exec IntResponse
  send_by add_head p =
      unary env s Rpc.add_element_to_head (build_add s t kind at pv items p.start p.end)
  send_by add_tail p =
      unary env s Rpc.add_element_to_tail (build_add s t kind at pv items p.start p.end)
  send_by add_before p =
      unary env s Rpc.add_element_to_position_by_value
        (build_relative s t kind at pv items p.start p.end)
  send_by add_after p =
      unary env s Rpc.add_element_to_position_by_value
        (build_relative s t kind at pv items p.start p.end)
  send_by _ p = unary env s Rpc.add_element (build_add s t kind at pv items p.start p.end)

  -- What follows on an acknowledged count: the end of the loop, or the next total.
  unfoldable pub acknowledge :
      Bool
      → AddOutcome
      → ℕ
      → ℕ
      → Span
      → ℕ
      → (AddOutcome → Step (Ret AddOutcome))
      → Step (Ret AddOutcome)
  acknowledge boolean result chunks done p count next =
      if ltb max_uint32 (result.count + count)
      then give (result, partial (suc chunks) (done + p.end - p.start) (some (status out_of_range)))
      else if boolean && (count == 0)
      then give (
        record { count = (result.count + count) % uint32_mod; ok = false },
        if ltb 0 chunks then partial chunks done (some (status aborted)) else none,
      )
      else next (record { count = (result.count + count) % uint32_mod; ok = result.ok })

  unfoldable pub add_chunks : Bool → AddOutcome → ℕ → ℕ → List Span → Step (Ret AddOutcome)
  add_chunks boolean result chunks done [] = return_ok result
  add_chunks boolean result chunks done (p ∷ ps) =
      or_handle (λ e. (result, partial chunks done (some e))) (send_by kind p)
        λ r.
          acknowledge boolean result chunks done p r.size
            λ result'. add_chunks boolean result' (suc chunks) (done + (p.end - p.start)) ps

module _ (env : Environment) where
  abbrev check_position : AddKind → ℕ → ℕ → Except (Unit {0})
  check_position kind at n =
      if position_overflows kind at n then err (status out_of_range) else ok tt

  abbrev encode_pivot : Config → AddKind → Payload → Except (Option Value)
  encode_pivot c kind pivot = elim (is_relative kind) [
    | false ↦ ok none
    | true ↦ elim (encode_value_policy env.compressors pivot none c false) [
      | ok v ↦ ok (some v)
      | err e ↦ err e
    ]
  ]

  abbrev pub add_size : Session → ContainerType → AddKind → ℕ → Option Value → List Item → ℕ → ℕ → ℕ
  add_size s t kind at pv items i j = env.proto_size (build s t kind at pv items i j)

  -- What `add` settles before its first call: the items, the pivot and the spans in sending order.
  unfoldable pub plan_add :
      Session
      → ContainerType
      → ContainerData
      → AddKind
      → ℕ
      → Payload
      → Exec (List Item × Option Value × List Span)
  plan_add s t d kind at pivot = do
    items ← encode_items env.compressors s t d false
    lift (check_position kind at (length items))
    pv ← lift (encode_pivot s.config kind pivot)
    parts ← split s.config.max_request_bytes (add_size s t kind at pv items) s.ctx (length items)
    lift (ok (items, pv, send_order kind parts))

  abbrev no_outcome : AddOutcome
  no_outcome = record { count = 0; ok = false }

  unfoldable pub add :
      Backend
      → Config
      → Ctx
      → Bytes
      → ContainerType
      → ContainerData
      → AddKind
      → ℕ
      → Payload
      → Options
      → Bool
      → Step (Ret AddOutcome)
  add backend c ctx key t d kind at pivot o count_only =
      perform env backend AddOutcome no_outcome c ctx key o true λ s.
        or_return no_outcome (plan_add s t d kind at pivot) λ plan.
          add_chunks env s t kind at plan.1 plan.0 (not count_only && is_boolean kind)
            (record { count = 0; ok = true }) 0 0 plan.2

  abbrev key_item : Session → Payload → Except Item
  key_item s k = elim (encode_key env.compressors k.bytes k.hint s.key.client_id s.config) [
    | ok p ↦ ok (record no_item { key = some p })
    | err e ↦ err e
  ]

  abbrev check_removal : ContainerType → Except (Unit {0})
  check_removal t = if is_container t then ok tt else err (status invalid_argument)

  unfoldable pub removal_request :
      Session → ContainerType → List Item → ℕ → ℕ → RemoveFromContainerRequest
  removal_request s t items i j =
      let a = add_request s.key none none (slice i j items) in
      record { key = s.key; type = some t; values = a.value_unordered; keys = a.key_unordered }

  abbrev pub removal_size : Session → ContainerType → List Item → ℕ → ℕ → ℕ
  removal_size s t items i j = env.proto_size (remove_message (removal_request s t items i j))

  unfoldable pub plan_removal : Session → Removal → Exec (List Item × List Span)
  plan_removal s r = do
    lift (check_removal r.type)
    a ← encode_each s.ctx (value_item env.compressors s.config none) r.values
    b ← encode_each s.ctx (key_item s) r.keys
    parts ←
        split s.config.max_request_bytes (removal_size s r.type (a ++ b)) s.ctx (length (a ++ b))
    lift (ok (a ++ b, parts))

  unfoldable pub remove_chunks :
      Session → ContainerType → List Item → ℕ → ℕ → ℕ → List Span → Step (Ret ℕ)
  remove_chunks s t items total chunks done [] = return_ok total
  remove_chunks s t items total chunks done (p ∷ ps) =
      or_handle (λ e. (total, partial chunks done (some e)))
        (unary env s Rpc.remove_from_container_by_key_value
          (removal_request s t items p.start p.end))
        λ r.
          let rest =
            remove_chunks s t items ((total + r.size) % uint32_mod) (suc chunks)
              (done + (p.end - p.start)) ps in
          if ltb max_uint32 (total + r.size)
          then give
              (total, partial (suc chunks) (done + p.end - p.start) (some (status out_of_range)))
          else rest

  unfoldable pub remove_from_container :
      Backend → Config → Ctx → Bytes → Removal → Options → Step (Ret ℕ)
  remove_from_container backend c ctx key removal o = perform env backend ℕ 0 c ctx key o true λ s.
      or_return 0 (plan_removal s removal) λ plan. remove_chunks s removal.type plan.0 0 0 0 plan.1
