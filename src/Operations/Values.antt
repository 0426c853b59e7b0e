-- ===== src/Operations/Values.antt =====
-- operations.go: reading and writing single values, by position, by map key, and whole scalars.
use hurricache_go_client.Prelude.{ℕ, Bool, true, false, Option, none, some, ltb, if◌then◌else◌}
use hurricache_go_client.Errors.{Except, ok, err, Ret, status, invalid_argument}
use hurricache_go_client.Types.{
  Bytes, KeyHint, Payload, no_payload, Options, Position, ValueResult, UpdateResult, no_lock,
}
use hurricache_go_client.Wire.{Key, PbLockInfo, KeyPositionRequest, ContainerGetRequest}
use hurricache_go_client.Codec.{
  copy_ptr, hint_go, encode_value, encode_value_policy, encode_key_policy,
}
use hurricache_go_client.Codec.Results.{decode_result, decode_update}
use hurricache_go_client.Config.{Config}
use hurricache_go_client.Rpc.{Method, Request, Response}
use hurricache_go_client.Rpc
use hurricache_go_client.World.{
  ◌>>◌, Ctx, Environment, Step, Exec, lift, ◌>>=◌, or_return, give, return_ok,
}
use hurricache_go_client.Session.{Session, Backend, unary, perform}
use hurricache_go_client.Operations.{zero_result, zero_update}

-- Whether the range ends before it starts.
abbrev pub ends_early : Option ℕ → ℕ → Bool
ends_early none start = false
ends_early (some e) start = ltb e start

unfoldable pub validate_position : Position → Except (Unit {0})
validate_position p = if ends_early p.end p.start then err (status invalid_argument) else ok tt

unfoldable pub position_pb : Key → Position → KeyPositionRequest
position_pb key p = record {
  key = key;
  type = copy_ptr p.type;
  pos = p.start;
  end = copy_ptr p.end;
  reverse = p.reverse;
}

-- The payload of raw bytes.
abbrev pub payload_of_bytes : Bytes → Payload
payload_of_bytes b = record no_payload { bytes = b }

abbrev unlocked_by : Option ℕ → PbLockInfo
unlocked_by id = record { type = no_lock; locked_by = copy_ptr id; locked_till = none }

module _ (env : Environment) (backend : Backend) (c : Config) (ctx : Ctx) (key : Bytes) where
  unfoldable pub create_key_value : Bytes → Options → Step (Ret (Option KeyHint))
  create_key_value value o = perform env backend (Option KeyHint) none c ctx key o false λ s.
      or_return none
        (do
          v ← lift (encode_value env.compressors (payload_of_bytes value) s.ttl s.config)
          unary env s Rpc.create_key_value (record {
            key = s.key;
            value = record v { lock_info = some (unlocked_by s.key.client_id) };
          }))
        λ r. return_ok (hint_go r.key_hint)

  unfoldable pub update_key_value : Bytes → Options → Step (Ret UpdateResult)
  update_key_value value o = perform env backend UpdateResult zero_update c ctx key o false λ s.
      or_return zero_update
        (do
          v ← lift (encode_value env.compressors (payload_of_bytes value) s.ttl s.config)
          unary env s Rpc.update_value (record { key = s.key; value = v }))
        λ r. give (decode_update env.compressors r s.config)

  unfoldable pub get_element_at_position : Position → Options → Step (Ret ValueResult)
  get_element_at_position pos o = perform env backend ValueResult zero_result c ctx key o false λ s.
      or_return zero_result
        (do
          lift (validate_position pos)
          unary env s Rpc.get_element_at_position (position_pb s.key pos))
        λ r. give (decode_result env.compressors r s.config)

  unfoldable pub get_and_remove_element_at_position : Position → Options → Step (Ret ValueResult)
  get_and_remove_element_at_position pos o =
      perform env backend ValueResult zero_result c ctx key o true λ s.
        or_return zero_result
          (do
            lift (validate_position pos)
            unary env s Rpc.get_and_remove_element_at_position (position_pb s.key pos))
          λ r. give (decode_result env.compressors r s.config)

  unfoldable pub remove_element_at_position : Position → Options → Step (Ret Bool)
  remove_element_at_position pos o = perform env backend Bool false c ctx key o true λ s.
      or_return false
        (do
          lift (validate_position pos)
          unary env s Rpc.remove_element_at_position (position_pb s.key pos))
        λ r. return_ok r.value

  -- The request on one key of a map; the element key is never compressed.
  abbrev element_request : Session → Bytes → Exec ContainerGetRequest
  element_request s k = do
    k' ← lift (encode_key_policy env.compressors k none s.key.client_id s.config false)
    lift (ok (record { key = s.key; element_key = k' }))

  unfoldable pub get_container_value : Bytes → Options → Step (Ret ValueResult)
  get_container_value element_key o =
      perform env backend ValueResult zero_result c ctx key o false λ s.
        or_return zero_result
          (do q ← element_request s element_key; unary env s Rpc.get_value_in_container q)
          λ r. give (decode_result env.compressors r s.config)

  unfoldable pub get_and_remove_container_value : Bytes → Options → Step (Ret ValueResult)
  get_and_remove_container_value element_key o =
      perform env backend ValueResult zero_result c ctx key o true λ s.
        or_return zero_result
          (do
            q ← element_request s element_key
            unary env s Rpc.get_and_delete_value_in_container q)
          λ r. give (decode_result env.compressors r s.config)

  unfoldable pub contains_container_key : Bytes → Options → Step (Ret Bool)
  contains_container_key element_key o = perform env backend Bool false c ctx key o false λ s.
      or_return false
        (do q ← element_request s element_key; unary env s Rpc.exist_key_in_container q)
        λ r. return_ok r.value

  unfoldable pub remove_container_key : Bytes → Options → Step (Ret ℕ)
  remove_container_key element_key o = perform env backend ℕ 0 c ctx key o true λ s.
      or_return 0 (do q ← element_request s element_key; unary env s Rpc.remove_in_container q)
        λ r. return_ok r.size

  unfoldable pub update_container_value : Bytes → Bytes → Options → Step (Ret UpdateResult)
  update_container_value element_key value o =
      perform env backend UpdateResult zero_update c ctx key o true λ s.
        or_return zero_update
          (do
            k ←
                lift (
                  encode_key_policy env.compressors element_key none s.key.client_id s.config false)
            v ←
                lift
                  (encode_value_policy env.compressors (payload_of_bytes value) none s.config false)
            unary env s Rpc.update_value_in_container
                (record { key = s.key; element_key = k; value = v }))
          λ r. give (decode_update env.compressors r s.config)
