-- ===== src/Codec/Results.antt =====
-- The responses that codec.go decodes as a whole: `decodeResult`, `decodeUpdate`, `decodeKey`,
-- `atomicGo`. The first two return what they decoded beside an error.
use hurricache_go_client.Prelude.{ℕ, List, Option, none, some}
use hurricache_go_client.Errors.{Except, ok, err, Ret, status, data_loss}
use hurricache_go_client.Types.{Payload, ValueResult, UpdateResult, AtomicResult, OrderedPayload}
use hurricache_go_client.Wire.{Key, ValueResponse, UpdateValueResponse, AtomicValue, PbKeyHint}
use hurricache_go_client.Config.{Config}
use hurricache_go_client.Codec.{
  Compressors, hint_go, compression_go, copy_ptr, decode_value, decode_ordered, decode_binary,
}

-- A value decoded, or nil beside the error.
abbrev pub value_or_nil {ℓ} : {A : Type ℓ} → Except (Option A) → Ret (Option A)
value_or_nil (ok p) = (p, none)
value_or_nil (err e) = (none, some e)

module _ (z : Compressors) where
  abbrev result_ordered :
      Option Payload → Option PbKeyHint → Except (Option OrderedPayload) → Ret ValueResult
  result_ordered p h (ok o) = (record { value = p; ordered = o; hint = hint_go h }, none)
  result_ordered p h (err e) = (record { value = p; ordered = none; hint = hint_go h }, some e)

  abbrev result_value : Except (Option Payload) → ValueResponse → Config → Ret ValueResult
  result_value (err e) v c =
      (record { value = none; ordered = none; hint = hint_go v.key_hint }, some e)
  result_value (ok p) v c = result_ordered p v.key_hint (decode_ordered z v.value_ordered c)

  unfoldable pub decode_result : ValueResponse → Config → Ret ValueResult
  decode_result v c = result_value (decode_value z v.value_unordered c) v c

  unfoldable pub decode_update : UpdateValueResponse → Config → Ret UpdateResult
  decode_update v c =
      let (p, e) = value_or_nil (decode_value z v.value c) in
      (record { updated = v.result; previous = p }, e)

  abbrev key_payload : Key → Except (List ℕ) → Except Payload
  key_payload k (err e) = err e
  key_payload k (ok b) = ok (record {
    bytes = b;
    expires_at_millis = none;
    lock = none;
    hint = hint_go k.key_hint;
    compression = compression_go k.compression_info;
    client_id = copy_ptr k.client_id;
  })

  unfoldable pub decode_key : Option Key → Config → Except Payload
  decode_key none c = err (status data_loss)
  decode_key (some k) c = key_payload k (decode_binary z k.payload k.compression_info c)

abbrev pub atomic_go : AtomicValue → AtomicResult
atomic_go v = record { value = v.val; hint = hint_go v.key_hint }
