-- ===== src/Codec/Values.antt =====
-- codec.go: values, ordered values and keys keep their data and metadata across the wire.
use hurricache_go_client.Prelude.{ℕ, ◌≡◌, refl, subst, Bool, true, Option, none, some, arith}
use hurricache_go_client.Errors.{Except, ok, err, ◌>>=◌}
use hurricache_go_client.Types.{KeyHint, LockInfo, Payload, OrderedPayload}
use hurricache_go_client.Wire.{Value, OrderedValue, BinaryPayload, CompressedInfo}
use hurricache_go_client.Config.{Config, IsNormal}
use hurricache_go_client.Codec.{
  Compressors, Encoded, encode, encode_value_policy, encode_ordered, decode_value, decode_ordered,
  decode_present, value_of, ordered_of, lock_go, lock_pb, hint_go, hint_pb, ttl_or, order_or_zero,
  compression_go,
}
use hurricache_go_client.Codec.RoundTrip.{IsInverse, IsInt64Limit, Fits, decode-encode}

lock_go-lock_pb : (l : Option LockInfo) → lock_go (lock_pb l) ≡ l
lock_go-lock_pb none = refl
lock_go-lock_pb (some l) = refl

hint_go-hint_pb : (h : Option KeyHint) → hint_go (hint_pb h) ≡ h
hint_go-hint_pb none = refl
hint_go-hint_pb (some h) = refl

>>=-eq-ok :
    {B : Type 0} (r : Except Encoded) (f : Encoded → B) {v : B}
    → (r >>= λ e. ok (f e)) ≡ ok v
    → (e : Encoded) × (r ≡ ok e) × (f e ≡ v)
>>=-eq-ok (ok e) f h = (e, refl, ground arith)
>>=-eq-ok (err e) f h = cc

-- The bytes of a message fit its 32-bit size field.
abbrev pub FitsPayload : Option BinaryPayload → Type 0
FitsPayload none = Unit {0}
FitsPayload (some b) = Fits b.payload

-- What a payload becomes on its way through the wire: its expiration is filled in, its hint and
-- client ID are not carried, and the compression metadata tell how it travelled.
abbrev pub received : Payload → Option ℕ → Option CompressedInfo → Payload
received p ttl info = record {
  bytes = p.bytes;
  expires_at_millis = ttl_or p.expires_at_millis ttl;
  lock = p.lock;
  hint = none;
  compression = compression_go info;
  client_id = none;
}

module _ (z : Compressors) (c : Config) (inverse : IsInverse z) (n : IsNormal c)
    (limit : IsInt64Limit c) where
  payload_back :
      (p : Payload) (ttl : Option ℕ) (compress : Bool) (e : Encoded)
      → Fits p.bytes
      → Fits e.0
      → encode z p.bytes compress c ≡ ok e
      → decode_present z (value_of p ttl e) c ≡ ok (received p ttl e.1)
  unfolding decode_present
  payload_back p ttl compress e small small' h =
      rw (decode-encode z c p.bytes e.0 compress e.1 inverse n limit small small' h)
        (rw (lock_go-lock_pb p.lock))

  -- A value that `encode_value_policy` makes decodes to its payload, its expiration filled in, without
  -- its hint and client ID, and with the compression metadata of its way: for a normal configuration with a 64-bit limit,
  -- compressors that are inverse to each other, and sizes that fit the 32-bit fields.
  pub decode_value-encode_value_policy :
      (p : Payload) (ttl : Option ℕ) (compress : Bool) (v : Value)
      → Fits p.bytes
      → FitsPayload v.value
      → encode_value_policy z p ttl c compress ≡ ok v
      → decode_value z (some v) c ≡ ok (some (received p ttl v.compression_info))
  unfolding encode_value_policy decode_value
  decode_value-encode_value_policy p ttl compress v small small' h =
      let (e, made, is) = >>=-eq-ok (encode z p.bytes compress c) (value_of p ttl) h in
      subst
        (λ (v : Value).
          FitsPayload v.value
          → decode_value z (some v) c ≡ ok (some (received p ttl v.compression_info)))
        is (λ k. rw (payload_back p ttl compress e small k made)) small'

  -- An ordered value that `encode_ordered` makes decodes to its payload in the same way, under the
  -- conditions that a plain value has (normal configuration, inverse compressors, sizes that fit), and
  -- its order arrives as zero if it had none.
  pub decode_ordered-encode_ordered :
      (p : OrderedPayload) (ttl : Option ℕ) (v : OrderedValue)
      → Fits p.payload.bytes
      → FitsPayload v.value
      → encode_ordered z p ttl c ≡ ok v
      → decode_ordered z (some v) c
        ≡ ok (
            some (record {
              payload = received p.payload ttl v.compression_info;
              order = order_or_zero p.order;
            }))
  unfolding encode_ordered decode_ordered
  decode_ordered-encode_ordered p ttl v small small' h =
      let (e, made, is) = >>=-eq-ok (encode z p.payload.bytes true c) (ordered_of p ttl) h in
      subst
        (λ (v : OrderedValue).
          FitsPayload v.value
          → decode_ordered z (some v) c
            ≡ ok (
                some (record {
                  payload = received p.payload ttl v.compression_info;
                  order = order_or_zero p.order;
                })))
        is (λ k. rw (payload_back p.payload ttl true e small k made)) small'
