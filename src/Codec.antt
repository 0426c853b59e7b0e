-- ===== src/Codec.antt =====
-- codec.go: payloads to and from wire messages. The block compressors are parameters: LZ4 is a
-- third-party package, and GZIP enters as what its writer and reader produce.
pub mod Results
pub mod RoundTrip
pub mod Bounds
pub mod Values
use hurricache_go_client.Prelude.{
  ℕ, pos, ltb_ℤ, to_uint64, length, take, ◌%◌, Bool, true, not, ◌||◌, Option, none, some, [], ◌==◌,
  ltb, leb, if◌then◌else◌, ◌+◌,
}
use hurricache_go_client.Errors.{
  Except, ok, err, ◌>>=◌, status, resource_exhausted, data_loss, internal,
}
use hurricache_go_client.Types.{Bytes, KeyHint, CompressionInfo, LockInfo, Payload, OrderedPayload}
use hurricache_go_client.Wire.{
  PbKeyHint, CompressedInfo, PbLockInfo, BinaryPayload, Key, Value, OrderedValue,
}
use hurricache_go_client.Config.{Config, compression_lz4, threshold_or_default}

abbrev pub uint32_mod : ℕ
uint32_mod = 4294967296

-- What a GZIP reader opened on some bytes yields: the bytes up to the end or the first error, and
-- whether it ends by an error.
pub record GzipStream : Type 0 where
  pub content : Bytes
  pub broken : Bool

-- The compressors: `dst[:n]` of `CompressBlock` and of `UncompressBlock` for a destination of the
-- given length, the bytes that a closed GZIP writer leaves, and a GZIP reader (none for a bad header).
pub record Compressors : Type 0 where
  pub compress_block_bound : ℕ → ℕ
  pub compress_block : Bytes → ℕ → Except Bytes
  pub uncompress_block : Bytes → ℕ → Except Bytes
  pub gzip_write : Bytes → Except Bytes
  pub gzip_reader : Bytes → Option GzipStream

-- `copyPtr`, `hintPB`, `hintGo`, `compressionGo`, `lockGo`, `lockPB`: copies behind fresh pointers.
abbrev pub copy_ptr {ℓ} : {A : Type ℓ} → Option A → Option A
copy_ptr p = p

abbrev pub hint_pb : Option KeyHint → Option PbKeyHint
hint_pb none = none
hint_pb (some h) =
    some (record { week_hash = copy_ptr h.weak_hash; strong_hash = copy_ptr h.strong_hash })

abbrev pub hint_go : Option PbKeyHint → Option KeyHint
hint_go none = none
hint_go (some h) =
    some (record { weak_hash = copy_ptr h.week_hash; strong_hash = copy_ptr h.strong_hash })

abbrev pub compression_go : Option CompressedInfo → Option CompressionInfo
compression_go none = none
compression_go (some c) = some (record { enabled = c.enabled; raw_size = copy_ptr c.raw_size })

abbrev pub lock_go : Option PbLockInfo → Option LockInfo
lock_go none = none
lock_go (some l) = some (record {
  type = l.type;
  locked_by = copy_ptr l.locked_by;
  locked_till_millis = copy_ptr l.locked_till;
})

abbrev pub lock_pb : Option LockInfo → Option PbLockInfo
lock_pb none = none
lock_pb (some l) = some (record {
  type = l.type;
  locked_by = copy_ptr l.locked_by;
  locked_till = copy_ptr l.locked_till_millis;
})

abbrev pub binary : Bytes → Option BinaryPayload
binary b = some (record { payload = b; size = length b % uint32_mod })

-- `io.ReadAll(io.LimitReader(r, n))`.
abbrev pub read_limited : GzipStream → ℕ → Except Bytes
read_limited r n =
    if leb n (length r.content)
    then ok (take n r.content)
    else if r.broken
    then err (status internal)
    else ok r.content

abbrev pub Encoded : Type 0
Encoded = Bytes × Option CompressedInfo

abbrev pub raw_info : Bytes → Option CompressedInfo
raw_info b = some (record { enabled = true; raw_size = some (length b % uint32_mod) })

abbrev pub non_empty_block : Bytes → Bytes → Except Encoded
non_empty_block b [] = err (status internal)
non_empty_block b block = ok (block, raw_info b)

abbrev pub gzip_block : Bytes → Bytes → Except Encoded
gzip_block b block = ok (block, raw_info b)

-- The uncompressed path of `decode`.
abbrev pub decode_plain : Bytes → Config → Except Bytes
decode_plain b c =
    if ltb_ℤ c.max_decoded_bytes (pos (length b)) then err (status resource_exhausted) else ok b

-- A block that must decode to exactly `raw` bytes.
abbrev pub exactly : ℕ → Except Bytes → Except Bytes
exactly raw (ok b) = if length b == raw then ok b else err (status data_loss)
exactly raw (err e) = err (status data_loss)

abbrev pub gunzip : Option GzipStream → ℕ → Except Bytes
gunzip none raw = err (status data_loss)
gunzip (some r) raw = exactly raw (read_limited r (raw + 1))

abbrev pub key_of : Option KeyHint → Option ℕ → Encoded → Key
key_of h id e = record {
  payload = binary e.0;
  key_hint = hint_pb h;
  client_id = copy_ptr id;
  compression_info = e.1;
}

-- The payload's own expiration, if present, else the given one.
abbrev pub ttl_or : Option ℕ → Option ℕ → Option ℕ
ttl_or none ttl = ttl
ttl_or (some t) ttl = some t

abbrev pub value_of : Payload → Option ℕ → Encoded → Value
value_of p ttl e = record {
  value = binary e.0;
  compression_info = e.1;
  ttl = copy_ptr (ttl_or p.expires_at_millis ttl);
  lock_info = lock_pb p.lock;
}

abbrev pub order_or_zero : Option ℕ → Option ℕ
order_or_zero none = some 0
order_or_zero (some w) = some w

abbrev pub ordered_of : OrderedPayload → Option ℕ → Encoded → OrderedValue
ordered_of p ttl e = record {
  value = binary e.0;
  compression_info = e.1;
  order = copy_ptr (order_or_zero p.order);
  ttl = copy_ptr (ttl_or p.payload.expires_at_millis ttl);
  lock_info = lock_pb p.payload.lock;
}

-- `decodeValue` of a present value.
abbrev pub payload_of : Value → Bytes → Payload
payload_of v b = record {
  bytes = b;
  expires_at_millis = copy_ptr v.ttl;
  lock = lock_go v.lock_info;
  hint = none;
  compression = compression_go v.compression_info;
  client_id = none;
}

-- `decodeOrdered` decodes the value without its order.
abbrev pub without_order : OrderedValue → Value
without_order v = record {
  value = v.value;
  compression_info = v.compression_info;
  ttl = v.ttl;
  lock_info = v.lock_info;
}

abbrev pub ordered_payload : Option ℕ → Payload → OrderedPayload
ordered_payload order p = record { payload = p; order = copy_ptr order }

module _ (z : Compressors) where
  unfoldable pub encode : Bytes → Bool → Config → Except Encoded
  encode b compress c =
      if ltb_ℤ c.max_decoded_bytes (pos (length b))
      then err (status resource_exhausted)
      else if not compress
          || not (ltb_ℤ (threshold_or_default c.compression_threshold) (pos (length b)))
      then ok (b, none)
      else if c.compression_codec == compression_lz4
      then (do
        block ← z.compress_block b (z.compress_block_bound (length b))
        non_empty_block b block)
      else do block ← z.gzip_write b; gzip_block b block

  abbrev pub decode_raw : Bytes → Option ℕ → Config → Except Bytes
  decode_raw b none c = err (status data_loss)
  decode_raw b (some raw) c =
      if raw == 0
      then err (status data_loss)
      else if ltb (to_uint64 c.max_decoded_bytes) raw
      then err (status resource_exhausted)
      else if c.compression_codec == compression_lz4
      then exactly raw (z.uncompress_block b raw)
      else gunzip (z.gzip_reader b) raw

  abbrev pub decode_by : Bytes → Option CompressedInfo → Config → Except Bytes
  decode_by b none c = decode_plain b c
  decode_by b (some info) c =
      if not info.enabled then decode_plain b c else decode_raw b info.raw_size c

  unfoldable pub decode : Bytes → ℕ → Option CompressedInfo → Config → Except Bytes
  decode b size info c =
      if not (length b == size) then err (status data_loss) else decode_by b info c

  unfoldable pub encode_key_policy : Bytes → Option KeyHint → Option ℕ → Config → Bool → Except Key
  encode_key_policy b h id c compress = do e ← encode b compress c; ok (key_of h id e)

  unfoldable pub encode_key : Bytes → Option KeyHint → Option ℕ → Config → Except Key
  unfolding encode_key_policy
  encode_key b h id c = encode_key_policy b h id c true

  unfoldable pub encode_value_policy : Payload → Option ℕ → Config → Bool → Except Value
  encode_value_policy p ttl c compress = do e ← encode p.bytes compress c; ok (value_of p ttl e)

  unfoldable pub encode_value : Payload → Option ℕ → Config → Except Value
  unfolding encode_value_policy
  encode_value p ttl c = encode_value_policy p ttl c true

  unfoldable pub encode_ordered : OrderedPayload → Option ℕ → Config → Except OrderedValue
  encode_ordered p ttl c = do e ← encode p.payload.bytes true c; ok (ordered_of p ttl e)

  abbrev pub decode_binary : Option BinaryPayload → Option CompressedInfo → Config → Except Bytes
  decode_binary none ci c = err (status data_loss)
  decode_binary (some b) ci c = decode b.payload b.size ci c

  unfoldable pub decode_present : Value → Config → Except Payload
  decode_present v c = do b ← decode_binary v.value v.compression_info c; ok (payload_of v b)

  unfoldable pub decode_value : Option Value → Config → Except (Option Payload)
  unfolding decode_present
  decode_value none c = ok none
  decode_value (some v) c = do p ← decode_present v c; ok (some p)

  unfoldable pub decode_ordered : Option OrderedValue → Config → Except (Option OrderedPayload)
  unfolding decode_present
  decode_ordered none c = ok none
  decode_ordered (some v) c = do
    p ← decode_present (without_order v) c
    ok (some (ordered_payload v.order p))
