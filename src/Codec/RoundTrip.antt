-- ===== src/Codec/RoundTrip.antt =====
-- codec.go: what is encoded decodes to the same payload, under the compressors' documented law.
use hurricache_go_client.Prelude.{
  ℕ, ℤ, pos, ltb_ℤ, pos_part, ◌≤ℤ◌, length, ◌%◌, ◌<◌, ◌≡◌, refl, sym, ◌∙◌, Bool, true, false, not,
  ◌||◌, Option, none, some, [], ◌∷◌, ◌==◌, if◌then◌else◌, arith, inl, inr, ◌⊎◌,
}
use native.Mathlib.Nat.{mod-eq_of_lt}
use hurricache_go_client.Errors.{Except, ok, err, ◌>>=◌, Error, status, resource_exhausted}
use hurricache_go_client.Types.{Bytes}
use hurricache_go_client.Wire.{CompressedInfo}
use hurricache_go_client.Config.{Config, IsNormal, threshold_or_default, compression_lz4}
use hurricache_go_client.Codec.{
  Compressors, Encoded, encode, decode, uint32_mod, exactly, gunzip, decode_by, decode_raw,
  decode_plain, raw_info, gzip_block, non_empty_block,
}

-- A block or a GZIP stream that the compressor made gives the bytes back.
pub record IsInverse (z : Compressors) : Type 0 where
  pub block :
      (b w : Bytes)
      → z.compress_block b (z.compress_block_bound (length b)) ≡ ok w
      → z.uncompress_block w (length b) ≡ ok b
  pub gzip :
      (b w : Bytes)
      → z.gzip_write b ≡ ok w
      → z.gzip_reader w ≡ some (record { content = b; broken = false })

-- A whole payload is in the memory of a 64-bit machine, and its size fits the 32-bit size fields.
abbrev pub Fits : Bytes → Type 0
Fits b = length b < uint32_mod

-- The configured limit is a 64-bit `int`.
abbrev pub IsInt64Limit : Config → Type 0
IsInt64Limit c = pos_part c.max_decoded_bytes < 9223372036854775808

-- How a successful encoding came about.
data Encodes (z : Compressors) (b : Bytes) (c : Config) (w : Bytes) (info : Option CompressedInfo)
    : Type 0 where
  plain : w ≡ b → info ≡ none → Encodes z b c w info
  lz4 :
      z.compress_block b (z.compress_block_bound (length b)) ≡ ok w
      → info ≡ raw_info b
      → 0 < length b
      → (c.compression_codec == compression_lz4) ≡ true
      → Encodes z b c w info
  gzip :
      z.gzip_write b ≡ ok w
      → info ≡ raw_info b
      → 0 < length b
      → (c.compression_codec == compression_lz4) ≡ false
      → Encodes z b c w info

block_result :
    (z : Compressors) (b w : Bytes) (info : Option CompressedInfo) (r : Except Bytes)
    → (r >>= λ block. non_empty_block b block) ≡ ok (w, info)
    → (r ≡ ok w) × (info ≡ raw_info b)
block_result z b w info (ok []) h = cc
block_result z b w info (ok (x ∷ block)) h = ground arith
block_result z b w info (err e) h = cc

gzip_result :
    (z : Compressors) (b w : Bytes) (info : Option CompressedInfo) (r : Except Bytes)
    → (r >>= λ block. gzip_block b block) ≡ ok (w, info)
    → (r ≡ ok w) × (info ≡ raw_info b)
gzip_result z b w info (ok block) h = ground arith
gzip_result z b w info (err e) h = cc

above_threshold :
    (t : ℤ) (b : Bytes) (compress : Bool)
    → pos 0 ≤ℤ t
    → (not compress || not (ltb_ℤ t (pos (length b)))) ≡ false
    → 0 < length b
above_threshold t b compress h k = ground arith

-- Which branch of a guarded choice returned.
branches :
    (p q r : Bool) (e : Error) (x y z : Except Encoded) (v : Encoded)
    → (if p then err e else if q then x else if r then y else z) ≡ ok v
    → (p ≡ false)
      × (((q ≡ true) × (x ≡ ok v))
          ⊎ ((q ≡ false) × (r ≡ true) × (y ≡ ok v))
          ⊎ ((q ≡ false) × (r ≡ false) × (z ≡ ok v)))
branches true q r e x y z v h = cc
branches false true r e x y z v h = (refl, inl (refl, h))
branches false false true e x y z v h = (refl, inr (inl (refl, refl, h)))
branches false false false e x y z v h = (refl, inr (inr (refl, refl, h)))

within : (m : ℤ) (n : ℕ) → ltb_ℤ m (pos n) ≡ false → pos n ≤ℤ m
within m n h = ground arith

module _ (z : Compressors) (b : Bytes) (compress : Bool) (c : Config) (w : Bytes)
    (info : Option CompressedInfo) (n : IsNormal c) where
  encode-Encodes :
      encode z b compress c ≡ ok (w, info)
      → (pos (length b) ≤ℤ c.max_decoded_bytes) × Encodes z b c w info
  unfolding encode
  encode-Encodes h =
      let t = threshold_or_default c.compression_threshold in
      let small = not compress || not (ltb_ℤ t (pos (length b))) in
      let (fits, way) =
        branches (ltb_ℤ c.max_decoded_bytes (pos (length b))) small
          (c.compression_codec == compression_lz4) (status resource_exhausted) (ok (b, none)) _ _
          (w, info) h in
      (
        within c.max_decoded_bytes (length b) fits,
        elim way [
          | inl (_, e) ↦ plain (ground arith) (ground arith)
          | inr (inl (large, q, e)) ↦
              let (made, i) = block_result z b w info _ e in
              lz4 made i (above_threshold t b compress n.threshold large) q
          | inr (inr (large, q, e)) ↦
              let (made, i) = gzip_result z b w info _ e in
              gzip made i (above_threshold t b compress n.threshold large) q
        ],
      )

decode_plain_lem :
    (z : Compressors) (b : Bytes) (c : Config)
    → pos (length b) ≤ℤ c.max_decoded_bytes
    → decode_plain b c ≡ ok b
decode_plain_lem z b c h = ground arith

exactly_lem : (z : Compressors) (b : Bytes) → exactly (length b) (ok b) ≡ ok b
exactly_lem z b = ground arith

-- A positive raw size within the limit is handed to the decompressor.
decode_raw_lem :
    (z : Compressors) (w : Bytes) (c : Config) (raw : ℕ)
    → 0 < raw
    → pos raw ≤ℤ c.max_decoded_bytes
    → IsInt64Limit c
    → decode_raw z w (some raw) c ≡ (
        if c.compression_codec == compression_lz4
        then exactly raw (z.uncompress_block w raw)
        else gunzip (z.gzip_reader w) raw)
decode_raw_lem z w c raw p h k = ground arith

gunzip_lem :
    (z : Compressors) (b : Bytes)
    → gunzip (some (record { content = b; broken = false })) (length b) ≡ ok b
gunzip_lem z b = ground arith

module _ (z : Compressors) (inverse : IsInverse z) (b : Bytes) (c : Config) (w : Bytes)
    (limit : IsInt64Limit c) (fits : pos (length b) ≤ℤ c.max_decoded_bytes) (small : Fits b) where
  lz4_raw :
      (raw : ℕ)
      → raw ≡ length b
      → 0 < length b
      → z.compress_block b (z.compress_block_bound (length b)) ≡ ok w
      → (c.compression_codec == compression_lz4) ≡ true
      → decode_raw z w (some raw) c ≡ ok b
  lz4_raw raw e p made q = rw e (
      decode_raw_lem z w c (length b) p fits limit
      ∙ rw (q, inverse.block b w made) (exactly_lem z b))

  gzip_raw :
      (raw : ℕ)
      → raw ≡ length b
      → 0 < length b
      → z.gzip_write b ≡ ok w
      → (c.compression_codec == compression_lz4) ≡ false
      → decode_raw z w (some raw) c ≡ ok b
  gzip_raw raw e p made q = rw e (
      decode_raw_lem z w c (length b) p fits limit ∙ rw (q, inverse.gzip b w made) (gunzip_lem z b))

  decode_by-Encodes :
      (info : Option CompressedInfo) → Encodes z b c w info → decode_by z w info c ≡ ok b
  decode_by-Encodes info (plain e i) = rw (i, e) (decode_plain_lem z b c fits)
  decode_by-Encodes info (lz4 made i p q) = rw i (lz4_raw _ (mod-eq_of_lt small) p made q)
  decode_by-Encodes info (gzip made i p q) = rw i (gzip_raw _ (mod-eq_of_lt small) p made q)

sized :
    (z : Compressors) (w : Bytes) (size : ℕ) (info : Option CompressedInfo) (c : Config)
    → length w ≡ size
    → decode z w size info c ≡ decode_by z w info c
unfolding decode
sized z w size info c e = ground arith

-- What `encode` makes of a payload, where both fit the 32-bit size fields, `decode` turns back into
-- the payload, for a normal configuration with a 64-bit limit and compressors that are inverse to each
-- other, whichever codec is configured and whether or not the payload is compressed.
pub decode-encode :
    (z : Compressors) (c : Config) (b w : Bytes) (compress : Bool) (info : Option CompressedInfo)
    → IsInverse z
    → IsNormal c
    → IsInt64Limit c
    → Fits b
    → Fits w
    → encode z b compress c ≡ ok (w, info)
    → decode z w (length w % uint32_mod) info c ≡ ok b
decode-encode z c b w compress info inverse n limit small small' h =
    let (fits, way) = encode-Encodes z b compress c w info n h in
    sized z w _ info c (sym (mod-eq_of_lt small'))
    ∙ decode_by-Encodes z inverse b c w limit fits small info way
