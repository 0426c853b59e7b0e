-- ===== src/Codec/Bounds.antt =====
-- codec.go: what `decode` returns is bounded, whatever arrives and whatever the compressors do.
use hurricache_go_client.Prelude.{
  ℕ, ℤ, pos, ltb_ℤ, to_uint64, pos_part, ◌≤ℤ◌, ◌<ℤ◌, length, ◌+◌, ◌<◌, ◌≡◌, refl, ap, Bool, true,
  false, not, Option, none, some, ◌==◌, ltb, if◌then◌else◌, arith, ◌⊎◌, inl, inr,
}
use hurricache_go_client.Errors.{Except, ok, err, Error, status, resource_exhausted, data_loss}
use hurricache_go_client.Types.{Bytes}
use hurricache_go_client.Wire.{CompressedInfo}
use hurricache_go_client.Config.{Config, IsNormal, compression_lz4}
use hurricache_go_client.Codec.{
  Compressors, GzipStream, decode, exactly, gunzip, decode_by, decode_raw, decode_plain,
  read_limited,
}
use hurricache_go_client.Codec.RoundTrip.{IsInt64Limit}

-- The only two refusals of `decode`.
abbrev pub IsDecodeError : Error → Type 0
IsDecodeError e = (e ≡ status data_loss) ⊎ (e ≡ status resource_exhausted)

-- A decoded payload satisfies `P`, a refusal is one of the two.
pub data Decodes (P : Bytes → Type 0) : Except Bytes → Type 0 where
  decoded : {d : Bytes} → P d → Decodes P (ok d)
  refused : {e : Error} → IsDecodeError e → Decodes P (err e)

abbrev Within : Config → Bytes → Type 0
Within c d = pos (length d) ≤ℤ c.max_decoded_bytes

-- What a payload `b` with this compression metadata may decode to: itself, unless the metadata say that it is
-- compressed; then something of the raw size that they announce.
abbrev pub HasRawSize : Bytes → Option CompressedInfo → Bytes → Type 0
HasRawSize b none d = d ≡ b
HasRawSize b (some info) d = if info.enabled then info.raw_size ≡ some (length d) else d ≡ b

within : (m : ℤ) (n : ℕ) → ltb_ℤ m (pos n) ≡ false → pos n ≤ℤ m
within m n h = ground arith

same : (m n : ℕ) → (m == n) ≡ true → n ≡ m
same m n h = ground arith

Decodes-if :
    (P : Bytes → Type 0) (b : Bool) (x y : Except Bytes)
    → (b ≡ true → Decodes P x)
    → (b ≡ false → Decodes P y)
    → Decodes P (if b then x else y)
Decodes-if P true x y h k = h refl
Decodes-if P false x y h k = k refl

decode_plain_bounds :
    (z : Compressors) (b : Bytes) (c : Config)
    → Decodes (λ d. Within c d × (d ≡ b)) (decode_plain b c)
decode_plain_bounds z b c =
    Decodes-if (λ d. Within c d × (d ≡ b)) _ _ _ (λ _. refused (inr refl))
      (λ h. decoded (within c.max_decoded_bytes (length b) h, refl))

exactly_bounds :
    (z : Compressors) (P : Bytes → Type 0) (raw : ℕ) (r : Except Bytes)
    → ((d : Bytes) → raw ≡ length d → P d)
    → Decodes P (exactly raw r)
exactly_bounds z P raw (ok b) h =
    Decodes-if P _ _ _ (λ e. decoded (h b (same (length b) raw e))) (λ _. refused (inl refl))
exactly_bounds z P raw (err e) h = refused (inl refl)

gunzip_bounds :
    (z : Compressors) (P : Bytes → Type 0) (r : Option GzipStream) (raw : ℕ)
    → ((d : Bytes) → raw ≡ length d → P d)
    → Decodes P (gunzip r raw)
gunzip_bounds z P none raw h = refused (inl refl)
gunzip_bounds z P (some r) raw h = exactly_bounds z P raw (read_limited r (raw + 1)) h

bounded :
    (m : ℤ) (raw k : ℕ)
    → pos 0 <ℤ m
    → pos_part m < 9223372036854775808
    → ltb (to_uint64 m) raw ≡ false
    → raw ≡ k
    → pos k ≤ℤ m
bounded m raw k p limit h e = ground arith

sized : (m n : ℕ) → not (m == n) ≡ false → m ≡ n
sized m n h = ground arith

module _ (z : Compressors) (c : Config) (n : IsNormal c) (limit : IsInt64Limit c) where
  abbrev Good : Bytes → Option CompressedInfo → Bytes → Type 0
  Good b info d = Within c d × HasRawSize b info d

  abbrev Announced : Bytes → ℕ → Option CompressedInfo → Bytes → Type 0
  Announced b size info d =
      (length b ≡ size) × (pos (length d) ≤ℤ c.max_decoded_bytes) × HasRawSize b info d

  -- A raw size that is not above the limit bounds what has exactly that size.
  raw-Within :
      (b : Bytes) (raw : ℕ)
      → ltb (to_uint64 c.max_decoded_bytes) raw ≡ false
      → raw ≡ length b
      → Within c b
  raw-Within b raw h e = bounded c.max_decoded_bytes raw (length b) n.decoded limit h e

  abbrev Sized : Option ℕ → Bytes → Type 0
  Sized raw d = Within c d × (raw ≡ some (length d))

  decode_raw_bounds : (b : Bytes) (raw : Option ℕ) → Decodes (Sized raw) (decode_raw z b raw c)
  decode_raw_bounds b none = refused (inl refl)
  decode_raw_bounds b (some raw) =
      Decodes-if (Sized (some raw)) (raw == 0) _ _ (λ _. refused (inl refl))
        λ _.
          Decodes-if (Sized (some raw)) (ltb (to_uint64 c.max_decoded_bytes) raw) _ _
            (λ _. refused (inr refl))
            λ h.
              let fit : (d : Bytes) → raw ≡ length d → Sized (some raw) d =
                λ d e. (raw-Within d raw h e, ap some e) in
              Decodes-if (Sized (some raw)) (c.compression_codec == compression_lz4) _ _
                (λ _. exactly_bounds z _ raw (z.uncompress_block b raw) fit)
                (λ _. gunzip_bounds z _ (z.gzip_reader b) raw fit)

  Decodes-mono :
      (P Q : Bytes → Type 0) (r : Except Bytes)
      → ((d : Bytes) → P d → Q d)
      → Decodes P r
      → Decodes Q r
  Decodes-mono P Q _ h (decoded {d = d} k) = decoded (h d k)
  Decodes-mono P Q _ h (refused k) = refused k

  decode_by_bounds :
      (b : Bytes) (info : Option CompressedInfo) → Decodes (Good b info) (decode_by z b info c)
  decode_by_bounds b none = decode_plain_bounds z b c
  decode_by_bounds b (some info) = by_flag info.enabled info.raw_size
    where
      by_flag :
          (e : Bool) (raw : Option ℕ)
          → Decodes
              (λ d. Within c d × (if e then raw ≡ some (length d) else d ≡ b))
              (if not e then decode_plain b c else decode_raw z b raw c)
      by_flag true raw = decode_raw_bounds b raw
      by_flag false raw = decode_plain_bounds z b c

  -- `decode` accepts a payload only if it has exactly the announced size. It returns at most the configured
  -- number of bytes: the payload itself, or exactly the announced raw number of bytes where the metadata say that
  -- the payload is compressed. It refuses by DataLoss or ResourceExhausted alone. This holds for a normal
  -- configuration with a 64-bit limit, whatever the decompressors do.
  pub decode_bounds :
      (b : Bytes) (size : ℕ) (info : Option CompressedInfo)
      → Decodes
          (λ d. (length b ≡ size) × (pos (length d) ≤ℤ c.max_decoded_bytes) × HasRawSize b info d)
          (decode z b size info c)
  unfolding decode
  decode_bounds b size info =
      Decodes-if (Announced b size info) _ _ _ (λ _. refused (inl refl))
        (λ h.
          Decodes-mono _ (Announced b size info) _ (λ d k. (sized (length b) size h, k.0, k.1))
            (decode_by_bounds b info))
