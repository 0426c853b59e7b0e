-- ===== src/Config.antt =====
-- `Config` and `normalizeConfig` of client.go. TLS settings and dial options, which only the gRPC
-- library reads, are left out. `int` and `time.Duration` are 64-bit; no arithmetic is made on them here.
pub mod Normal
use hurricache_go_client.Prelude.{
  ℕ, suc, ℤ, pos, negsuc, ltb_ℤ, is_zero, ◌≡◌, refl, ◌≤ℤ◌, ◌<ℤ◌, pos_part, neg_part, ◌+◌, ◌≤◌, ◌<◌,
  Bool, true, false, ◌&&◌, ◌||◌, not, Option, none, some, ◌==◌, if◌then◌else◌, arith,
}
use hurricache_go_client.Errors.{Except, ok, err, Error, status, Code, invalid_argument}

abbrev pub default_max_request_bytes : ℤ
default_max_request_bytes = pos 3670016

abbrev pub default_max_decoded_bytes : ℤ
default_max_decoded_bytes = pos 67108864

-- `CompressionCodec` is a byte: 0 is GZIP, 1 is LZ4.
abbrev pub compression_gzip : ℕ
compression_gzip = 0

abbrev pub compression_lz4 : ℕ
compression_lz4 = 1

-- A second in nanoseconds.
abbrev pub second : ℤ
second = pos 1000000000

pub record Config : Type 0 where
  pub client_id : ℕ
  pub timeout : ℤ
  pub default_ttl : ℤ
  pub compression_threshold : Option ℤ
  pub compression_codec : ℕ
  pub max_request_bytes : ℤ
  pub max_decoded_bytes : ℤ

abbrev pub is_negative : ℤ → Bool
is_negative a = ltb_ℤ a (pos 0)

-- The threshold, 1024 bytes if nil.
abbrev pub threshold_or_default : Option ℤ → ℤ
threshold_or_default none = pos 1024
threshold_or_default (some t) = t

abbrev pub or_default : ℤ → ℤ → ℤ
or_default a d = if is_zero a then d else a

-- The three refusals, in the order of the code.
abbrev pub unknown_codec : Config → Bool
unknown_codec c =
    not (c.compression_codec == compression_gzip) && not (c.compression_codec == compression_lz4)

abbrev pub negative_threshold : Config → Bool
negative_threshold c = is_negative (threshold_or_default c.compression_threshold)

abbrev pub negative_limits : Config → Bool
negative_limits c =
    is_negative c.timeout
    || is_negative c.default_ttl
    || is_negative c.max_request_bytes
    || is_negative c.max_decoded_bytes

unfoldable pub with_defaults : Config → Config
with_defaults c = record c {
  compression_threshold = some (threshold_or_default c.compression_threshold);
  timeout = or_default c.timeout second;
  max_request_bytes = or_default c.max_request_bytes default_max_request_bytes;
  max_decoded_bytes = or_default c.max_decoded_bytes default_max_decoded_bytes;
}

unfoldable pub normalize_config : Config → Except Config
normalize_config c =
    if unknown_codec c
    then err (status invalid_argument)
    else if negative_threshold c
    then err (status invalid_argument)
    else if negative_limits c
    then err (status invalid_argument)
    else ok (with_defaults c)

-- What a client may rely on: a known codec, a threshold, and limits that are positive.
pub record IsNormal (c : Config) : Type 0 where
  pub codec : c.compression_codec ≤ 1
  pub present : c.compression_threshold ≡ some (threshold_or_default c.compression_threshold)
  pub threshold : pos 0 ≤ℤ threshold_or_default c.compression_threshold
  pub timeout : pos 0 <ℤ c.timeout
  pub ttl : pos 0 ≤ℤ c.default_ttl
  pub request : pos 0 <ℤ c.max_request_bytes
  pub decoded : pos 0 <ℤ c.max_decoded_bytes
