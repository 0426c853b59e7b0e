-- ===== src/Config/Normal.antt =====
-- What `normalizeConfig` of client.go accepts and returns.
use hurricache_go_client.Prelude.{
  ℤ, pos, ◌≡◌, refl, ◌≤ℤ◌, ◌<ℤ◌, Bool, false, subst, arith, ◌≤◌, if◌then◌else◌, ◌||◌,
}
use hurricache_go_client.Errors.{Error, ok, err, status, invalid_argument}
use hurricache_go_client.Config.{
  Config, IsNormal, normalize_config, with_defaults, unknown_codec, negative_threshold,
  negative_limits, or_default, second, is_negative, threshold_or_default, default_max_request_bytes,
  default_max_decoded_bytes,
}

record Accepted (c : Config) : Type 0 where
  codec : unknown_codec c ≡ false
  threshold : negative_threshold c ≡ false
  limits : negative_limits c ≡ false

three_guards :
    (p q r : Bool) (e : Error) (c d : Config)
    → (if p then err e else if q then err e else if r then err e else ok c) ≡ ok d
    → (p ≡ false) × (q ≡ false) × (r ≡ false) × (c ≡ d)
three_guards p q r e c d h = ground arith

accepted : (c d : Config) → normalize_config c ≡ ok d → Accepted c × (with_defaults c ≡ d)
unfolding normalize_config
accepted c d h =
    let g =
      three_guards (unknown_codec c) (negative_threshold c) (negative_limits c)
        (status invalid_argument) (with_defaults c) d h in
    (record { codec = g.0; threshold = g.1; limits = g.2 }, g.3)

or_default_pos : (a d : ℤ) → is_negative a ≡ false → pos 0 <ℤ d → pos 0 <ℤ or_default a d
or_default_pos a d h k = ground arith

or_default_id : (a d : ℤ) → pos 0 <ℤ a → or_default a d ≡ a
or_default_id a d h = ground arith

not_negative : (a : ℤ) → is_negative a ≡ false → pos 0 ≤ℤ a
not_negative a h = ground arith

not_unknown : (c : Config) → unknown_codec c ≡ false → c.compression_codec ≤ 1
not_unknown c h = ground arith

four_tests :
    (p q r s : Bool)
    → (p || q || r || s) ≡ false
    → (p ≡ false) × (q ≡ false) × (r ≡ false) × (s ≡ false)
four_tests p q r s h = ground arith

four_pass :
    (p q r s : Bool) → p ≡ false → q ≡ false → r ≡ false → s ≡ false → (p || q || r || s) ≡ false
four_pass p q r s = ground arith

with_defaults-IsNormal : (c : Config) → Accepted c → IsNormal (with_defaults c)
unfolding with_defaults
with_defaults-IsNormal c a =
    let t =
      four_tests (is_negative c.timeout) (is_negative c.default_ttl)
        (is_negative c.max_request_bytes) (is_negative c.max_decoded_bytes) a.limits in
    record {
      codec = not_unknown c a.codec;
      present = refl;
      threshold = not_negative (threshold_or_default c.compression_threshold) a.threshold;
      timeout = or_default_pos c.timeout _ t.0 (omega arith);
      ttl = not_negative c.default_ttl t.1;
      request = or_default_pos c.max_request_bytes _ t.2 (omega arith);
      decoded = or_default_pos c.max_decoded_bytes _ t.3 (omega arith);
    }

-- A configuration that `normalize_config` returns is normal: it has a known codec, a present and
-- non-negative threshold and TTL, and a positive timeout and positive limits.
pub normalize_config-IsNormal : (c d : Config) → normalize_config c ≡ ok d → IsNormal d
normalize_config-IsNormal c d h =
    let (a, e) = accepted c d h in subst IsNormal e (with_defaults-IsNormal c a)

with_defaults_id : (d : Config) → IsNormal d → with_defaults d ≡ d
unfolding with_defaults
with_defaults_id d n = cc (
  n.present,
  or_default_id d.timeout second n.timeout,
  or_default_id d.max_request_bytes default_max_request_bytes n.request,
  or_default_id d.max_decoded_bytes default_max_decoded_bytes n.decoded,
)

three_pass :
    (p q r : Bool) (e : Error) (c d : Config)
    → p ≡ false
    → q ≡ false
    → r ≡ false
    → c ≡ d
    → (if p then err e else if q then err e else if r then err e else ok c) ≡ ok d
three_pass p q r e c d = ground arith

known : (c : Config) → c.compression_codec ≤ 1 → unknown_codec c ≡ false
known c h = ground arith

non_negative : (a : ℤ) → pos 0 ≤ℤ a → is_negative a ≡ false
non_negative a h = ground arith

-- A normal configuration is accepted and returned unchanged.
pub normalize_config_id : (d : Config) → IsNormal d → normalize_config d ≡ ok d
unfolding normalize_config
normalize_config_id d n =
    three_pass (unknown_codec d) (negative_threshold d) (negative_limits d)
      (status invalid_argument) (with_defaults d) d (known d n.codec) (non_negative _ n.threshold)
      (four_pass _ _ _ _ (non_negative d.timeout (omega arith)) (non_negative _ n.ttl)
        (non_negative d.max_request_bytes (omega arith))
        (non_negative d.max_decoded_bytes (omega arith)))
      (with_defaults_id d n)
