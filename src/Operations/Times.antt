-- ===== src/Operations/Times.antt =====
-- operations.go: expirations and locks, whose requests carry times.
pub mod Bounds
use hurricache_go_client.Prelude.{
  ℕ, ℤ, pos, negsuc, pos_part, ltb_ℤ, ltb, sub_ℕ, scale, is_zero, ◌+◌, ◌/◌, Bool, true, false, not,
  ◌||◌, Option, none, some, if◌then◌else◌,
}
use hurricache_go_client.Errors.{Except, ok, err, Ret, Code, status, invalid_argument, out_of_range}
use hurricache_go_client.Types.{
  Bytes, Options, TtlResult, LockResult, LockType, no_lock, write_lock, read_lock, global_lock,
  other_lock, lock_ok,
}
use hurricache_go_client.Wire.{TtlResponse}
use hurricache_go_client.Codec.{copy_ptr}
use hurricache_go_client.Config.{Config, is_negative}
use hurricache_go_client.Rpc.{Method, Request, Response}
use hurricache_go_client.Rpc
use hurricache_go_client.World.{
  ◌>>◌, Ctx, Environment, World, Step, Exec, observe, lift, ◌>>=◌, or_return, give, return_ok,
}
use hurricache_go_client.Session.{Session, Backend, unary, perform}
use hurricache_go_client.Operations.{zero_result, zero_update, get_request}

-- `math.MaxInt64`, `math.MaxUint32`, and the largest duration in whole milliseconds.
abbrev pub max_int64 : ℕ
max_int64 = 9223372036854775807

abbrev pub max_uint32 : ℕ
max_uint32 = 4294967295

abbrev pub max_milliseconds : ℕ
max_milliseconds = 9223372036854

-- `time.Time.UnixMilli` of a time in nanoseconds.
abbrev pub unix_milli : ℕ → ℕ
unix_milli ns = ns / 1000000

-- Whether `int64(ttl) - now` milliseconds fail to fit a `time.Duration`.
abbrev pub ttl_out_of_range : ℕ → ℕ → Bool
ttl_out_of_range ttl now =
    ltb max_int64 ttl
    || ltb_ℤ (pos max_milliseconds) (sub_ℕ ttl now)
    || ltb_ℤ (sub_ℕ ttl now) (scale (negsuc 0) max_milliseconds)

unfoldable pub ttl_result : Option ℕ → ℕ → Ret TtlResult
ttl_result none now = (record { remaining = none; expires_at_millis = none }, none)
ttl_result (some ttl) now =
    if ttl_out_of_range ttl now
    then (record { remaining = none; expires_at_millis = some ttl }, some (status out_of_range))
    else (
      record { remaining = some (scale (sub_ℕ ttl now) 1000000); expires_at_millis = some ttl },
      none,
    )

abbrev pub is_lock_type : LockType → Bool
is_lock_type (other_lock n) = false
is_lock_type _ = true

-- The absolute second at which a lock ends, none for a duration of zero.
unfoldable pub lock_expiration : ℕ → ℤ → Except (Option ℕ)
lock_expiration now duration =
    let seconds = (unix_milli now + pos_part duration / 1000000) / 1000 in
    if is_zero duration
    then ok none
    else if ltb max_uint32 seconds
    then err (status invalid_argument)
    else ok (some seconds)

abbrev zero_ttl : TtlResult
zero_ttl = record { remaining = none; expires_at_millis = none }

abbrev zero_lock : LockResult
zero_lock = record { status = lock_ok }

module _ (env : Environment) (backend : Backend) (c : Config) (ctx : Ctx) (key : Bytes) where
  abbrev ttl_now : TtlResponse → Step (Ret TtlResult)
  ttl_now r w = elim r.ttl [
    | none ↦ (ttl_result none 0, w)
    | some t ↦ (let (now, w') = observe env.now w in (ttl_result (some t) (unix_milli now), w'))
  ]

  abbrev now_plus : ℤ → Exec ℕ
  now_plus ttl w = let (now, w') = observe env.now w in (ok ((now + pos_part ttl) / 1000000), w')

  abbrev check_duration : ℤ → Except (Unit {0})
  check_duration ttl = if is_negative ttl then err (status invalid_argument) else ok tt

  unfoldable pub set_ttl : ℤ → Options → Step (Ret Bool)
  set_ttl ttl o = perform env backend Bool false c ctx key o true λ s.
      or_return false
        (do
          lift (check_duration ttl)
          t ← now_plus ttl
          unary env s Rpc.set_ttl (record { key = s.key; ttl = some t }))
        λ r. return_ok r.value

  unfoldable pub get_ttl : Options → Step (Ret TtlResult)
  get_ttl o =
      perform env backend TtlResult zero_ttl c ctx key o false
        λ s. or_return zero_ttl (unary env s Rpc.get_ttl (get_request s)) λ r. ttl_now r

  abbrev check_lock : LockType → ℤ → Except (Unit {0})
  check_lock kind duration =
      if not (is_lock_type kind) || is_negative duration
      then err (status invalid_argument)
      else ok tt

  abbrev lock_until : ℤ → Exec (Option ℕ)
  lock_until duration w =
      if is_zero duration
      then (ok none, w)
      else (let (now, w') = observe env.now w in (lock_expiration now duration, w'))

  unfoldable pub lock_object : LockType → ℤ → Options → Step (Ret LockResult)
  lock_object kind duration o = perform env backend LockResult zero_lock c ctx key o true λ s.
      or_return zero_lock
        (do
          lift (check_lock kind duration)
          t ← lock_until duration
          unary env s Rpc.lock_object (record {
            key = s.key;
            lock_type = kind;
            client_id = copy_ptr s.key.client_id;
            lock_duration = t;
          }))
        λ r. return_ok (record { status = r.result })

  unfoldable pub unlock_object : Options → Step (Ret LockResult)
  unlock_object o = perform env backend LockResult zero_lock c ctx key o true λ s.
      or_return zero_lock
        (unary env s Rpc.unlock_object
          (record { key = s.key; client_id = copy_ptr s.key.client_id }))
        λ r. return_ok (record { status = r.result })
