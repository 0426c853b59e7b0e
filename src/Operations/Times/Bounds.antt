-- ===== src/Operations/Times/Bounds.antt =====
-- operations.go: the arithmetic of `GetTTL` and `LockObject` neither wraps nor refuses in vain.
use hurricache_go_client.Prelude.{
  ℕ, suc, ℤ, pos, pos_part, neg_part, sub_ℕ, scale, ◌+◌, ◌*◌, ◌/◌, ◌≤◌, ◌<◌, ◌≡◌, true, false, none,
  some, Bool-cases, inl, inr, ◌⊎◌, arith, ltb→lt, ltb,
}
use hurricache_go_client.Errors.{ok, err, status, invalid_argument, out_of_range}
use hurricache_go_client.Operations.Times.{
  max_int64, max_uint32, unix_milli, ttl_out_of_range, ttl_result, lock_expiration,
}

-- A value of Go's `int64`.
abbrev pub FitsInt64 : ℤ → Type 0
FitsInt64 d = (pos_part d ≤ max_int64) × (neg_part d ≤ max_int64 + 1)

-- The remaining time in nanoseconds, without any bound.
abbrev pub remaining_time : ℕ → ℕ → ℤ
remaining_time ttl now = scale (sub_ℕ ttl now) 1000000

in_range :
    (ttl now : ℕ)
    → now < 4611686018427387904
    → ttl_out_of_range ttl now ≡ false
    → FitsInt64 (remaining_time ttl now)
in_range ttl now h k = ground arith

not_in_range :
    (ttl now : ℕ)
    → now < 4611686018427387904
    → ttl_out_of_range ttl now ≡ true
    → FitsInt64 (remaining_time ttl now)
    → ⊥
not_in_range ttl now h k f = ground arith

-- For a clock below 2^62 milliseconds, the remaining time of a present expiration is returned exactly
-- when it fits an `int64` number of nanoseconds, and it is then the exact product; otherwise the
-- answer is OutOfRange. The expiration itself is returned in both cases.
pub ttl_result_exact :
    (ttl now : ℕ)
    → now < 4611686018427387904
    → (FitsInt64 (remaining_time ttl now)
        × (ttl_result (some ttl) now ≡ (
          record { remaining = some (remaining_time ttl now); expires_at_millis = some ttl },
          none,
        )))
      ⊎ ((¬ FitsInt64 (remaining_time ttl now))
          × (ttl_result (some ttl) now ≡ (
            record { remaining = none; expires_at_millis = some ttl },
            some (status out_of_range),
          )))
unfolding ttl_result
ttl_result_exact ttl now h = elim (Bool-cases (ttl_out_of_range ttl now)) [
  | inl e ↦ inr (not_in_range ttl now h e, rw e)
  | inr e ↦ inl (in_range ttl now h e, rw e)
]

-- The end of the lock as `LockObject` computes it, in whole seconds.
abbrev pub lock_end : ℕ → ℤ → ℕ
lock_end now duration = (unix_milli now + pos_part duration / 1000000) / 1000

-- A lock of a positive duration is refused exactly when its end does not fit 32 bits; otherwise the
-- request carries the second that is reached when the duration's whole milliseconds have passed.
pub lock_expiration_exact :
    (now d : ℕ)
    → ((lock_end now (pos (suc d)) ≤ max_uint32)
        × (lock_expiration now (pos (suc d)) ≡ ok (some (lock_end now (pos (suc d)))))
        × (lock_end now (pos (suc d)) * 1000 ≤ unix_milli now + suc d / 1000000)
        × (unix_milli now + suc d / 1000000 < lock_end now (pos (suc d)) * 1000 + 1000))
      ⊎ ((max_uint32 < lock_end now (pos (suc d)))
          × (lock_expiration now (pos (suc d)) ≡ err (status invalid_argument)))
unfolding lock_expiration
lock_expiration_exact now d = elim (Bool-cases (ltb max_uint32 (lock_end now (pos (suc d))))) [
  | inl e ↦ inr (ltb→lt _ _ e, ground arith)
  | inr e ↦ inl (ground arith, ground arith, omega arith, omega arith)
]
