-- ===== src/Tests/Examples.antt =====
-- The theorems at concrete inputs.
use hurricache_go_client.Prelude.{
  ℕ, pos, ◌+◌, ◌*◌, ◌-◌, ◌%◌, ◌≤◌, ◌<◌, ◌≤ℤ◌, length, ◌≡◌, ◌⊎◌, inl, refl, true, false, Option,
  none, some, List, [], ◌∷◌, arith, ◌==◌, if◌then◌else◌,
}
use hurricache_go_client.Errors.{ok, err, Ret, status, unavailable, invalid_argument, out_of_range}
use hurricache_go_client.Types.{no_payload, Payload, lb_smart}
use hurricache_go_client.Config.{IsNormal, normalize_config, with_defaults}
use hurricache_go_client.Config.Normal.{normalize_config-IsNormal, normalize_config_id}
use hurricache_go_client.Codec.{
  encode, decode, uint32_mod, encode_value_policy, decode_value, encode_ordered, decode_ordered,
  value_of, ordered_of,
}
use hurricache_go_client.Codec.RoundTrip.{decode-encode}
use hurricache_go_client.Codec.Bounds.{Decodes, HasRawSize, decode_bounds}
use hurricache_go_client.Codec.Values.{
  received, decode_value-encode_value_policy, decode_ordered-encode_ordered,
}
use hurricache_go_client.Wire.{CompressedInfo}
use hurricache_go_client.World.{Step}
use hurricache_go_client.Rpc.{Stub}
use hurricache_go_client.Session.{direct_run}
use hurricache_go_client.Session.Limits.{AllWithin}
use hurricache_go_client.Session.Refusals.{PerformOutcome, perform-PerformOutcome}
use hurricache_go_client.Operations.Times.{ttl_result, lock_expiration, unix_milli, max_uint32}
use hurricache_go_client.Operations.Times.Bounds.{
  FitsInt64, remaining_time, ttl_result_exact, lock_end, lock_expiration_exact,
}
use hurricache_go_client.Collections.Split.{split}
use hurricache_go_client.Collections.Split.Outcome.{SplitOutcome, split-SplitOutcome}
use hurricache_go_client.Smart.Routing.{
  View, Topology, ready, attempt, pick, shard_of, find_route, smart_run, master_node, backup_node,
}
use hurricache_go_client.Smart.Routing.Attempts.{Attempted, attempt-Attempted}
use hurricache_go_client.Smart.Routing.Choice.{ChosenFrom, pick-ChosenFrom}
use hurricache_go_client.Interface.Run.{run_operation}
use hurricache_go_client.Interface.{add_element_to_tail}
use hurricache_go_client.Interface.Bounded.{
  run_operation-direct_AllWithin, run_operation-smart_AllWithin,
}
use hurricache_go_client.Tests.{
  copying, copying-IsInverse, small_config, small_config-IsNormal, no_options, forever, server,
  start,
}

-- One shard with its master 3 and its backup 4.
abbrev pub topology : Topology
topology = record {
  shards = 1;
  routes =
      (record { shard = 0; role = master_node }, 3)
      ∷ (record { shard = 0; role = backup_node }, 4)
      ∷ [];
  targets = [];
}

abbrev pub view : View
view = record {
  life_done = λ t. false;
  wait = λ t. ready;
  closed = λ t. false;
  snapshot = λ t. topology;
  round = λ t. t;
  coin = λ t. true;
}

-- The master is down.
abbrev flaky : Stub → Step (Ret ℕ)
flaky ep w = ((if ep == 3 then (0, some (status unavailable)) else (5, none)), w)

abbrev three_values : List Payload
three_values =
    record no_payload { bytes = 1 ∷ [] } ∷ record no_payload { bytes = 2 ∷ [] } ∷ no_payload ∷ []

attempt-Attempted_example :
    Attempted view topology forever 3
      (some 4)
      flaky
      start
      (attempt view topology forever 3 (some 4) flaky start)
attempt-Attempted_example = attempt-Attempted view topology forever 3 (some 4) flaky start

decode-encode_example :
    decode copying
      (1 ∷ 2 ∷ 3 ∷ [])
      (3 % uint32_mod)
      (some (record { enabled = true; raw_size = some 3 }))
      small_config
    ≡ ok (1 ∷ 2 ∷ 3 ∷ [])
unfolding encode
decode-encode_example =
    decode-encode copying small_config (1 ∷ 2 ∷ 3 ∷ []) (1 ∷ 2 ∷ 3 ∷ []) true
      (some (record { enabled = true; raw_size = some 3 })) copying-IsInverse small_config-IsNormal
      (omega arith) (omega arith) (omega arith) refl

split-SplitOutcome_example :
    SplitOutcome
      (pos 10)
      (λ i j. 2 + 3 * (j - i))
      forever
      5
      (split (pos 10) (λ i j. 2 + 3 * (j - i)) forever 5 start).0
    × ((split (pos 10) (λ i j. 2 + 3 * (j - i)) forever 5 start).1.log ≡ [])
split-SplitOutcome_example = split-SplitOutcome (pos 10) (λ i j. 2 + 3 * (j - i)) forever 5 start

run_operation-direct_AllWithin_example :
    AllWithin server
      (pos 100)
      (run_operation server
        (direct_run server 3)
        small_config
        forever
        (1 ∷ [])
        no_options
        (add_element_to_tail three_values)
        start).1.log
run_operation-direct_AllWithin_example =
    run_operation-direct_AllWithin server small_config forever (1 ∷ []) no_options
      (add_element_to_tail three_values) start 3 tt

run_operation-smart_AllWithin_example :
    AllWithin server
      (pos 100)
      (run_operation server
        (smart_run view lb_smart)
        small_config
        forever
        (1 ∷ [])
        no_options
        (add_element_to_tail three_values)
        start).1.log
run_operation-smart_AllWithin_example =
    run_operation-smart_AllWithin server small_config forever (1 ∷ []) no_options
      (add_element_to_tail three_values) start view lb_smart tt

perform-PerformOutcome_example :
    PerformOutcome server
      (direct_run server 3)
      ℕ
      0
      small_config
      forever
      (1 ∷ [])
      no_options
      true
      (λ s w. ((1, none), w))
      start
perform-PerformOutcome_example =
    perform-PerformOutcome server (direct_run server 3) ℕ 0 small_config forever (1 ∷ []) no_options
      true (λ s w. ((1, none), w)) start

decode_bounds_example :
    Decodes
      (λ d.
        (length {A = ℕ} (1 ∷ 2 ∷ []) ≡ 2)
        × (pos (length d) ≤ℤ pos 1000)
        × HasRawSize (1 ∷ 2 ∷ []) none d)
      (decode copying (1 ∷ 2 ∷ []) 2 none small_config)
decode_bounds_example =
    decode_bounds copying small_config small_config-IsNormal (omega arith) (1 ∷ 2 ∷ []) 2 none

abbrev pair_payload : Payload
pair_payload = record no_payload { bytes = 1 ∷ 2 ∷ [] }

abbrev pair_info : Option CompressedInfo
pair_info = some (record { enabled = true; raw_size = some 2 })

decode_value-encode_value_policy_example :
    decode_value copying
      (some (value_of pair_payload (some 9) (1 ∷ 2 ∷ [], pair_info)))
      small_config
    ≡ ok (some (received pair_payload (some 9) pair_info))
unfolding encode_value_policy encode
decode_value-encode_value_policy_example =
    decode_value-encode_value_policy copying small_config copying-IsInverse small_config-IsNormal
      (omega arith) pair_payload (some 9) true
      (value_of pair_payload (some 9) (1 ∷ 2 ∷ [], pair_info)) (omega arith) (omega arith) refl

decode_ordered-encode_ordered_example :
    decode_ordered copying
      (some
        (ordered_of (record { payload = pair_payload; order = none }) none (1 ∷ 2 ∷ [], pair_info)))
      small_config
    ≡ ok (some (record { payload = received pair_payload none pair_info; order = some 0 }))
unfolding encode_ordered encode
decode_ordered-encode_ordered_example =
    decode_ordered-encode_ordered copying small_config copying-IsInverse small_config-IsNormal
      (omega arith) (record { payload = pair_payload; order = none }) none
      (ordered_of (record { payload = pair_payload; order = none }) none (1 ∷ 2 ∷ [], pair_info))
      (omega arith) (omega arith) refl

pick-ChosenFrom_example :
    ChosenFrom (some 3) (some 4) (pick view lb_smart topology no_options false 6 true)
unfolding find_route shard_of
pick-ChosenFrom_example =
    pick-ChosenFrom view topology no_options 6 lb_smart false true refl refl (inl (3, refl))

ttl_result_exact_example :
    (FitsInt64 (remaining_time 90 40)
      × (ttl_result (some 90) 40 ≡ (
        record { remaining = some (remaining_time 90 40); expires_at_millis = some 90 },
        none,
      )))
    ⊎ ((¬ FitsInt64 (remaining_time 90 40))
        × (ttl_result (some 90) 40 ≡ (
          record { remaining = none; expires_at_millis = some 90 },
          some (status out_of_range),
        )))
ttl_result_exact_example = ttl_result_exact 90 40 (omega arith)

lock_expiration_exact_example :
    ((lock_end 5000 (pos 2000000000) ≤ max_uint32)
      × (lock_expiration 5000 (pos 2000000000) ≡ ok (some (lock_end 5000 (pos 2000000000))))
      × (lock_end 5000 (pos 2000000000) * 1000 ≤ unix_milli 5000 + 2000)
      × (unix_milli 5000 + 2000 < lock_end 5000 (pos 2000000000) * 1000 + 1000))
    ⊎ ((max_uint32 < lock_end 5000 (pos 2000000000))
        × (lock_expiration 5000 (pos 2000000000) ≡ err (status invalid_argument)))
lock_expiration_exact_example = lock_expiration_exact 5000 1999999999

normalize_config-IsNormal_example : IsNormal small_config
unfolding normalize_config with_defaults
normalize_config-IsNormal_example =
    normalize_config-IsNormal (record small_config { timeout = pos 0 }) small_config refl

normalize_config_id_example : normalize_config small_config ≡ ok small_config
normalize_config_id_example = normalize_config_id small_config small_config-IsNormal
