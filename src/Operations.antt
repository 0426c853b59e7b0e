-- ===== src/Operations.antt =====
-- operations.go: the operations on scalars, on the ends of a sequence, and on atomic values. The
-- other operations of that file are in the child modules.
pub mod Values
pub mod Times
use hurricache_go_client.Prelude.{ℕ, ℤ, pos, Bool, true, false, Option, none, some}
use hurricache_go_client.Errors.{Ret}
use hurricache_go_client.Types.{
  Bytes, KeyHint, Options, ValueResult, UpdateResult, AtomicResult, CasResult,
}
use hurricache_go_client.Wire.{
  GetRequest, BoolResponse, IntResponse, ValueResponse, KeyHintResponse, AtomicValue, AtomicCreate,
  AtomicCas, AtomicCasRes,
}
use hurricache_go_client.Config.{Config}
use hurricache_go_client.Codec.{hint_go, copy_ptr}
use hurricache_go_client.Codec.Results.{decode_result, atomic_go}
use hurricache_go_client.Rpc.{Method, Request, Response}
use hurricache_go_client.Rpc
use hurricache_go_client.World.{Ctx, Environment, Step, or_return, give, return_ok}
use hurricache_go_client.Session.{Session, Backend, unary, perform}

abbrev pub zero_result : ValueResult
zero_result = record { value = none; ordered = none; hint = none }

abbrev pub zero_update : UpdateResult
zero_update = record { updated = false; previous = none }

abbrev pub zero_atomic : AtomicResult
zero_atomic = record { value = pos 0; hint = none }

abbrev pub zero_cas : CasResult
zero_cas = record { swapped = false; expected = none; hint = none }

abbrev pub get_request : Session → GetRequest
get_request s = record { key = s.key }

abbrev atomic_request : Session → ℤ → AtomicCreate
atomic_request s v = record {
  key = s.key;
  val = record { val = v; key_hint = none };
  ttl = copy_ptr s.ttl;
}

abbrev expected_value : Option AtomicValue → Option AtomicResult
expected_value none = none
expected_value (some v) = some (atomic_go v)

module _ (env : Environment) (backend : Backend) (c : Config) (ctx : Ctx) (key : Bytes) where
  unfoldable pub get_value : Options → Step (Ret ValueResult)
  get_value o = perform env backend ValueResult zero_result c ctx key o false λ s.
      or_return zero_result (unary env s Rpc.get_value (get_request s))
        λ r. give (decode_result env.compressors r s.config)

  unfoldable pub get_and_delete_value : Options → Step (Ret ValueResult)
  get_and_delete_value o = perform env backend ValueResult zero_result c ctx key o true λ s.
      or_return zero_result (unary env s Rpc.get_and_delete_value (get_request s))
        λ r. give (decode_result env.compressors r s.config)

  unfoldable pub exist_key : Options → Step (Ret Bool)
  exist_key o =
      perform env backend Bool false c ctx key o false
        λ s. or_return false (unary env s Rpc.exist_key (get_request s)) λ r. return_ok r.value

  -- `Remove` is dispatched as a read.
  unfoldable pub remove : Options → Step (Ret Bool)
  remove o =
      perform env backend Bool false c ctx key o false
        λ s. or_return false (unary env s Rpc.remove (get_request s)) λ r. return_ok r.value

  unfoldable pub get_size : Options → Step (Ret ℕ)
  get_size o =
      perform env backend ℕ 0 c ctx key o false
        λ s. or_return 0 (unary env s Rpc.get_size (get_request s)) λ r. return_ok r.size

  unfoldable pub get_front : Options → Step (Ret ValueResult)
  get_front o = perform env backend ValueResult zero_result c ctx key o false λ s.
      or_return zero_result (unary env s Rpc.get_head (get_request s))
        λ r. give (decode_result env.compressors r s.config)

  unfoldable pub get_head : Options → Step (Ret ValueResult)
  get_head o = perform env backend ValueResult zero_result c ctx key o false λ s.
      or_return zero_result (unary env s Rpc.get_head (get_request s))
        λ r. give (decode_result env.compressors r s.config)

  unfoldable pub get_tail : Options → Step (Ret ValueResult)
  get_tail o = perform env backend ValueResult zero_result c ctx key o false λ s.
      or_return zero_result (unary env s Rpc.get_tail (get_request s))
        λ r. give (decode_result env.compressors r s.config)

  unfoldable pub get_and_remove_front : Options → Step (Ret ValueResult)
  get_and_remove_front o = perform env backend ValueResult zero_result c ctx key o true λ s.
      or_return zero_result (unary env s Rpc.get_and_remove_front (get_request s))
        λ r. give (decode_result env.compressors r s.config)

  unfoldable pub get_and_remove_tail : Options → Step (Ret ValueResult)
  get_and_remove_tail o = perform env backend ValueResult zero_result c ctx key o true λ s.
      or_return zero_result (unary env s Rpc.get_and_remove_tail (get_request s))
        λ r. give (decode_result env.compressors r s.config)

  unfoldable pub remove_head : Options → Step (Ret Bool)
  remove_head o =
      perform env backend Bool false c ctx key o true
        λ s. or_return false (unary env s Rpc.remove_head (get_request s)) λ r. return_ok r.value

  unfoldable pub remove_tail : Options → Step (Ret Bool)
  remove_tail o =
      perform env backend Bool false c ctx key o true
        λ s. or_return false (unary env s Rpc.remove_tail (get_request s)) λ r. return_ok r.value

  unfoldable pub atomic_load : Options → Step (Ret AtomicResult)
  atomic_load o = perform env backend AtomicResult zero_atomic c ctx key o false λ s.
      or_return zero_atomic (unary env s Rpc.atomic_load (get_request s))
        λ r. return_ok (atomic_go r)

  unfoldable pub atomic_load_and_delete : Options → Step (Ret AtomicResult)
  atomic_load_and_delete o = perform env backend AtomicResult zero_atomic c ctx key o true λ s.
      or_return zero_atomic (unary env s Rpc.atomic_load_and_delete (get_request s))
        λ r. return_ok (atomic_go r)

  unfoldable pub atomic_create : ℤ → Options → Step (Ret (Option KeyHint))
  atomic_create value o = perform env backend (Option KeyHint) none c ctx key o true λ s.
      or_return none (unary env s Rpc.atomic_create (atomic_request s value))
        λ r. return_ok (hint_go r.key_hint)

  unfoldable pub atomic_store : ℤ → Options → Step (Ret (Option KeyHint))
  atomic_store value o = perform env backend (Option KeyHint) none c ctx key o true λ s.
      or_return none (unary env s Rpc.atomic_store (atomic_request s value))
        λ r. return_ok (hint_go r.key_hint)

  unfoldable pub atomic_exchange : ℤ → Options → Step (Ret AtomicResult)
  atomic_exchange value o = perform env backend AtomicResult zero_atomic c ctx key o true λ s.
      or_return zero_atomic (unary env s Rpc.atomic_exchange (atomic_request s value))
        λ r. return_ok (atomic_go r)

  unfoldable pub atomic_add : ℤ → Options → Step (Ret AtomicResult)
  atomic_add value o = perform env backend AtomicResult zero_atomic c ctx key o true λ s.
      or_return zero_atomic (unary env s Rpc.atomic_add (atomic_request s value))
        λ r. return_ok (atomic_go r)

  unfoldable pub atomic_sub : ℤ → Options → Step (Ret AtomicResult)
  atomic_sub value o = perform env backend AtomicResult zero_atomic c ctx key o true λ s.
      or_return zero_atomic (unary env s Rpc.atomic_sub (atomic_request s value))
        λ r. return_ok (atomic_go r)

  unfoldable pub atomic_or : ℤ → Options → Step (Ret AtomicResult)
  atomic_or value o = perform env backend AtomicResult zero_atomic c ctx key o true λ s.
      or_return zero_atomic (unary env s Rpc.atomic_or (atomic_request s value))
        λ r. return_ok (atomic_go r)

  unfoldable pub atomic_and : ℤ → Options → Step (Ret AtomicResult)
  atomic_and value o = perform env backend AtomicResult zero_atomic c ctx key o true λ s.
      or_return zero_atomic (unary env s Rpc.atomic_and (atomic_request s value))
        λ r. return_ok (atomic_go r)

  unfoldable pub atomic_xor : ℤ → Options → Step (Ret AtomicResult)
  atomic_xor value o = perform env backend AtomicResult zero_atomic c ctx key o true λ s.
      or_return zero_atomic (unary env s Rpc.atomic_xor (atomic_request s value))
        λ r. return_ok (atomic_go r)

  unfoldable pub atomic_compare_and_set : ℤ → ℤ → Options → Step (Ret CasResult)
  atomic_compare_and_set expected new_value o =
      perform env backend CasResult zero_cas c ctx key o true λ s.
        or_return zero_cas
          (unary env s Rpc.atomic_compare_and_set (record {
            key = s.key;
            expected = record { val = expected; key_hint = none };
            to_set = record { val = new_value; key_hint = none };
            ttl = copy_ptr s.ttl;
          }))
          λ r. return_ok (record {
            swapped = r.result;
            expected = expected_value r.expected;
            hint = hint_go r.key_hint;
          })
