-- ===== src/Errors.antt =====
-- The errors of client.go: gRPC statuses, `RPCError`, `PartialError`, `partial` and `hasPartial`.
-- Messages and status details are left out. An error made outside the repository is its status
-- code, which is all that the code here asks of it.
pub mod Guards
pub mod Laws
use hurricache_go_client.Prelude.{ℕ, zero, suc, Bool, true, false, Option, none, some, List, String}

pub data Code : Type 0 where
  canceled unknown invalid_argument deadline_exceeded : Code
  resource_exhausted failed_precondition aborted out_of_range : Code
  internal unavailable data_loss : Code
  other : ℕ → Code

-- `rpc` carries the values of the trailer `x-fastcache-route`, the one trailer that the code reads.
-- `partial_error chunks items err`.
pub data Error : Type 0 where
  status : Code → Error
  foreign : Code → Error
  rpc : Error → List String → Error
  partial_error : ℕ → ℕ → Error → Error

-- `status.Code(err)`: a wrapper answers by its `GRPCStatus` method.
unfoldable pub status_code : Error → Code
status_code (status c) = c
status_code (foreign c) = c
status_code (rpc e routes) = status_code e
status_code (partial_error chunks items e) = status_code e

-- What `context.Context.Err` returns.
pub data CtxErr : Type 0 where
  ctx_canceled ctx_deadline : CtxErr

-- `status.FromContextError(err).Err()`.
abbrev pub from_context_error : CtxErr → Error
from_context_error ctx_canceled = status canceled
from_context_error ctx_deadline = status deadline_exceeded

unfoldable pub partial : ℕ → ℕ → Option Error → Option Error
partial chunks items none = none
partial zero items (some e) = some e
partial (suc chunks) items (some e) = some (partial_error (suc chunks) items e)

-- `errors.As(err, **PartialError)`, along `Unwrap`.
unfoldable pub has_partial : Error → Bool
has_partial (status c) = false
has_partial (foreign c) = false
has_partial (rpc e routes) = has_partial e
has_partial (partial_error chunks items e) = true

-- The trailers of the first `RPCError` along `Unwrap`, as `errors.As(err, **RPCError)` finds it.
unfoldable pub as_rpc : Error → Option (List String)
as_rpc (status c) = none
as_rpc (foreign c) = none
as_rpc (rpc e routes) = some routes
as_rpc (partial_error chunks items e) = as_rpc e

abbrev pub is_failed_precondition : Code → Bool
is_failed_precondition failed_precondition = true
is_failed_precondition _ = false

abbrev pub is_unavailable : Code → Bool
is_unavailable unavailable = true
is_unavailable _ = false

-- A function that returns its zero value beside each error.
pub data Except {ℓ} (A : Type ℓ) : Type ℓ where
  ok : A → Except A
  err : Error → Except A

infixl 5 ◌>>=◌
abbrev pub ◌>>=◌ {ℓ κ} : {A : Type ℓ} {B : Type κ} → Except A → (A → Except B) → Except B
ok a >>= f = f a
err e >>= f = err e

-- A pair `(value, error)` whose value counts beside an error too.
abbrev pub Ret {ℓ} : Type ℓ → Type ℓ
Ret A = A × Option Error

abbrev pub to_ret {ℓ} : {A : Type ℓ} → A → Except A → Ret A
to_ret z (ok a) = (a, none)
to_ret z (err e) = (z, some e)
