-- ===== src/World.antt =====
-- What a call of the client observes and changes. Everything that other parties decide (contexts,
-- clocks, the server, the compressors, the size of a serialized message) is an environment over
-- which the theorems quantify; the client's own effects are the calls that it makes.
pub mod Laws
pub mod Keeps
use hurricache_go_client.Prelude.{ℕ, suc, ℤ, Bool, Option, none, some, List, [], ◌∷◌, ◌++◌}
use hurricache_go_client.Errors.{Except, ok, err, Error, CtxErr, Ret}
use hurricache_go_client.Rpc.{Message, Response, Call, Reply}
use hurricache_go_client.Codec.{Compressors}

-- `ctx.Err()` as a function of the moment.
abbrev pub Ctx : Type 0
Ctx = ℕ → Option CtxErr

-- `closed` tells whether the client's lifetime has ended, `elapsed d` whether the time-out `d` of
-- this call has run out, `now` the nanoseconds since 1970. The server answers by the history of the
-- calls, so that any stateful server, with any other clients, is a value of `respond`.
pub record Environment : Type 0 where
  pub closed : ℕ → Bool
  pub elapsed : ℤ → ℕ → Bool
  pub now : ℕ → ℕ
  pub proto_size : Message → ℕ
  pub respond : List Call → (c : Call) → Reply (Response c.method)
  pub compressors : Compressors

-- `tick` counts the observations made so far; `log` holds the calls made, oldest first; `wake` tells
-- whether a refresh of the topology has been asked for.
pub record World : Type 0 where
  pub tick : ℕ
  pub log : List Call
  pub wake : Bool

abbrev pub Step {ℓ} : Type ℓ → Type ℓ
Step A = World → A × World

-- A function with a result `(T, error)` whose value is zero beside an error.
abbrev pub Exec {ℓ} : Type ℓ → Type ℓ
Exec A = Step (Except A)

-- Look at something that changes with time.
abbrev pub observe {ℓ} : {A : Type ℓ} → (ℕ → A) → Step A
observe f w = (f w.tick, record w { tick = suc w.tick })

abbrev pub lift {ℓ} : {A : Type ℓ} → Except A → Exec A
lift r w = (r, w)

abbrev pub continue {ℓ κ} : {A : Type ℓ} {B : Type κ} → Except A → (A → Exec B) → Exec B
continue (ok a) f w = f a w
continue (err e) f w = (err e, w)

infixl 10 ◌>>=◌ ◌>>◌
unfoldable pub ◌>>=◌ {ℓ κ} : {A : Type ℓ} {B : Type κ} → Exec A → (A → Exec B) → Exec B
◌>>=◌ m f w = let (r, w') = m w in continue r f w'

abbrev pub ◌>>◌ {ℓ κ} : {A : Type ℓ} {B : Type κ} → Exec A → Exec B → Exec B
m >> n = m >>= λ _. n

abbrev pub continue_or {ℓ κ} :
    {A : Type ℓ} {B : Type κ} → B → Except A → (A → Step (Ret B)) → Step (Ret B)
continue_or z (ok a) f w = f a w
continue_or z (err e) f w = ((z, some e), w)

-- `a, e := m; if e != nil { return handler(e) }; f(a)`.
abbrev pub continue_handled {ℓ κ} :
    {A : Type ℓ} {B : Type κ} → (Error → Ret B) → Except A → (A → Step (Ret B)) → Step (Ret B)
continue_handled h (ok a) f w = f a w
continue_handled h (err e) f w = (h e, w)

unfoldable pub or_handle {ℓ κ} :
    {A : Type ℓ} {B : Type κ} → (Error → Ret B) → Exec A → (A → Step (Ret B)) → Step (Ret B)
or_handle h m f w = let (r, w') = m w in continue_handled h r f w'

-- `a, e := m; if e != nil { return z, e }; f(a)`.
unfoldable pub or_return {ℓ κ} :
    {A : Type ℓ} {B : Type κ} → B → Exec A → (A → Step (Ret B)) → Step (Ret B)
or_return z m f w = let (r, w') = m w in continue_or z r f w'

abbrev pub give {ℓ} : {A : Type ℓ} → Ret A → Step (Ret A)
give r w = (r, w)

abbrev pub return_ok {ℓ} : {A : Type ℓ} → A → Step (Ret A)
return_ok a w = ((a, none), w)
