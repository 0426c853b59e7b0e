-- ===== src/Client.antt =====
-- client.go and smart.go: how a client is made and closed, over one connection or over the coordinators.
-- `grpc.NewClient` and the `Close` of a channel are parameters.
pub mod Closing
pub mod Valid
use hurricache_go_client.Prelude.{
  ℕ, zero, suc, ℤ, pos, Bool, true, false, not, ◌||◌, Option, none, some, List, [], ◌∷◌, String,
  if◌then◌else◌,
}
use text.Mathlib.Text.{◌==◌ as str_eq}
use hurricache_go_client.Errors.{
  Except, ok, err, Error, CtxErr, status, invalid_argument, from_context_error,
}
use hurricache_go_client.Types.{RoutingMode}
use hurricache_go_client.Config.{
  Config, normalize_config, threshold_or_default, is_negative, or_default, second,
}
use hurricache_go_client.Session.{is_mode}
use hurricache_go_client.Smart.State.{Connection, SmartBackend}
use hurricache_go_client.Smart.Refresh.{nth}
use hurricache_go_client.Smart.Lifecycle.{close_nodes, close_errors, new_backend}

-- What a client needs of its backend, besides `run`.
pub record Closable {ℓ} (B : Type ℓ) : Type ℓ where
  pub close_backend : B → B × Option Error
  pub address_of : B → String

-- `closes` counts the calls of the connection's `Close`.
pub record DirectBackend : Type 0 where
  pub connection : Connection
  pub address : String
  pub closes : ℕ

unfoldable pub direct_close : DirectBackend → DirectBackend × Option Error
direct_close d = elim d.connection.close [
  | none ↦ (d, none)
  | some r ↦ (record d { closes = suc d.closes }, r)
]

abbrev pub direct_closable : Closable DirectBackend
direct_closable = record { close_backend = direct_close; address_of = λ d. d.address }

-- The whole of `smartBackend.close`, where no other goroutine is running.
unfoldable pub smart_close : SmartBackend → SmartBackend × Option Error
unfolding close_nodes close_errors
smart_close b = (
  close_nodes b.nodes (record b { closed = true }),
  close_errors b.nodes b.coordinator_connections b.endpoints none,
)

abbrev pub smart_closable : Closable SmartBackend
smart_closable = record {
  close_backend = smart_close;
  address_of = λ b. nth b.coordinators b.active_coordinator;
}

-- `canceled` tells whether the client's own context was canceled, `once` whether its `sync.Once` is done.
pub record Client {ℓ} (B : Type ℓ) : Type ℓ where
  pub config : Config
  pub backend : B
  pub canceled : Bool
  pub once : Bool
  pub close_err : Option Error

abbrev pub client_of {ℓ} : {B : Type ℓ} → Config → B → Client B
client_of c b = record { config = c; backend = b; canceled = false; once = false; close_err = none }

-- `Close` and `Target`.
module _ {ℓ} {B : Type ℓ} (ops : Closable B) where
  unfoldable pub close : Client B → Client B × Option Error
  close c = elim c.once [
    | true ↦ (c, c.close_err)
    | false ↦
        let (b, e) = ops.close_backend c.backend in
        (record c { backend = b; canceled = true; once = true; close_err = e }, e)
  ]

  abbrev pub target : Client B → String
  target c = ops.address_of c.backend

-- The defaults that a client gives to its calls.
abbrev pub default_client_id {ℓ} : {B : Type ℓ} → Client B → ℕ
default_client_id c = c.config.client_id

abbrev pub default_timeout {ℓ} : {B : Type ℓ} → Client B → ℤ
default_timeout c = c.config.timeout

abbrev pub default_ttl {ℓ} : {B : Type ℓ} → Client B → ℤ
default_ttl c = c.config.default_ttl

-- The threshold is read through its pointer; `none` stands for the nil dereference.
abbrev pub default_compression_threshold {ℓ} : {B : Type ℓ} → Client B → Option ℤ
default_compression_threshold c = c.config.compression_threshold

abbrev pub direct_client : Config → Connection → String → Client DirectBackend
direct_client c conn address =
    client_of c (record { connection = conn; address = address; closes = 0 })

-- `NewClientWithConnection`, for a channel or nil.
unfoldable pub new_client_with_connection : Option ℕ → Config → Except (Client DirectBackend)
new_client_with_connection conn config = elim (normalize_config config) [
  | err e ↦ err e
  | ok c ↦ elim conn [
    | none ↦ err (status invalid_argument)
    | some ch ↦ ok (direct_client c (record { conn = some ch; close = none }) "borrowed")
  ]
]

abbrev pub is_empty : String → Bool
is_empty t = str_eq t ""

module _ (new_channel : String → Config → Except ℕ) (channel_close : ℕ → Option Error) where
  unfoldable pub dial : String → Config → Except Connection
  dial address c = elim (new_channel address c) [
    | err e ↦ err e
    | ok ch ↦ ok (record { conn = some ch; close = some (channel_close ch) })
  ]

  unfoldable pub new_client : String → Config → Except (Client DirectBackend)
  unfolding dial
  new_client address config = elim (normalize_config config) [
    | err e ↦ err e
    | ok c ↦
        if is_empty address
        then err (status invalid_argument)
        else elim (dial address c) [ err e ↦ err e | ok conn ↦ ok (direct_client c conn address) ]
  ]

-- `connection_factory` is nil or answers for a target, under a context that has ended or not.
pub record SmartConfig : Type 0 where
  pub client : Config
  pub mode : RoutingMode
  pub refresh_interval : ℤ
  pub discovery_timeout : ℤ
  pub ready_timeout : ℤ
  pub connection_factory : Option (Option CtxErr → String → Except Connection)

pub record SmartClient : Type 0 where
  pub client : Client SmartBackend
  pub config : SmartConfig
  pub factory : Option CtxErr → String → Except Connection

abbrev pub any_empty : List String → Bool
any_empty [] = false
any_empty (v ∷ rest) = is_empty v || any_empty rest

abbrev pub no_coordinators : List String → Bool
no_coordinators [] = true
no_coordinators (v ∷ rest) = false

abbrev pub invalid_smart : SmartConfig → Bool
invalid_smart s =
    not (is_mode (some s.mode))
    || is_negative s.refresh_interval
    || is_negative s.discovery_timeout
    || is_negative s.ready_timeout

abbrev pub smart_defaults : Config → SmartConfig → SmartConfig
smart_defaults c s = record s {
  client = c;
  refresh_interval = or_default s.refresh_interval (pos 30000000000);
  discovery_timeout = or_default s.discovery_timeout c.timeout;
  ready_timeout = or_default s.ready_timeout (pos 60000000000);
}

module _ (new_channel : String → Config → Except ℕ) (channel_close : ℕ → Option Error) where
  -- The factory of a configuration that names none.
  abbrev pub default_factory : Config → Option CtxErr → String → Except Connection
  default_factory c (some e) address = err (from_context_error e)
  default_factory c none address = dial new_channel channel_close address c

  abbrev pub chosen_factory : Config → SmartConfig → Option CtxErr → String → Except Connection
  chosen_factory c s = elim s.connection_factory [ none ↦ default_factory c | some f ↦ f ]

  abbrev pub smart_client_of : List String → Config → SmartConfig → SmartClient
  smart_client_of coordinators c s = record {
    client = client_of c (new_backend coordinators);
    config = smart_defaults c s;
    factory = chosen_factory c s;
  }

  unfoldable pub new_smart_client : List String → SmartConfig → Except SmartClient
  new_smart_client coordinators s =
      if no_coordinators coordinators || any_empty coordinators
      then err (status invalid_argument)
      else elim (normalize_config s.client) [
        | err e ↦ err e
        | ok c ↦
            if invalid_smart s
            then err (status invalid_argument)
            else ok (smart_client_of coordinators c s)
      ]
