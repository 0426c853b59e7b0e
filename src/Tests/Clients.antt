-- ===== src/Tests/Clients.antt =====
-- Concrete clients, made and closed.
use hurricache_go_client.Prelude.{ℕ, pos, ◌≡◌, refl, Option, none, some, [], ◌∷◌, String}
use hurricache_go_client.Errors.{Except, ok, Error, status, unavailable}
use hurricache_go_client.Types.{lb_smart}
use hurricache_go_client.Config.{Config, normalize_config, with_defaults}
use hurricache_go_client.Client.{
  Client, DirectBackend, SmartConfig, direct_client, direct_closable, direct_close, new_client,
  new_client_with_connection, new_smart_client, smart_client_of,
}
use hurricache_go_client.Client.Closing.{
  ClosedBy, closed, close_times, close_is_idempotent, owned_channel_closed_once,
  borrowed_channel_never_closed,
}
use hurricache_go_client.Client.Valid.{IsReadyToStart, new_smart_client-IsReadyToStart}
use hurricache_go_client.Tests.{small_config}

abbrev channel : String → Config → Except ℕ
channel address c = ok 7

-- A channel whose `Close` fails.
abbrev failing_close : ℕ → Option Error
failing_close ch = some (status unavailable)

abbrev dialed : Client DirectBackend
dialed =
    direct_client small_config (record { conn = some 7; close = some (failing_close 7) })
      "localhost:1"

abbrev lent : Client DirectBackend
lent = direct_client small_config (record { conn = some 7; close = none }) "borrowed"

close_is_idempotent_example :
    ClosedBy
      (closed direct_closable dialed).0
      (some (status unavailable))
      (close_times direct_closable 3 dialed)
unfolding direct_close
close_is_idempotent_example = close_is_idempotent direct_closable dialed 2 refl

owned_channel_closed_once_example : (close_times direct_closable 3 dialed).0.backend.closes ≡ 1
unfolding new_client normalize_config with_defaults
owned_channel_closed_once_example =
    owned_channel_closed_once channel failing_close "localhost:1" small_config dialed 2 refl

borrowed_channel_never_closed_example : (close_times direct_closable 3 lent).0.backend.closes ≡ 0
unfolding new_client_with_connection normalize_config with_defaults
borrowed_channel_never_closed_example =
    borrowed_channel_never_closed (some 7) small_config lent 3 refl

abbrev smart_config : SmartConfig
smart_config = record {
  client = small_config;
  mode = lb_smart;
  refresh_interval = pos 0;
  discovery_timeout = pos 0;
  ready_timeout = pos 5;
  connection_factory = none;
}

new_smart_client-IsReadyToStart_example :
    IsReadyToStart
      ("coordinator" ∷ [])
      (smart_client_of channel failing_close ("coordinator" ∷ []) small_config smart_config)
unfolding new_smart_client normalize_config with_defaults
new_smart_client-IsReadyToStart_example =
    new_smart_client-IsReadyToStart channel failing_close ("coordinator" ∷ []) smart_config
      (smart_client_of channel failing_close ("coordinator" ∷ []) small_config smart_config) refl
