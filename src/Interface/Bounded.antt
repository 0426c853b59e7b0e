-- ===== src/Interface/Bounded.antt =====
-- interface.go, over the backends of client.go and smart.go: the size of what is sent.
use hurricache_go_client.Types.{Bytes, Options, RoutingMode}
use hurricache_go_client.Config.{Config}
use hurricache_go_client.Rpc.{Stub}
use hurricache_go_client.World.{Ctx, Environment, World}
use hurricache_go_client.Session.{direct_run}
use hurricache_go_client.Session.Limits.{AllWithin, direct_run-Respects}
use hurricache_go_client.Smart.Routing.{View, smart_run}
use hurricache_go_client.Smart.Routing.Limits.{smart_run-Respects}
use hurricache_go_client.Interface.Run.{run_operation}
use hurricache_go_client.Interface.{Operation}
use hurricache_go_client.Interface.Limits.{run_operation-Keeps}

module _ (env : Environment) (c : Config) (caller : Ctx) (key : Bytes) (o : Options)
    (op : Operation) (w : World) where
  -- If no call of the log has a request whose serialized size is above the configured maximum, then no
  -- call has one after any operation of the direct client, whether it succeeds or fails.
  pub run_operation-direct_AllWithin :
      (stub : Stub)
      → AllWithin env c.max_request_bytes w.log
      → AllWithin env c.max_request_bytes
          (run_operation env (direct_run env stub) c caller key o op w).1.log
  run_operation-direct_AllWithin stub p =
      (run_operation-Keeps env _ c caller key o op (direct_run-Respects env stub)).at w p

  -- If no call of the log has a request whose serialized size is above the configured maximum, then no
  -- call has one after any operation of the smart client, whatever its topology and routing mode, the
  -- second attempt included.
  pub run_operation-smart_AllWithin :
      (v : View) (configured : RoutingMode)
      → AllWithin env c.max_request_bytes w.log
      → AllWithin env c.max_request_bytes
          (run_operation env (smart_run v configured) c caller key o op w).1.log
  run_operation-smart_AllWithin v configured p =
      (run_operation-Keeps env _ c caller key o op (smart_run-Respects v configured)).at w p
