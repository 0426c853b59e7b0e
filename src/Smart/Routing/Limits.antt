-- ===== src/Smart/Routing/Limits.antt =====
-- smart.go: `run` makes only the calls of its action, so what these keep of the log it keeps too.
use hurricache_go_client.Prelude.{refl, Bool, Option, List, subst}
use hurricache_go_client.Errors.{Ret}
use hurricache_go_client.Types.{Options, RoutingMode}
use hurricache_go_client.Rpc.{Call, Stub}
use hurricache_go_client.World.{Ctx, World, Step}
use hurricache_go_client.World.Keeps.{Keeps, Keeps-bind, Keeps-same, Keeps-or_return}
use hurricache_go_client.Session.Limits.{Respects, check_context-Keeps}
use hurricache_go_client.Smart.Routing.Attempts.{Attempted, once, twice, attempt-Attempted}
use hurricache_go_client.Smart.Routing.{
  View, Topology, wait_ready, take_snapshot, attempt, choose_endpoints, smart_run,
}

module _ (v : View) {P : List Call → Type 0} where
  wait_ready-Keeps : Keeps P (wait_ready v)
  unfolding wait_ready
  wait_ready-Keeps = Keeps-same (λ w. refl)

  take_snapshot-Keeps : Keeps P (take_snapshot v)
  unfolding take_snapshot
  take_snapshot-Keeps = Keeps-same (λ w. refl)

  choose_endpoints-Keeps :
      (configured : RoutingMode) (ctx : Ctx) (o : Options) (write : Bool)
      → Keeps P (choose_endpoints v configured ctx o write)
  unfolding choose_endpoints
  choose_endpoints-Keeps configured ctx o write = Keeps-bind wait_ready-Keeps λ _.
      Keeps-bind take_snapshot-Keeps λ snap. Keeps-bind (Keeps-same (λ w. refl)) λ round.
        Keeps-bind (Keeps-same (λ w. refl)) λ _. Keeps-bind (Keeps-same (λ w. refl)) λ coin.
          Keeps-bind (check_context-Keeps ctx)
            λ _. Keeps-bind (Keeps-same (λ w. refl)) λ first. Keeps-same (λ w. refl)

module _ {P : List Call → Type 0} (v : View) {T : Type 0} (snap : Topology) (ctx : Ctx)
    (first : Stub) (second : Option Stub) (action : Stub → Step (Ret T))
    (k : (ep : Stub) → Keeps P (action ep)) where
  attempted-keeps :
      (w : World) (p : P w.log) (r : Ret T × World)
      → Attempted v snap ctx first second action w r
      → P r.1.log
  attempted-keeps w p r (once h l) = rw l (subst (λ r. P r.1.log) h ((k first).at w p))
  attempted-keeps w p r (twice ep h _ _ _ l) =
      (k ep).at _ (rw l (subst (λ r. P r.1.log) h ((k first).at w p)))

  pub attempt-Keeps : Keeps P (attempt v snap ctx first second action)
  attempt-Keeps = record {
    at = λ w p. attempted-keeps w p _ (attempt-Attempted v snap ctx first second action w);
  }

pub smart_run-Respects :
    {P : List Call → Type 0} (v : View) (configured : RoutingMode)
    → Respects P (smart_run v configured)
unfolding smart_run
smart_run-Respects v configured T z ctx o write action k =
    Keeps-or_return z (choose_endpoints-Keeps v configured ctx o write)
      (λ c. attempt-Keeps v c.0 ctx c.1 c.2 action k)
