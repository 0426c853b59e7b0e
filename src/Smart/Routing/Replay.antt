-- ===== src/Smart/Routing/Replay.antt =====
-- smart.go: `run` over the loops of collections.go that send one chunk after another.
use hurricache_go_client.Prelude.{ℕ, ◌<◌, ◌≡◌, refl, Bool, true, Option, none, some, List}
use hurricache_go_client.Errors.{Ret}
use hurricache_go_client.Errors.Laws.{forbids_replay}
use hurricache_go_client.Types.{KeyHint, ContainerType}
use hurricache_go_client.Wire.{Value}
use hurricache_go_client.Rpc.{Stub}
use hurricache_go_client.World.{Ctx, Environment, World, Step}
use hurricache_go_client.Session.{Session}
use hurricache_go_client.Session.Answers.{answers}
use hurricache_go_client.Collections.Split.{Span}
use hurricache_go_client.Collections.Items.{Item}
use hurricache_go_client.Collections.Create.{create_chunks}
use hurricache_go_client.Collections.Add.{AddKind, AddOutcome, add_chunks, remove_chunks}
use hurricache_go_client.Collections.Acknowledged.{
  Guarded, add_chunks-forbids_replay, remove_chunks-forbids_replay, create_chunks-forbids_replay,
}
use hurricache_go_client.Smart.Routing.{Topology, View, attempt, after_first}

-- The actions that send chunks, from their first one.
pub data SendsChunks (env : Environment) (at : Stub → Session)
    : (T : Type 0) → (Stub → Step (Ret T)) → Type 1 where
  inserts :
      (t : ContainerType) (kind : AddKind) (position : ℕ) (pv : Option Value) (items : List Item)
      (boolean : Bool) (result : AddOutcome) (ps : List Span)
      → SendsChunks env at AddOutcome
          (λ stub. add_chunks env (at stub) t kind position pv items boolean result 0 0 ps)
  removes :
      (t : ContainerType) (items : List Item) (total : ℕ) (ps : List Span)
      → SendsChunks env at ℕ (λ stub. remove_chunks env (at stub) t items total 0 0 ps)
  creates :
      (t : ContainerType) (items : List Item) (ps : List Span)
      → SendsChunks env at (Option KeyHint) (λ stub. create_chunks env (at stub) t items ps)

SendsChunks-Guarded :
    (env : Environment) (at : Stub → Session) (T : Type 0) (action : Stub → Step (Ret T))
    → SendsChunks env at T action
    → (stub : Stub) (w : World) → Guarded env w (action stub w)
SendsChunks-Guarded env at T action (inserts t kind position pv items boolean result ps) stub w =
    add_chunks-forbids_replay env (at stub) t kind position pv items boolean result ps w
SendsChunks-Guarded env at T action (removes t items total ps) stub w =
    remove_chunks-forbids_replay env (at stub) t items total ps w
SendsChunks-Guarded env at T action (creates t items ps) stub w =
    create_chunks-forbids_replay env (at stub) t items ps w

module _ (v : View) (snap : Topology) (ctx : Ctx) (first : Stub) (second : Option Stub) where
  runs_once :
      (T : Type 0) (action : Stub → Step (Ret T)) (r : Ret T × World)
      → forbids_replay r.0.1 ≡ true
      → after_first v snap ctx first second action r ≡ r
  runs_once T action ((out, none), w) h = refl
  runs_once T action ((out, some e), w) h = rw h refl

  -- If the server answered a chunk that an insertion, a removal or a creation sent to the first endpoint, `run`
  -- returns what that first action returned, in the world that it left: nothing is sent again, whatever error
  -- followed.
  pub attempt-SendsChunks :
      (env : Environment) (at : Stub → Session) (T : Type 0) (action : Stub → Step (Ret T))
      (w : World)
      → SendsChunks env at T action
      → answers env w.log < answers env (action first w).1.log
      → attempt v snap ctx first second action w ≡ action first w
  unfolding attempt
  attempt-SendsChunks env at T action w k l =
      runs_once T action _ (SendsChunks-Guarded env at T action k first w l)
