-- ===== src/Smart/Lifecycle/Reachable.antt =====
-- smart.go: the invariant of the endpoints, kept by every step that the goroutines of a client take.
use hurricache_go_client.Prelude.{
  ℕ, ◌<◌, ◌≡◌, refl, sym, ◌∙◌, ap, Bool, true, false, Option, none, some, List, [], ◌∷◌, ◌++◌,
  String, arith, subst, inl, inr, ◌⊎◌,
}
use hurricache_go_client.Errors.{Error}
use hurricache_go_client.Rpc.{Stub}
use hurricache_go_client.Smart.Routing.{Topology}
use hurricache_go_client.Smart.State.{
  Connection, endpoints_of, pin_snapshot, SmartBackend, unpin_all, retire_locked,
}
use hurricache_go_client.Smart.State.Retire.{retire_nodes-Untouched}
use hurricache_go_client.Smart.Discover.{connect}
use hurricache_go_client.Smart.Discover.Connect.{connect-connections}
use hurricache_go_client.Smart.Publish.{Draft, PeerRouting, unwind, new_draft}
use hurricache_go_client.Smart.Lifecycle.{
  close_nodes, Holder, nobody, discovering, publishing, unwinding, System, Step, call_starts,
  call_ends, refresh_enters, refresh_leaves, gate_taken, gate_released, coordinator_dialed,
  coordinator_chosen, publish_starts, publish_goes_on, publish_commits, publish_unwinds,
  refresh_requested, loop_selects, ticker_ticks, loop_wakes, loop_returns, close_begins,
  close_cancels, close_ends, Reach, here, next, new_system, after_round,
}
use hurricache_go_client.Smart.Lifecycle.Closing.{close_nodes-Untouched, close_nodes-Inv}
use hurricache_go_client.Smart.Lifecycle.Invariant.{
  Inv, pin_snapshot-Inv, unpin_all-Inv, unpin_draft-Inv,
}
use hurricache_go_client.Smart.Lifecycle.Publishing.{RoundInv, publish_peer-Inv, commit-Inv}

abbrev pub HolderInv : Bool → List (List Stub) → Holder → SmartBackend → Type 0
HolderInv over calls nobody b = Inv over calls [] [] [] b
HolderInv over calls discovering b = Inv over calls [] [] [] b
HolderInv over calls (publishing d peers) b = Inv over calls d.snap.targets d.created d.pinned b
HolderInv over calls (unwinding pinned) b = Inv over calls [] [] pinned b

abbrev pub is_free : Holder → Bool
is_free nobody = true
is_free _ = false

-- Once `close` has closed the endpoints, no refresh holds the gate or waits for it, and none can begin.
pub record SystemInv (s : System) : Type 0 where
  pub at : HolderInv s.finished s.calls s.holder s.backend
  pub over :
      s.finished ≡ true → (is_free s.holder ≡ true) × (s.waiting ≡ 0) × (s.backend.closed ≡ true)

Inv-new_system : (coordinators : List String) → SystemInv (new_system coordinators)
Inv-new_system coordinators = record {
  at = record {
    at = λ q. record {
      refs = refl;
      open_while_used = ground arith;
      current_active = ground arith;
      draft_held = ground arith;
      created_own = ground arith;
      released_once = omega arith;
      released_gone = ground arith;
      unknown_nowhere = λ e. (refl, refl);
    };
    used = λ q. ground arith;
    keys = λ t h. h;
  };
  over = ground arith;
}

-- A client whose endpoints `close` has not closed.
module _ (s : System) (i : SystemInv s) where
  not_over :
      (is_free s.holder ≡ false) ⊎ (0 < s.waiting) ⊎ (s.backend.closed ≡ false) → s.finished ≡ false
  not_over h = let o = i.over in over_false s.finished o h
    where
      over_false :
          (f : Bool)
          → (f ≡ true → (is_free s.holder ≡ true) × (s.waiting ≡ 0) × (s.backend.closed ≡ true))
          → (is_free s.holder ≡ false) ⊎ (0 < s.waiting) ⊎ (s.backend.closed ≡ false)
          → f ≡ false
      over_false f o h = ground arith

  held_at : (h : Holder) → s.holder ≡ h → HolderInv s.finished s.calls h s.backend
  held_at h e = subst (λ x. HolderInv s.finished s.calls x s.backend) e i.at

  open_at :
      (h : Holder)
      → s.holder ≡ h
      → is_free h ≡ false
      → (s.finished ≡ false) × HolderInv false s.calls h s.backend
  open_at h e n =
      let f = not_over (inl (ap is_free e ∙ n)) in
      (f, subst (λ x. HolderInv x s.calls h s.backend) f (held_at h e))

still_open :
    (t : System) → t.finished ≡ false → HolderInv false t.calls t.holder t.backend → SystemInv t
still_open t f i = record { at = rw f i; over = ground arith }

after_round-Inv :
    (s : System) (rest : List PeerRouting) (r : SmartBackend × Draft × Option Error)
    → s.finished ≡ false
    → RoundInv s.calls r
    → SystemInv (after_round s rest r)
after_round-Inv s rest (b, d, none) f j = still_open _ f j
after_round-Inv s rest (b, d, some e) f j = still_open _ f j

pin_holder :
    (s : System) (snap : Topology) (h : Holder)
    → s.backend.snapshot ≡ some snap
    → HolderInv false s.calls h s.backend
    → HolderInv false (endpoints_of snap.targets ∷ s.calls) h (pin_snapshot snap s.backend)
pin_holder s snap nobody e i = pin_snapshot-Inv snap s.backend e i
pin_holder s snap discovering e i = pin_snapshot-Inv snap s.backend e i
pin_holder s snap (publishing d peers) e i = pin_snapshot-Inv snap s.backend e i
pin_holder s snap (unwinding pinned) e i = pin_snapshot-Inv snap s.backend e i

module _ (over : Bool) (before : List (List Stub)) (ps : List Stub) (after calls : List (List Stub))
    (b : SmartBackend) (e : calls ≡ before ++ ps ∷ after) where
  unpin_holder :
      (h : Holder) → HolderInv over calls h b → HolderInv over (before ++ after) h (unpin_all ps b)
  unpin_holder nobody i = unpin_all-Inv before ps after b e i
  unpin_holder discovering i = unpin_all-Inv before ps after b e i
  unpin_holder (publishing d peers) i = unpin_all-Inv before ps after b e i
  unpin_holder (unwinding pinned) i = unpin_all-Inv before ps after b e i

closed_holder :
    (over : Bool) (calls : List (List Stub)) (h : Holder) (b : SmartBackend)
    → HolderInv over calls h b
    → HolderInv over calls h (record b { closed = true })
closed_holder over calls nobody b i = record { at = i.at; used = i.used; keys = i.keys }
closed_holder over calls discovering b i = record { at = i.at; used = i.used; keys = i.keys }
closed_holder over calls (publishing d peers) b i = record {
  at = i.at;
  used = i.used;
  keys = i.keys;
}
closed_holder over calls (unwinding pinned) b i = record { at = i.at; used = i.used; keys = i.keys }

discovering_with :
    (calls : List (List Stub)) (b : SmartBackend) (l : List (String × Connection)) (index : ℕ)
    → HolderInv false calls discovering b
    → HolderInv false calls discovering
        (record b { coordinator_connections = l; active_coordinator = index })
discovering_with calls b l index i = record { at = i.at; used = i.used; keys = i.keys }

pub unpin_all-closed : (ps : List Stub) (b : SmartBackend) → (unpin_all ps b).closed ≡ b.closed
unfolding unpin_all retire_locked
unpin_all-closed ps b = (retire_nodes-Untouched b.nodes _).over

Step-Inv : (s : System) {t : System} → SystemInv s → Step s t → SystemInv t
unfolding unwind new_draft
Step-Inv s i (call_starts snap o e) =
    let f = not_over s i (inr (inr o)) in
    still_open _ f
      (pin_holder s snap s.holder e (subst (λ x. HolderInv x s.calls s.holder s.backend) f i.at))
Step-Inv s i (call_ends before ps after e) = record {
  at = unpin_holder s.finished before ps after s.calls s.backend e s.holder i.at;
  over = λ f. let (h, w, c) = i.over f in (h, w, unpin_all-closed ps s.backend ∙ c);
}
Step-Inv s i (refresh_enters o) = record { at = i.at; over = λ f. let v = i.over f in ground arith }
Step-Inv s i (refresh_leaves n k e) = record {
  at = i.at;
  over = λ f. let v = i.over f in ground arith;
}
Step-Inv s i (gate_taken n e h) =
    let f = not_over s i (inr (inl (omega (arith, e)))) in
    still_open _ f (subst (λ x. HolderInv x s.calls nobody s.backend) f (held_at s i nobody h))
Step-Inv s i (gate_released k h) = let (f, j) = open_at s i discovering h refl in still_open _ f j
Step-Inv s i (coordinator_dialed dialed t h) =
    let (f, j) = open_at s i discovering h refl in
    let (l, e) = connect-connections dialed t s.backend in
    still_open _ f (
      subst (λ x. HolderInv false s.calls x (connect dialed t s.backend).0) (sym h)
        (subst (HolderInv false s.calls discovering) (sym e)
          (discovering_with s.calls s.backend l _ j)))
Step-Inv s i (coordinator_chosen index h) =
    let (f, j) = open_at s i discovering h refl in
    still_open _ f (
      subst (λ x. HolderInv false s.calls x (record (s.backend) { active_coordinator = index }))
        (sym h) (discovering_with s.calls s.backend _ index j))
Step-Inv s i (publish_starts d h) = let (f, j) = open_at s i discovering h refl in still_open _ f j
Step-Inv s i (publish_goes_on d peer rest ended dialed h) =
    let (f, j) = open_at s i (publishing d (peer ∷ rest)) h refl in
    after_round-Inv s rest _ f (publish_peer-Inv s.calls ended dialed peer s.backend d j)
Step-Inv s i (publish_commits d ended h) =
    let (f, j) = open_at s i (publishing d []) h refl in
    still_open _ f (commit-Inv s.calls ended s.backend d j)
Step-Inv s i (publish_unwinds pinned h) =
    let (f, j) = open_at s i (unwinding pinned) h refl in
    still_open _ f (unpin_draft-Inv s.backend j)
Step-Inv s i refresh_requested = record { at = i.at; over = i.over }
Step-Inv s i (loop_selects k h) = record { at = i.at; over = i.over }
Step-Inv s i (ticker_ticks h) = record { at = i.at; over = i.over }
Step-Inv s i (loop_wakes h k) = record { at = i.at; over = i.over }
Step-Inv s i (loop_returns h k) = record { at = i.at; over = i.over }
Step-Inv s i close_begins = record {
  at = closed_holder s.finished s.calls s.holder s.backend i.at;
  over = λ f. let (h, w, c) = i.over f in (h, w, refl);
}
Step-Inv s i (close_cancels c) = record { at = i.at; over = i.over }
Step-Inv s i (close_ends c k l w h f) = record {
  at =
      subst (λ x. HolderInv true s.calls x (close_nodes s.backend.nodes s.backend)) (sym h)
        (close_nodes-Inv s.finished s.calls [] [] [] s.backend (held_at s i nobody h));
  over = λ e. (ap is_free h, w, (close_nodes-Untouched s.backend.nodes s.backend).over ∙ c);
}

pub Reach-Inv :
    (coordinators : List String) (s : System) → Reach (new_system coordinators) s → SystemInv s
Reach-Inv coordinators s here = Inv-new_system coordinators
Reach-Inv coordinators s (next r k) = Step-Inv _ (Reach-Inv coordinators _ r) k
