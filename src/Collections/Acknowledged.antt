-- ===== src/Collections/Acknowledged.antt =====
-- collections.go: the loops over chunks, against the answers that the server gave.
use hurricache_go_client.Prelude.{
  ℕ, suc, ◌+◌, ◌-◌, ◌%◌, ◌<◌, ◌≡◌, refl, Bool, true, Option, List, [], ◌∷◌, Bool-cases, inl, inr,
  ltb, ◌==◌, ◌&&◌, arith,
}
use hurricache_go_client.Errors.Laws.{forbids_replay}
use hurricache_go_client.Errors.{Except, Error, Ret, partial, has_partial}
use hurricache_go_client.Types.{KeyHint, ContainerType}
use hurricache_go_client.Wire.{Key, Value, IntResponse}
use hurricache_go_client.Rpc
use hurricache_go_client.World.{Environment, World, Step, or_handle, or_return}
use hurricache_go_client.World.Laws.{or_handle-all}
use hurricache_go_client.Session.{Session}
use hurricache_go_client.Session.Answers.{answers, Exchange, refused, answered, unary-Exchange}
use hurricache_go_client.Operations.Times.{max_uint32}
use hurricache_go_client.Codec.{uint32_mod}
use hurricache_go_client.Collections.Split.{Span}
use hurricache_go_client.Collections.Items.{Item}
use hurricache_go_client.Collections.Create.{continuations, create_chunks}
use hurricache_go_client.Collections.Add.{
  AddKind, add_generic, add_head, add_tail, add_position, add_before, add_after, add_bool,
  add_ordered_bool, AddOutcome, send_by, acknowledge, add_chunks, remove_chunks,
}

-- An outcome after which a replay is forbidden if the server answered since.
abbrev pub Guarded : {A : Type 0} → Environment → World → Ret A × World → Type 0
Guarded env w r = answers env w.log < answers env r.1.log → forbids_replay r.0.1 ≡ true

module _ (env : Environment) {A B : Type 0} (size : A → ℕ) where
  -- A loop's first exchange, whose failure ends the loop.
  or_handle-Guarded :
      (h : Error → Ret B) (m : Step (Except A)) (f : A → Step (Ret B)) (w : World)
      → Exchange env size w.log (m w)
      → ((a : A) (v : World) → forbids_replay (f a v).0.1 ≡ true)
      → Guarded env w (or_handle h m f w)
  unfolding or_handle
  or_handle-Guarded h m f w (refused e v r a t) k = rw (r, a) (λ l. absurd (omega (arith, l)))
  or_handle-Guarded h m f w (answered x v r a t) k = rw r (λ l. k x v)

  or_return-Guarded :
      (z : B) (m : Step (Except A)) (f : A → Step (Ret B)) (w : World)
      → Exchange env size w.log (m w)
      → ((a : A) (v : World) → forbids_replay (f a v).0.1 ≡ true)
      → Guarded env w (or_return z m f w)
  unfolding or_return
  or_return-Guarded z m f w (refused e v r a t) k = rw (r, a) (λ l. absurd (omega (arith, l)))
  or_return-Guarded z m f w (answered x v r a t) k = rw r (λ l. k x v)

module _ (env : Environment) (s : Session) (t : ContainerType) (kind : AddKind) (at : ℕ)
    (pv : Option Value) (items : List Item) (boolean : Bool) where
  pub send_by-Exchange :
      (k : AddKind) (p : Span) (w : World)
      → Exchange env (λ (r : IntResponse). r.size) w.log (send_by env s t kind at pv items k p w)
  send_by-Exchange add_generic p w = unary-Exchange env s Rpc.add_element _ w
  send_by-Exchange add_head p w = unary-Exchange env s Rpc.add_element_to_head _ w
  send_by-Exchange add_tail p w = unary-Exchange env s Rpc.add_element_to_tail _ w
  send_by-Exchange add_position p w = unary-Exchange env s Rpc.add_element _ w
  send_by-Exchange add_before p w = unary-Exchange env s Rpc.add_element_to_position_by_value _ w
  send_by-Exchange add_after p w = unary-Exchange env s Rpc.add_element_to_position_by_value _ w
  send_by-Exchange add_bool p w = unary-Exchange env s Rpc.add_element _ w
  send_by-Exchange add_ordered_bool p w = unary-Exchange env s Rpc.add_element _ w

  acknowledge-forbids_replay :
      (result : AddOutcome) (chunks done : ℕ) (p : Span) (n : ℕ)
      (next : AddOutcome → Step (Ret AddOutcome)) (w : World)
      → ((r : AddOutcome) → forbids_replay (next r w).0.1 ≡ true)
      → forbids_replay
          (acknowledge env s t kind at pv items boolean result chunks done p n next w).0.1
        ≡ true
  unfolding acknowledge partial has_partial
  acknowledge-forbids_replay result chunks done p n next w k =
      elim (Bool-cases (ltb max_uint32 (result.count + n))) [
        | inl over ↦ rw over refl
        | inr fit ↦ elim (Bool-cases (boolean && (n == 0))) [
          | inl z ↦ rw (fit, z) (ground arith)
          | inr z ↦ rw (fit, z) (k _)
        ]
      ]

  counted-forbids_replay :
      (result : AddOutcome) (chunks done : ℕ) (ps : List Span) (w : World)
      → forbids_replay
          (add_chunks env s t kind at pv items boolean result (suc chunks) done ps w).0.1
        ≡ true
  unfolding add_chunks partial has_partial
  counted-forbids_replay result chunks done [] w = refl
  counted-forbids_replay result chunks done (p ∷ ps) w =
      or_handle-all (λ r. forbids_replay r.1 ≡ true) _ (send_by env s t kind at pv items kind p) _ w
        (λ e. refl)
        λ a v.
          acknowledge-forbids_replay result (suc chunks) done p a.size _ v
            (λ r. counted-forbids_replay r (suc chunks) (done + (p.end - p.start)) ps v)

  -- If the server answered a chunk of an insertion, whose counters start at 0, an error of the insertion is a
  -- partial one, which is never replayed.
  pub add_chunks-forbids_replay :
      (result : AddOutcome) (ps : List Span) (w : World)
      → answers env w.log
        < answers env (add_chunks env s t kind at pv items boolean result 0 0 ps w).1.log
      → forbids_replay (add_chunks env s t kind at pv items boolean result 0 0 ps w).0.1 ≡ true
  unfolding add_chunks partial has_partial
  add_chunks-forbids_replay result [] w = λ l. refl
  add_chunks-forbids_replay result (p ∷ ps) w =
      or_handle-Guarded env _ _ _ _ w (send_by-Exchange kind p w) λ a v.
        acknowledge-forbids_replay result 0 0 p a.size _ v
          (λ r. counted-forbids_replay r 0 (0 + (p.end - p.start)) ps v)

module _ (env : Environment) (s : Session) (t : ContainerType) (items : List Item) where
  removed-forbids_replay :
      (total chunks done : ℕ) (ps : List Span) (w : World)
      → forbids_replay (remove_chunks env s t items total (suc chunks) done ps w).0.1 ≡ true
  unfolding remove_chunks partial has_partial
  removed-forbids_replay total chunks done [] w = refl
  removed-forbids_replay total chunks done (p ∷ ps) w =
      or_handle-all (λ r. forbids_replay r.1 ≡ true) _ _ _ w (λ e. refl)
        λ a v. elim (Bool-cases (ltb max_uint32 (total + a.size))) [
          | inl over ↦ rw over refl
          | inr fit ↦ rw fit (
              removed-forbids_replay ((total + a.size) % uint32_mod) (suc chunks)
                (done + (p.end - p.start)) ps v)
        ]

  -- If the server answered a chunk of a removal, whose counters start at 0, an error of the removal is a
  -- partial one, which is never replayed.
  pub remove_chunks-forbids_replay :
      (total : ℕ) (ps : List Span) (w : World)
      → answers env w.log < answers env (remove_chunks env s t items total 0 0 ps w).1.log
      → forbids_replay (remove_chunks env s t items total 0 0 ps w).0.1 ≡ true
  unfolding remove_chunks partial has_partial
  remove_chunks-forbids_replay total [] w = λ l. refl
  remove_chunks-forbids_replay total (p ∷ ps) w =
      or_handle-Guarded env _ _ _ _ w
        (unary-Exchange env s Rpc.remove_from_container_by_key_value _ w)
        λ a v. elim (Bool-cases (ltb max_uint32 (total + a.size))) [
          | inl over ↦ rw over refl
          | inr fit ↦ rw fit (removed-forbids_replay _ 0 (0 + (p.end - p.start)) ps v)
        ]

  continued-forbids_replay :
      (k : Key) (hint : Option KeyHint) (chunks done : ℕ) (ps : List Span) (w : World)
      → forbids_replay (continuations env s t items k hint (suc chunks) done ps w).0.1 ≡ true
  unfolding continuations partial has_partial
  continued-forbids_replay k hint chunks done [] w = refl
  continued-forbids_replay k hint chunks done (p ∷ ps) w =
      or_handle-all (λ r. forbids_replay r.1 ≡ true) _ _ _ w (λ e. refl)
        λ a v. continued-forbids_replay k hint (suc chunks) (done + (p.end - p.start)) ps v

  -- If the server answered a chunk of the creation of a container (the first creates it, the others continue
  -- it), an error of the creation is a partial one, which is never replayed.
  pub create_chunks-forbids_replay :
      (parts : List Span) (w : World)
      → answers env w.log < answers env (create_chunks env s t items parts w).1.log
      → forbids_replay (create_chunks env s t items parts w).0.1 ≡ true
  unfolding create_chunks
  create_chunks-forbids_replay parts w =
      or_return-Guarded env _ _ _ _ w (unary-Exchange env s Rpc.create_container _ w)
        (λ a v. continued-forbids_replay _ _ 0 _ _ v)
