-- ===== src/Collections/Limits.antt =====
-- collections.go: the loops that send chunks make no call above the configured size, and what comes
-- before them makes no call.
use hurricache_go_client.Prelude.{
  ℕ, zero, suc, ◌+◌, ◌≡◌, refl, Bool, true, false, Option, none, some, List, [], ◌∷◌, sym, ltb,
  ◌==◌, ◌&&◌, ◌-◌, ◌%◌,
}
use hurricache_go_client.Errors.{Except, Ret}
use hurricache_go_client.Types.{KeyHint, ContainerType, ContainerData, Payload, Removal, Position}
use hurricache_go_client.Wire.{Key, Value}
use hurricache_go_client.Config.{Config}
use hurricache_go_client.Rpc.{Call}
use hurricache_go_client.Rpc
use hurricache_go_client.World.{Ctx, Environment, Step}
use hurricache_go_client.World.Keeps.{
  Keeps, Keeps-bind, Keeps-or_return, Keeps-or_handle, Keeps-same, Keeps-if,
}
use hurricache_go_client.Session.{Session}
use hurricache_go_client.Session.Limits.{AllWithin, unary-within, check_context-Keeps, sent-Keeps}
use hurricache_go_client.Operations.Times.{max_uint32}
use hurricache_go_client.Codec.{uint32_mod}
use hurricache_go_client.Collections.Split.{Span, split, check_items}
use hurricache_go_client.Collections.Items.{Item, encode_each, encode_items}
use hurricache_go_client.Collections.Create.{
  continuations, create_chunks, plan_create, send_continuation, is_sequence,
}
use hurricache_go_client.Collections.Add.{
  AddKind, AddOutcome, add_generic, add_head, add_tail, add_position, add_before, add_after,
  add_bool, add_ordered_bool, send_by, acknowledge, add_chunks, plan_add, remove_chunks,
  plan_removal,
}
use hurricache_go_client.Collections.Streams.{collect}

module _ {P : List Call → Type 0} where
  encode_each-Keeps :
      {A : Type 0} (ctx : Ctx) (f : A → Except Item) (xs : List A) → Keeps P (encode_each ctx f xs)
  unfolding encode_each
  encode_each-Keeps ctx f [] = Keeps-same (λ w. refl)
  encode_each-Keeps ctx f (x ∷ xs) = Keeps-bind (check_context-Keeps ctx) λ _.
      Keeps-bind (Keeps-same (λ w. refl))
        λ it. Keeps-bind (encode_each-Keeps ctx f xs) λ rest. Keeps-same (λ w. refl)

  check_items-Keeps :
      (max : _) (size : ℕ → ℕ → ℕ) (ctx : Ctx) (left i : ℕ)
      → Keeps P (check_items max size ctx left i)
  unfolding check_items
  check_items-Keeps max size ctx zero i = Keeps-same (λ w. refl)
  check_items-Keeps max size ctx (suc left) i =
      Keeps-bind (check_context-Keeps ctx)
        λ _. Keeps-bind (Keeps-same (λ w. refl)) λ _. check_items-Keeps max size ctx left (i + 1)

  split-Keeps : (max : _) (size : ℕ → ℕ → ℕ) (ctx : Ctx) (n : ℕ) → Keeps P (split max size ctx n)
  unfolding split
  split-Keeps max size ctx n =
      Keeps-bind (Keeps-same (λ w. refl))
        λ _. Keeps-bind (check_items-Keeps max size ctx n 0) λ _. Keeps-same (λ w. refl)

  encode_items-Keeps :
      (z : _) (s : Session) (t : ContainerType) (d : ContainerData) (creation : Bool)
      → Keeps P (encode_items z s t d creation)
  unfolding encode_items
  encode_items-Keeps z s t d creation = Keeps-bind (Keeps-same (λ w. refl)) λ _.
      Keeps-bind (Keeps-same (λ w. refl)) λ _. Keeps-bind (encode_each-Keeps s.ctx _ d.values) λ a.
        Keeps-bind (encode_each-Keeps s.ctx _ d.ordered_values) λ b.
          Keeps-bind (encode_each-Keeps s.ctx _ d.entries) λ e.
            Keeps-bind (encode_each-Keeps s.ctx _ d.ordered_entries) λ g. Keeps-same (λ w. refl)

  pub plan_create-Keeps :
      (env : Environment) (s : Session) (t : ContainerType) (d : ContainerData)
      → Keeps P (plan_create env s t d)
  unfolding plan_create
  plan_create-Keeps env s t d = Keeps-bind (encode_items-Keeps _ s t d true) λ items.
      Keeps-bind (split-Keeps _ _ s.ctx _)
        λ parts. Keeps-bind (Keeps-same (λ w. refl)) λ _. Keeps-same (λ w. refl)

  pub plan_add-Keeps :
      (env : Environment) (s : Session) (t : ContainerType) (d : ContainerData) (kind : AddKind)
      (at : ℕ) (pivot : Payload)
      → Keeps P (plan_add env s t d kind at pivot)
  unfolding plan_add
  plan_add-Keeps env s t d kind at pivot = Keeps-bind (encode_items-Keeps _ s t d false) λ items.
      Keeps-bind (Keeps-same (λ w. refl)) λ _.
        Keeps-bind (Keeps-same (λ w. refl))
          λ pv. Keeps-bind (split-Keeps _ _ s.ctx _) λ parts. Keeps-same (λ w. refl)

  pub plan_removal-Keeps :
      (env : Environment) (s : Session) (r : Removal) → Keeps P (plan_removal env s r)
  unfolding plan_removal
  plan_removal-Keeps env s r = Keeps-bind (Keeps-same (λ w. refl)) λ _.
      Keeps-bind (encode_each-Keeps s.ctx _ r.values) λ a.
        Keeps-bind (encode_each-Keeps s.ctx _ r.keys)
          λ b. Keeps-bind (split-Keeps _ _ s.ctx _) λ parts. Keeps-same (λ w. refl)

module _ (env : Environment) (c : Config) (s : Session) (e : s.config ≡ c) where
  abbrev Within : {A : Type 0} → Step A → Type 0
  Within m = Keeps (AllWithin env c.max_request_bytes) m

  send_continuation-Keeps :
      (t : ContainerType) (items : List Item) (k : Key) (p : Span)
      → Within (send_continuation env s t items k p)
  send_continuation-Keeps t items k p =
      Keeps-if (is_sequence t) (unary-within env c s e Rpc.add_element_to_tail _)
        (unary-within env c s e Rpc.add_element _)

  continuations-Keeps :
      (t : ContainerType) (items : List Item) (k : Key) (hint : Option KeyHint) (chunks done : ℕ)
      (ps : List Span)
      → Within (continuations env s t items k hint chunks done ps)
  unfolding continuations
  continuations-Keeps t items k hint chunks done [] = Keeps-same (λ w. refl)
  continuations-Keeps t items k hint chunks done (p ∷ ps) =
      Keeps-or_handle _
        (Keeps-bind (send_continuation-Keeps t items k p) (λ r. Keeps-same (λ w. refl)))
        (λ _. continuations-Keeps t items k hint (suc chunks) (done + (p.end - p.start)) ps)

  pub create_chunks-Keeps :
      (t : ContainerType) (items : List Item) (parts : List Span)
      → Within (create_chunks env s t items parts)
  unfolding create_chunks
  create_chunks-Keeps t items parts =
      Keeps-or_return _ (unary-within env c s e Rpc.create_container _)
        (λ r. continuations-Keeps t items _ _ _ _ _)

  module _ (t : ContainerType) (kind : AddKind) (at : ℕ) (pv : Option Value)
      (items : List Item) where
    send_by-Keeps : (by : AddKind) (p : Span) → Within (send_by env s t kind at pv items by p)
    send_by-Keeps add_generic p = unary-within env c s e Rpc.add_element _
    send_by-Keeps add_head p = unary-within env c s e Rpc.add_element_to_head _
    send_by-Keeps add_tail p = unary-within env c s e Rpc.add_element_to_tail _
    send_by-Keeps add_position p = unary-within env c s e Rpc.add_element _
    send_by-Keeps add_before p = unary-within env c s e Rpc.add_element_to_position_by_value _
    send_by-Keeps add_after p = unary-within env c s e Rpc.add_element_to_position_by_value _
    send_by-Keeps add_bool p = unary-within env c s e Rpc.add_element _
    send_by-Keeps add_ordered_bool p = unary-within env c s e Rpc.add_element _

    acknowledge-Keeps :
        (boolean : Bool) (result : AddOutcome) (chunks done : ℕ) (p : Span) (n : ℕ)
        (next : AddOutcome → Step (Ret AddOutcome))
        → ((r : AddOutcome) → Within (next r))
        → Within (acknowledge env s t kind at pv items boolean result chunks done p n next)
    unfolding acknowledge
    acknowledge-Keeps boolean result chunks done p n next h =
        Keeps-if (ltb max_uint32 (result.count + n)) (Keeps-same (λ w. refl))
          (Keeps-if (boolean && (n == 0)) (Keeps-same (λ w. refl)) (h _))

    pub add_chunks-Keeps :
        (boolean : Bool) (result : AddOutcome) (chunks done : ℕ) (ps : List Span)
        → Within (add_chunks env s t kind at pv items boolean result chunks done ps)
    unfolding add_chunks
    add_chunks-Keeps boolean result chunks done [] = Keeps-same (λ w. refl)
    add_chunks-Keeps boolean result chunks done (p ∷ ps) =
        Keeps-or_handle _ (send_by-Keeps kind p) λ r.
          acknowledge-Keeps boolean result chunks done p r.size _
            (λ r'. add_chunks-Keeps boolean r' (suc chunks) _ ps)

  pub remove_chunks-Keeps :
      (t : ContainerType) (items : List Item) (total chunks done : ℕ) (ps : List Span)
      → Within (remove_chunks env s t items total chunks done ps)
  unfolding remove_chunks
  remove_chunks-Keeps t items total chunks done [] = Keeps-same (λ w. refl)
  remove_chunks-Keeps t items total chunks done (p ∷ ps) =
      Keeps-or_handle _ (unary-within env c s e Rpc.remove_from_container_by_key_value _) λ r.
        Keeps-if (ltb max_uint32 (total + r.size)) (Keeps-same (λ w. refl)) (
          remove_chunks-Keeps t items ((total + r.size) % uint32_mod) (suc chunks)
            (done + (p.end - p.start)) ps)

  pub collect-Keeps : (pos : Option Position) → Within (collect env s pos)
  unfolding collect
  collect-Keeps none = rw (sym e) (
      Keeps-or_return _ (sent-Keeps env s.config s.stub Rpc.get_container _)
        (λ st. Keeps-same (λ w. refl)))
  collect-Keeps (some p) = rw (sym e) (
      Keeps-or_return _
        (Keeps-bind (Keeps-same (λ w. refl))
          λ _. sent-Keeps env s.config s.stub Rpc.get_element_in_range _)
        (λ st. Keeps-same (λ w. refl)))
