-- ===== src/Collections/Create.antt =====
-- collections.go: `CreateContainer`.
use hurricache_go_client.Prelude.{
  ℕ, suc, pos, ltb_ℤ, ◌+◌, ◌-◌, Bool, true, false, ◌&&◌, Option, none, some, List, [], ◌∷◌, length,
  slice, ◌==◌, if◌then◌else◌,
}
use hurricache_go_client.Errors.{Except, ok, err, Ret, status, resource_exhausted, aborted, partial}
use hurricache_go_client.Types.{
  Bytes, KeyHint, Options, ContainerData, ContainerType, vector, list, queue,
}
use hurricache_go_client.Wire.{Key, PbKeyHint, IntResponse}
use hurricache_go_client.Config.{Config}
use hurricache_go_client.Codec.{hint_go}
use hurricache_go_client.Rpc.{create_container_message, add_message}
use hurricache_go_client.Rpc
use hurricache_go_client.World.{
  Ctx, Environment, Step, Exec, lift, ◌>>=◌, ◌>>◌, or_return, or_handle, return_ok,
}
use hurricache_go_client.Session.{Session, Backend, unary, perform}
use hurricache_go_client.Operations.Times.{max_uint32}
use hurricache_go_client.Collections.Split.{Span, split}
use hurricache_go_client.Collections.Items.{Item, encode_items, add_request, create_request}

-- The sequences, which are continued at their tail.
abbrev pub is_sequence : ContainerType → Bool
is_sequence list = true
is_sequence vector = true
is_sequence queue = true
is_sequence _ = false

abbrev pub items_of : Span → List Item → List Item
items_of p items = slice p.start p.end items

-- The key with the widest hint, which is reserved for in the sizes.
abbrev pub reserved : Key → Key
reserved k = record k {
  key_hint = some (record { week_hash = some max_uint32; strong_hash = some max_uint32 });
}

-- The server's hint, if it sent one, goes with the later chunks.
abbrev pub with_hint : Key → Option PbKeyHint → Key
with_hint k none = k
with_hint k (some h) = record k { key_hint = some h }

-- An empty collection is created by one empty chunk.
abbrev pub first_span : List Span → Span
first_span [] = record { start = 0; end = 0 }
first_span (p ∷ ps) = p

abbrev pub later_spans : List Span → List Span
later_spans [] = []
later_spans (p ∷ ps) = ps

module _ (env : Environment) (s : Session) (t : ContainerType) (items : List Item) where
  abbrev pub create_size : ℕ → ℕ → ℕ
  create_size i j =
      env.proto_size
        (create_container_message (create_request (reserved s.key) t s.ttl (slice i j items)))

  abbrev pub continuation_size : Span → ℕ
  continuation_size p =
      env.proto_size (add_message (add_request (reserved s.key) (some t) none (items_of p items)))

  unfoldable pub check_continuations : List Span → Except (Unit {0})
  check_continuations [] = ok tt
  check_continuations (p ∷ ps) =
      if ltb_ℤ s.config.max_request_bytes (pos (continuation_size p))
      then err (status resource_exhausted)
      else check_continuations ps

  -- A chunk of a sequence that the server answers by zero was rejected.
  abbrev rejected : IntResponse → Except (Unit {0})
  rejected r = if is_sequence t && (r.size == 0) then err (status aborted) else ok tt

  abbrev pub send_continuation : Key → Span → Exec IntResponse
  send_continuation k p =
      if is_sequence t
      then unary env s Rpc.add_element_to_tail (add_request k (some t) none (items_of p items))
      else unary env s Rpc.add_element (add_request k (some t) none (items_of p items))

  unfoldable pub continuations :
      Key → Option KeyHint → ℕ → ℕ → List Span → Step (Ret (Option KeyHint))
  continuations k hint chunks done [] = return_ok hint
  continuations k hint chunks done (p ∷ ps) =
      or_handle (λ e. (hint, partial chunks done (some e)))
        (do r ← send_continuation k p; lift (rejected r))
        λ _. continuations k hint (suc chunks) (done + (p.end - p.start)) ps

  unfoldable pub create_chunks : List Span → Step (Ret (Option KeyHint))
  create_chunks parts =
      or_return none
        (unary env s Rpc.create_container
          (create_request s.key t s.ttl (items_of (first_span parts) items)))
        λ r.
          continuations (with_hint s.key r.key_hint) (hint_go r.key_hint) 1 (first_span parts).end
            (later_spans parts)

module _ (env : Environment) where
  -- What `CreateContainer` settles before its first call: the items and the spans.
  unfoldable pub plan_create :
      Session → ContainerType → ContainerData → Exec (List Item × List Span)
  plan_create s t d = do
    items ← encode_items env.compressors s t d true
    parts ← split s.config.max_request_bytes (create_size env s t items) s.ctx (length items)
    lift (check_continuations env s t items (later_spans parts))
    lift (ok (items, parts))

  unfoldable pub create_container :
      Backend
      → Config
      → Ctx
      → Bytes
      → ContainerType
      → ContainerData
      → Options
      → Step (Ret (Option KeyHint))
  create_container backend c ctx key t d o =
      perform env backend (Option KeyHint) none c ctx key o true
        λ s. or_return none (plan_create s t d) λ plan. create_chunks env s t plan.0 plan.1
