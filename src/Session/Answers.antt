-- ===== src/Session/Answers.antt =====
-- rpc.go, `unary`: the calls of a log that the server answered, and what an exchange adds to them.
use hurricache_go_client.Prelude.{
  ℕ, suc, ◌+◌, ◌≡◌, refl, sym, ◌∙◌, ap, Option, none, some, List, [], ◌∷◌, ◌++◌, append_assoc,
  append-nil, arith, Bool-cases, inl, inr,
}
use hurricache_go_client.Errors.{
  Except, ok, err, Error, CtxErr, from_context_error, status, resource_exhausted,
}
use hurricache_go_client.Rpc.{
  Method, Request, Response, Call, Reply, response, failure, add_element, add_element_to_head,
  add_element_to_tail, add_element_to_position_by_value, remove_from_container_by_key_value,
}
use hurricache_go_client.World.{Environment, World, ◌>>=◌}
use hurricache_go_client.Session.{Session, unary, invoke, check_context, too_large, reply_result}

-- What an acknowledgement of a chunk counts: the size that it tells.
abbrev pub told_size : (m : Method) → Response m → ℕ
told_size add_element r = r.size
told_size add_element_to_head r = r.size
told_size add_element_to_tail r = r.size
told_size add_element_to_position_by_value r = r.size
told_size remove_from_container_by_key_value r = r.size
told_size _ r = 0

swap_sum : (a b : ℕ) → a ≡ b → a + 0 ≡ 0 + b
swap_sum a b h = omega arith

further : (x u b a v : ℕ) → u ≡ b + a → a ≡ v → x + u ≡ x + b + v
further x u b a v h k = omega arith

no_more : {a b : ℕ} → a ≡ b + 0 → a ≡ b
no_more h = omega (arith, h)

one_more : {a b : ℕ} → a ≡ b + 1 → a ≡ suc b
one_more h = omega (arith, h)

module _ (env : Environment) where
  abbrev in_reply : ((m : Method) → Response m → ℕ) → (m : Method) → Reply (Response m) → ℕ
  in_reply f m (response a) = f m a
  in_reply f m (failure c routes) = 0

  -- The sum of `f` over the answers to the calls, of which `before` were made earlier.
  abbrev tally : ((m : Method) → Response m → ℕ) → List Call → List Call → ℕ
  tally f before [] = 0
  tally f before (c ∷ cs) =
      in_reply f c.method (env.respond before c) + tally f (before ++ c ∷ []) cs

  -- How many calls of a log the server answered, and the sum of the sizes that it told.
  unfoldable pub answers : List Call → ℕ
  answers log = tally (λ m a. 1) [] log

  unfoldable pub told : List Call → ℕ
  told log = tally told_size [] log

  tally-append :
      (f : (m : Method) → Response m → ℕ) (before log : List Call) (c : Call)
      → tally f before (log ++ c ∷ [])
        ≡ tally f before log + in_reply f c.method (env.respond (before ++ log) c)
  tally-append f before [] c =
      swap_sum _ _ (ap (λ l. in_reply f c.method (env.respond l c)) (sym (append-nil before)))
  tally-append f before (x ∷ log) c =
      further _ _ _ _ _ (tally-append f (before ++ x ∷ []) log c)
        (ap (λ l. in_reply f c.method (env.respond l c)) (append_assoc before (x ∷ []) log))

  -- How an exchange ended: with an error, or with an answer that the log counts.
  pub data Exchange {A : Type 0} (size : A → ℕ) (log : List Call) (r : Except A × World)
      : Type 0 where
    refused :
        (e : Error) (v : World)
        → r ≡ (err e, v)
        → answers v.log ≡ answers log
        → told v.log ≡ told log
        → Exchange size log r
    answered :
        (a : A) (v : World)
        → r ≡ (ok a, v)
        → answers v.log ≡ suc (answers log)
        → told v.log ≡ told log + size a
        → Exchange size log r

  invoke-Exchange :
      (s : Session) (m : Method) (q : Request m) (w : World)
      → Exchange (told_size m) w.log (invoke env s.stub m q w)
  unfolding invoke answers told
  invoke-Exchange s m q w = by_reply (env.respond w.log call) refl
    where
      call : Call
      call = record { stub = s.stub; method = m; request = q }

      counted :
          (f : (m : Method) → Response m → ℕ) (x : Reply (Response m))
          → env.respond w.log call ≡ x
          → tally f [] (w.log ++ call ∷ []) ≡ tally f [] w.log + in_reply f m x
      counted f x h = tally-append f [] w.log call ∙ ap (λ x. tally f [] w.log + in_reply f m x) h

      by_reply :
          (x : Reply (Response m))
          → env.respond w.log call ≡ x
          → Exchange
              (told_size m)
              w.log
              (reply_result (env.respond w.log call), record w { log = w.log ++ call ∷ [] })
      by_reply (response a) h =
          answered a _ (ap (λ x. (reply_result x, record w { log = w.log ++ call ∷ [] })) h)
            (one_more (counted (λ m a. 1) (response a) h)) (counted told_size (response a) h)
      by_reply (failure c routes) h =
          refused _ _ (ap (λ x. (reply_result x, record w { log = w.log ++ call ∷ [] })) h)
            (no_more (counted (λ m a. 1) (failure c routes) h))
            (no_more (counted told_size (failure c routes) h))

  pub unary-Exchange :
      (s : Session) (m : Method) (q : Request m) (w : World)
      → Exchange (told_size m) w.log (unary env s m q w)
  unfolding unary ◌>>=◌ check_context
  unary-Exchange s m q w = by_context (s.ctx w.tick) refl
    where
      later : World
      later = record w { tick = suc w.tick }

      by_context :
          (x : Option CtxErr) → s.ctx w.tick ≡ x → Exchange (told_size m) w.log (unary env s m q w)
      by_context (some e) h = refused (from_context_error e) later (rw h refl) refl refl
      by_context none h = elim (Bool-cases (too_large env s.config m q)) [
        | inl large ↦ refused (status resource_exhausted) later (rw (h, large) refl) refl refl
        | inr small ↦ rw (h, small) (invoke-Exchange s m q later)
      ]
