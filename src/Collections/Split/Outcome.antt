-- ===== src/Collections/Split/Outcome.antt =====
-- collections.go: every way in which `split` can end.
use hurricache_go_client.Prelude.{
  ℕ, zero, suc, ℤ, ◌+◌, ◌<◌, ◌≡◌, refl, subst, true, false, none, some, List, arith, Bool-cases,
  Option-cases, inl, inr,
}
use native.Mathlib.Decide.{ℕ_discrete}
use hurricache_go_client.Errors.{
  Except, ok, err, Error, status, resource_exhausted, from_context_error, CtxErr,
}
use hurricache_go_client.World.{Ctx, World, lift, ◌>>=◌}
use hurricache_go_client.World.Laws.{Ended-cases, succeeded, failed, >>=-ok, >>=-err}
use hurricache_go_client.Session.{check_context}
use hurricache_go_client.Collections.Split.{Span, fits, pack, check_items, split}
use hurricache_go_client.Collections.Split.Tiles.{IsPacking, EachFits, pack-IsPacking}

module _ (max : ℤ) (size : ℕ → ℕ → ℕ) (ctx : Ctx) where
  -- How `split` ends for `n` items: with a packing, for a request header that is too large, for an item that
  -- is too large, or because the context ended.
  pub data SplitOutcome (n : ℕ) : Except (List Span) → Type 0 where
    packed :
        {ps : List Span}
        → fits max size 0 0 ≡ true
        → EachFits max size 0 n
        → IsPacking max size 0 n ps
        → SplitOutcome n (ok ps)
    header : fits max size 0 0 ≡ false → SplitOutcome n (err (status resource_exhausted))
    item :
        (i : ℕ)
        → i < n
        → fits max size i (i + 1) ≡ false
        → SplitOutcome n (err (status resource_exhausted))
    ended : (t : ℕ) (e : CtxErr) → ctx t ≡ some e → SplitOutcome n (err (from_context_error e))

  data CheckOutcome (left i : ℕ) : Except (Unit {0}) → Type 0 where
    all_fit : EachFits max size i (i + left) → CheckOutcome left i (ok tt)
    item :
        (j : ℕ)
        → j < i + left
        → fits max size j (j + 1) ≡ false
        → CheckOutcome left i (err (status resource_exhausted))
    ended : (t : ℕ) (e : CtxErr) → ctx t ≡ some e → CheckOutcome left i (err (from_context_error e))

  one_more :
      (left i : ℕ) {r : Except (Unit {0})}
      → fits max size i (i + 1) ≡ true
      → CheckOutcome left (i + 1) r
      → CheckOutcome (suc left) i r
  one_more left i f (all_fit g) = all_fit λ j p q. elim (ℕ_discrete i j) [
    | yes e ↦ subst (λ j. fits max size j (j + 1) ≡ true) e f
    | no d ↦ g j (grind arith) (omega arith)
  ]
  one_more left i f (item j p b) = item j (omega arith) b
  one_more left i f (ended t e p) = ended t e p

  module _ (left i : ℕ) (w : World) where
    abbrev next : World
    next = record w { tick = suc w.tick }

    check_ended :
        (e : CtxErr)
        → ctx w.tick ≡ some e
        → check_items max size ctx (suc left) i w ≡ (err (from_context_error e), next)
    unfolding check_items check_context ◌>>=◌
    check_ended e h = rw h

    check_large :
        ctx w.tick ≡ none
        → fits max size i (i + 1) ≡ false
        → check_items max size ctx (suc left) i w ≡ (err (status resource_exhausted), next)
    unfolding check_items check_context ◌>>=◌
    check_large h f = rw (h, f)

    check_next :
        ctx w.tick ≡ none
        → fits max size i (i + 1) ≡ true
        → check_items max size ctx (suc left) i w ≡ check_items max size ctx left (i + 1) next
    unfolding check_items check_context ◌>>=◌
    check_next h f = rw (h, f)

  -- What a step leaves behind: its outcome, and the log of calls as it was.
  abbrev Checked : ℕ → ℕ → World → Except (Unit {0}) × World → Type 0
  Checked left i w r = CheckOutcome left i r.0 × (r.1.log ≡ w.log)

  check_items_lem : (left i : ℕ) (w : World) → Checked left i w (check_items max size ctx left i w)
  check_items_lem zero i w = unfold check_items in (all_fit (λ j p q. absurd (omega arith)), refl)
  check_items_lem (suc left) i w = elim (Option-cases (ctx w.tick)) [
    | inr (e, h) ↦ rw (check_ended left i w e h) (ended w.tick e h, refl)
    | inl h ↦ elim (Bool-cases (fits max size i (i + 1))) [
      | inr f ↦ rw (check_large left i w h f) (item i (omega arith) f, refl)
      | inl f ↦
          let (r, l) = check_items_lem left (i + 1) (next left i w) in
          rw (check_next left i w h f) (one_more left i f r, l)
    ]
  ]

  split_large :
      (n : ℕ) (w : World)
      → fits max size 0 0 ≡ false
      → split max size ctx n w ≡ (err (status resource_exhausted), w)
  unfolding split ◌>>=◌
  split_large n w h = rw h

  split_small :
      (n : ℕ) (w : World)
      → fits max size 0 0 ≡ true
      → split max size ctx n w
        ≡ (check_items max size ctx n 0 >>= λ _. lift (ok (pack max size n 0 n))) w
  unfolding split ◌>>=◌
  split_small n w h = rw h

  -- The outcome of the whole, when the header fits and the check of the items has ended.
  from_check :
      (n : ℕ) (w : World)
      → fits max size 0 0 ≡ true
      → {e : Error} → CheckOutcome n 0 (err e)
      → SplitOutcome n (err e)
  from_check n w h (item j p b) = item j (omega arith) b
  from_check n w h (ended t e p) = ended t e p

  each_fits : (n : ℕ) {u : Unit {0}} → CheckOutcome n 0 (ok u) → EachFits max size 0 n
  each_fits n (all_fit f) = λ i p q. f i p (omega arith)

  -- `split` makes no call and ends in one of four ways: the spans tile the items in order, none of them
  -- empty, each fits the limit and would not with one more item; or it refuses by ResourceExhausted when
  -- the request without items or the request of one item alone is too large, or by the context's error.
  pub split-SplitOutcome :
      (n : ℕ) (w : World)
      → SplitOutcome n (split max size ctx n w).0 × ((split max size ctx n w).1.log ≡ w.log)
  split-SplitOutcome n w = elim (Bool-cases (fits max size 0 0)) [
    | inr large ↦ rw (split_large n w large) (header large, refl)
    | inl small ↦ rw (split_small n w small) (elim (Ended-cases (check_items max size ctx n 0 w)) [
      | succeeded u w' h ↦
          let (o, l) = rw h at (check_items_lem n 0 w) in
          rw (>>=-ok _ _ h) (
            packed small (each_fits n o)
                (pack-IsPacking max size n 0 n (omega arith) (omega arith) (each_fits n o)),
            l,
          )
      | failed e w' h ↦
          let (o, l) = rw h at (check_items_lem n 0 w) in
          rw (>>=-err _ _ h) (from_check n w small o, l)
    ])
  ]
