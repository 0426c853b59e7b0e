-- ===== src/Collections/Split.antt =====
-- collections.go: `span` and `split`. `size i j` is the serialized size of the request that `build`
-- makes of the items from i to j. The two loops run on fuel: a bisection halves `hi - lo`, so the
-- number of items is enough for it, and each packed span takes an item, so it is enough for those.
pub mod Tiles
pub mod Outcome
use hurricache_go_client.Prelude.{
  ℕ, zero, suc, ℤ, pos, ltb_ℤ, ltb, ◌+◌, ◌-◌, ◌/◌, Bool, true, false, not, List, [], ◌∷◌,
  if◌then◌else◌,
}
use hurricache_go_client.Errors.{Except, ok, err, status, resource_exhausted}
use hurricache_go_client.World.{Ctx, World, Exec, lift, ◌>>=◌, ◌>>◌}
use hurricache_go_client.Session.{check_context}

pub record Span : Type 0 where
  pub start : ℕ
  pub end : ℕ

module _ (max : ℤ) (size : ℕ → ℕ → ℕ) where
  abbrev pub fits : ℕ → ℕ → Bool
  fits i j = not (ltb_ℤ max (pos (size i j)))

  -- `lo + (hi-lo+1)/2`.
  abbrev pub middle : ℕ → ℕ → ℕ
  middle lo hi = lo + (hi - lo + 1) / 2

  unfoldable pub bisect : ℕ → ℕ → ℕ → ℕ → ℕ
  bisect zero start lo hi = lo
  bisect (suc fuel) start lo hi = elim (ltb lo hi) [
    | false ↦ lo
    | true ↦ elim (fits start (middle lo hi)) [
      | true ↦ bisect fuel start (middle lo hi) hi
      | false ↦ bisect fuel start lo (middle lo hi - 1)
    ]
  ]

  unfoldable pub pack : ℕ → ℕ → ℕ → List Span
  pack zero start n = []
  pack (suc fuel) start n = elim (ltb start n) [
    | false ↦ []
    | true ↦
        let lo = bisect n start (start + 1) n in record { start = start; end = lo } ∷ pack fuel lo n
  ]

  abbrev check_fits : ℕ → ℕ → Except (Unit {0})
  check_fits i j = if fits i j then ok tt else err (status resource_exhausted)

  -- The check of the items from `i` on, of which `left` are left.
  unfoldable pub check_items : Ctx → ℕ → ℕ → Exec (Unit {0})
  check_items ctx zero i = lift (ok tt)
  check_items ctx (suc left) i = do
    check_context ctx
    lift (check_fits i (i + 1))
    check_items ctx left (i + 1)

  unfoldable pub split : Ctx → ℕ → Exec (List Span)
  split ctx n = do lift (check_fits 0 0); check_items ctx n 0; lift (ok (pack n 0 n))
