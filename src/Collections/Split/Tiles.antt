-- ===== src/Collections/Split/Tiles.antt =====
-- collections.go: the spans that `split` returns cover the items in order, and each fits the limit.
use hurricache_go_client.Prelude.{
  ℕ, zero, suc, ℤ, ltb, ◌+◌, ◌-◌, ◌/◌, ◌≤◌, ◌<◌, ◌≡◌, refl, ap, true, false, List, [], ◌∷◌, arith,
  Bool-cases, inl, inr, ◌⊎◌, subst, sym, ◌∙◌, ltb→lt, All,
}
use hurricache_go_client.Collections.Split.{Span, fits, middle, bisect, pack}

-- The spans follow one another from `a` to `n`, none of them empty.
abbrev pub Tiles : ℕ → ℕ → List Span → Type 0
Tiles a n [] = a ≡ n
Tiles a n (p ∷ ps) = (p.start ≡ a) × (a < p.end) × (p.end ≤ n) × Tiles p.end n ps

middle_inside :
    (lo hi : ℕ) → lo < hi → (lo < lo + (hi - lo + 1) / 2) × (lo + (hi - lo + 1) / 2 ≤ hi)
middle_inside lo hi h = (omega arith, omega arith)

module _ (max : ℤ) (size : ℕ → ℕ → ℕ) where
  -- `m` is an end of a span from `start` that fits, and one more item would not, if there is one.
  pub record IsEnd (start n m : ℕ) : Type 0 where
    pub good : fits max size start m ≡ true
    pub full : (m ≡ n) ⊎ (fits max size start (m + 1) ≡ false)

  module _ (fuel start lo hi : ℕ) where
    bisect_stop : ltb lo hi ≡ false → bisect max size (suc fuel) start lo hi ≡ lo
    unfolding bisect
    bisect_stop h = rw (h, bisect)

    bisect_up :
        ltb lo hi ≡ true
        → fits max size start (middle max size lo hi) ≡ true
        → bisect max size (suc fuel) start lo hi
          ≡ bisect max size fuel start (middle max size lo hi) hi
    unfolding bisect
    bisect_up h k = rw (h, k, bisect)

    bisect_down :
        ltb lo hi ≡ true
        → fits max size start (middle max size lo hi) ≡ false
        → bisect max size (suc fuel) start lo hi
          ≡ bisect max size fuel start lo (middle max size lo hi - 1)
    unfolding bisect
    bisect_down h k = rw (h, k, bisect)

  abbrev Found : ℕ → ℕ → ℕ → ℕ → ℕ → Type 0
  Found start n lo hi m = (lo ≤ m) × (m ≤ hi) × IsEnd start n m

  abbrev Full : ℕ → ℕ → ℕ → Type 0
  Full start n hi = (hi ≡ n) ⊎ (fits max size start (hi + 1) ≡ false)

  Found-at :
      (start n lo hi : ℕ)
      → lo ≡ hi
      → fits max size start lo ≡ true
      → Full start n hi
      → Found start n lo hi lo
  Found-at start n lo hi e f g =
      (omega arith, omega arith, record { good = f; full = subst (Full start n) (sym e) g })

  -- The bisection finds such an end, with fuel for the width of its range.
  bisect_lem :
      (fuel start n lo hi : ℕ)
      → lo ≤ hi
      → hi - lo ≤ fuel
      → fits max size start lo ≡ true
      → Full start n hi
      → Found start n lo hi (bisect max size fuel start lo hi)
  bisect_lem zero start n lo hi h k f g = unfold bisect in Found-at start n lo hi (omega arith) f g
  bisect_lem (suc fuel) start n lo hi h k f g = elim (Bool-cases (ltb lo hi)) [
    | inr stop ↦ rw (bisect_stop fuel start lo hi stop) (Found-at start n lo hi (ground arith) f g)
    | inl more ↦
        let mid = middle max size lo hi in
        let inside : (lo < mid) × (mid ≤ hi) = middle_inside lo hi (ltb→lt lo hi more) in
        elim (Bool-cases (fits max size start mid)) [
          | inl good ↦
              let r = bisect_lem fuel start n mid hi inside.1 (omega arith) good g in
              rw (bisect_up fuel start lo hi more good) (omega (arith, r.0), r.1, r.2)
          | inr bad ↦
              let back : mid - 1 + 1 ≡ mid = omega arith in
              let r =
                bisect_lem fuel start n lo (mid - 1) (omega arith) (omega arith) f
                  (inr (ap (fits max size start) back ∙ bad)) in
              rw (bisect_down fuel start lo hi more bad) (r.0, omega (arith, r.1), r.2)
        ]
  ]

  -- The end of the span that starts at `start`, for items that fit one by one.
  span_end :
      (start n : ℕ)
      → start < n
      → fits max size start (start + 1) ≡ true
      → Found start n (start + 1) n (bisect max size n start (start + 1) n)
  span_end start n h f = bisect_lem n start n (start + 1) n (omega arith) (omega arith) f (inl refl)

  pack_stop : (fuel start n : ℕ) → ltb start n ≡ false → pack max size (suc fuel) start n ≡ []
  unfolding pack
  pack_stop fuel start n h = rw (h, pack)

  pack_more :
      (fuel start n : ℕ)
      → ltb start n ≡ true
      → pack max size (suc fuel) start n
        ≡ record { start = start; end = bisect max size n start (start + 1) n }
          ∷ pack max size fuel (bisect max size n start (start + 1) n) n
  unfolding pack
  pack_more fuel start n h = rw (h, pack)

  -- A packing: it tiles the items, and each span is an end as the bisection finds it.
  abbrev pub IsPacking : ℕ → ℕ → List Span → Type 0
  IsPacking a n ps = Tiles a n ps × All (λ p. IsEnd p.start n p.end) ps

  -- Each item by itself fits.
  abbrev pub EachFits : ℕ → ℕ → Type 0
  EachFits start n = (i : ℕ) → start ≤ i → i < n → fits max size i (i + 1) ≡ true

  pub pack-IsPacking :
      (fuel start n : ℕ)
      → start ≤ n
      → n - start ≤ fuel
      → EachFits start n
      → IsPacking start n (pack max size fuel start n)
  pack-IsPacking zero start n h k f = unfold pack in (omega arith, tt)
  pack-IsPacking (suc fuel) start n h k f = elim (Bool-cases (ltb start n)) [
    | inr stop ↦ rw (pack_stop fuel start n stop) (ground arith, tt)
    | inl more ↦
        let less = ltb→lt start n more in
        let (low, high, is_end) = span_end start n less (f start (omega arith) less) in
        let (tiles, ends) =
          pack-IsPacking fuel (bisect max size n start (start + 1) n) n high (omega arith)
            (λ i p q. f i (omega arith) q) in
        rw (pack_more fuel start n more) ((refl, omega arith, high, tiles), (is_end, ends))
  ]
