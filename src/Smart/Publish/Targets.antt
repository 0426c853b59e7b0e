-- ===== src/Smart/Publish/Targets.antt =====
-- smart.go: the maps from targets to endpoints, looked up and written.
use hurricache_go_client.Prelude.{
  ◌+◌, ◌≤◌, ◌≡◌, sym, ◌∙◌, ap, true, false, none, some, List, [], ◌∷◌, String, ◌==◌, if◌then◌else◌,
  arith, Bool-cases, inl, inr,
}
use text.Mathlib.Text.{◌==◌ as str_eq}
use text.Mathlib.TextEquality.{eq_iff}
use text.Mathlib.TextPositions.{eq_refl}
use hurricache_go_client.Rpc.{Stub}
use hurricache_go_client.Smart.Routing.{find_target}
use hurricache_go_client.Smart.State.{put}
use hurricache_go_client.Smart.State.Retire.{entries}

module _ (t u : String) (p x : Stub) (l : List (String × Stub)) where
  find_hit : str_eq u t ≡ true → find_target t ((u, x) ∷ l) ≡ some x
  find_hit y = unfold find_target in rw y

  find_miss : str_eq u t ≡ false → find_target t ((u, x) ∷ l) ≡ find_target t l
  find_miss n = unfold find_target in rw n

  put_hit : str_eq u t ≡ true → put t p ((u, x) ∷ l) ≡ (t, p) ∷ l
  put_hit y = rw y

  put_miss : str_eq u t ≡ false → put t p ((u, x) ∷ l) ≡ (u, x) ∷ put t p l
  put_miss n = rw n

-- A target that is looked up is an entry.
pub find_target-entries :
    (t : String) (l : List (String × Stub)) (p q : Stub)
    → find_target t l ≡ some p
    → (if p == q then 1 else 0) ≤ entries q l
find_target-entries t [] p q e = unfold find_target in ground arith
find_target-entries t ((u, x) ∷ l) p q e = elim (Bool-cases (str_eq u t)) [
  | inl y ↦ let k = sym (find_hit t u p x l y) ∙ e in ground arith
  | inr n ↦ omega (arith, find_target-entries t l p q (sym (find_miss t u p x l n) ∙ e))
]

-- A write at a key that the map lacks adds one entry.
pub put_new-entries :
    (q : Stub) (t : String) (p : Stub) (l : List (String × Stub))
    → find_target t l ≡ none
    → entries q (put t p l) ≡ entries q l + (if p == q then 1 else 0)
put_new-entries q t p [] e = omega arith
put_new-entries q t p ((u, x) ∷ l) e = elim (Bool-cases (str_eq u t)) [
  | inl y ↦ let k = sym (find_hit t u p x l y) ∙ e in ground arith
  | inr n ↦
      rw (put_miss t u p x l n)
        (omega (arith, put_new-entries q t p l (sym (find_miss t u p x l n) ∙ e)))
]

module _ (s u : String) (x : Stub) (l : List (String × Stub)) where
  none_split : find_target s ((u, x) ∷ l) ≡ none → (str_eq u s ≡ false) × (find_target s l ≡ none)
  none_split e = elim (Bool-cases (str_eq u s)) [
    | inl y ↦ let k = sym (find_hit s u x x l y) ∙ e in ground arith
    | inr n ↦ (n, sym (find_miss s u x x l n) ∙ e)
  ]

  none_join : str_eq u s ≡ false → find_target s l ≡ none → find_target s ((u, x) ∷ l) ≡ none
  none_join n e = find_miss s u x x l n ∙ e

-- What a write leaves out was left out before, and is not the key.
pub find_target-put-none :
    (t : String) (p : Stub) (l : List (String × Stub)) (s : String)
    → find_target s (put t p l) ≡ none
    → (str_eq t s ≡ false) × (find_target s l ≡ none)
find_target-put-none t p [] s e = none_split s t p [] e
find_target-put-none t p ((u, x) ∷ l) s e = elim (Bool-cases (str_eq u t)) [
  | inl y ↦
      let (d, k) = none_split s t p l (ap (find_target s) (sym (put_hit t u p x l y)) ∙ e) in
      (d, none_join s u x l (ap (λ v. str_eq v s) ((eq_iff u t).0 y) ∙ d) k)
  | inr n ↦
      let (d, k) = none_split s u x _ (ap (find_target s) (sym (put_miss t u p x l n)) ∙ e) in
      let (c, h) = find_target-put-none t p l s k in (c, none_join s u x l d h)
]

-- A write at another key.
pub find_target-put_other :
    (t : String) (p : Stub) (l : List (String × Stub)) (s : String)
    → str_eq t s ≡ false
    → find_target s l ≡ none
    → find_target s (put t p l) ≡ none
find_target-put_other t p [] s d e = none_join s t p [] d e
find_target-put_other t p ((u, x) ∷ l) s d e =
    let (c, k) = none_split s u x l e in
    elim (Bool-cases (str_eq u t)) [
      | inl y ↦ ap (find_target s) (put_hit t u p x l y) ∙ none_join s t p l d k
      | inr n ↦
          ap (find_target s) (put_miss t u p x l n)
          ∙ none_join s u x _ c (find_target-put_other t p l s d k)
    ]

-- A write at the key, and at another.
pub find_target-put_same :
    (t : String) (p : Stub) (l : List (String × Stub)) → find_target t (put t p l) ≡ some p
find_target-put_same t p [] = find_hit t t p p [] (eq_refl t)
find_target-put_same t p ((u, x) ∷ l) = elim (Bool-cases (str_eq u t)) [
  | inl y ↦ ap (find_target t) (put_hit t u p x l y) ∙ find_hit t t p p l (eq_refl t)
  | inr n ↦
      ap (find_target t) (put_miss t u p x l n)
      ∙ find_miss t u p x (put t p l) n
      ∙ find_target-put_same t p l
]

-- A write at a key that the map lacks leaves what it has.
pub find_target-put_kept :
    (t : String) (p : Stub) (l : List (String × Stub)) (s : String) (q : Stub)
    → find_target t l ≡ none
    → find_target s l ≡ some q
    → find_target s (put t p l) ≡ some q
find_target-put_kept t p [] s q e h = absurd (unfold find_target in ground arith)
find_target-put_kept t p ((u, x) ∷ l) s q e h =
    let (n, k) = none_split t u x l e in
    ap (find_target s) (put_miss t u p x l n) ∙ elim (Bool-cases (str_eq u s)) [
      | inl y ↦ find_hit s u x x (put t p l) y ∙ sym (find_hit s u x x l y) ∙ h
      | inr m ↦
          find_miss s u x x (put t p l) m
          ∙ find_target-put_kept t p l s q k (sym (find_miss s u x x l m) ∙ h)
    ]
