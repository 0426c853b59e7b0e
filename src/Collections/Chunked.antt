-- ===== src/Collections/Chunked.antt =====
-- collections.go: what the chunks of an insertion come to together, against one request for all items.
use hurricache_go_client.Prelude.{
  ℕ, zero, suc, ◌+◌, ◌-◌, ◌≤◌, ◌≡◌, ap, sym, ◌∙◌, Bool, true, false, List, [], ◌∷◌, ◌++◌, length,
  slice, take, drop, take_all, arith,
}
use mathlib.Core.List.{reverse_aux}
use hurricache_go_client.Collections.Split.{Span}
use hurricache_go_client.Collections.Split.Tiles.{Tiles}
use hurricache_go_client.Collections.Add.{
  AddKind, add_generic, add_head, add_tail, add_position, add_before, add_after, add_bool,
  add_ordered_bool, send_order,
}

module _ {A : Type 0} where
  take_eq : (k m : ℕ) (xs : List A) → k ≡ m → take k xs ≡ take m xs
  take_eq k m xs h = ap (λ t. take t xs) h

  drop_eq : (k m : ℕ) (xs : List A) → k ≡ m → drop k xs ≡ drop m xs
  drop_eq k m xs h = ap (λ t. drop t xs) h

  take_add : (k m : ℕ) (xs : List A) → take (k + m) xs ≡ take k xs ++ take m (drop k xs)
  take_add zero m xs = take_eq (zero + m) m xs (omega arith)
  take_add (suc k) zero [] = take_eq (suc k + zero) (suc k) [] (omega arith)
  take_add (suc k) (suc m) [] = take_eq (suc k + suc m) (suc (k + suc m)) [] (omega arith)
  take_add (suc k) m (x ∷ xs) =
      take_eq (suc k + m) (suc (k + m)) (x ∷ xs) (omega arith) ∙ ap (◌∷◌ x) (take_add k m xs)

  drop_add : (a k : ℕ) (xs : List A) → drop (a + k) xs ≡ drop k (drop a xs)
  drop_add zero k xs = drop_eq (zero + k) k xs (omega arith)
  drop_add (suc a) zero [] = drop_eq (suc a + zero) (suc a) [] (omega arith)
  drop_add (suc a) (suc k) [] = drop_eq (suc a + suc k) (suc (a + suc k)) [] (omega arith)
  drop_add (suc a) k (x ∷ xs) =
      drop_eq (suc a + k) (suc (a + k)) (x ∷ xs) (omega arith) ∙ drop_add a k xs

  -- A slice is the slices on both sides of a point in it.
  slice-append :
      (a e n : ℕ) (xs : List A) → a ≤ e → e ≤ n → slice a n xs ≡ slice a e xs ++ slice e n xs
  slice-append a e n xs h k =
      take_eq (n - a) (e - a + (n - e)) (drop a xs) (omega arith)
      ∙ take_add (e - a) (n - e) (drop a xs)
      ∙ ap (λ l. take (e - a) (drop a xs) ++ take (n - e) l)
          (sym (drop_add a (e - a) xs) ∙ drop_eq (a + (e - a)) e xs (omega arith))

  slice_empty : (a n : ℕ) (xs : List A) → a ≡ n → slice a n xs ≡ []
  slice_empty a n xs h = take_eq (n - a) 0 (drop a xs) (omega arith)

  slice_all : (xs : List A) → slice 0 (length xs) xs ≡ xs
  slice_all xs = take_all (length xs - 0) xs (omega arith)

module _ {S A : Type 0} (apply : S → List A → S) (items : List A) where
  -- The chunks of the spans, applied one after another.
  abbrev pub apply_all : S → List Span → S
  apply_all s [] = s
  apply_all s (p ∷ ps) = apply_all (apply s (slice p.start p.end items)) ps

module _ {S A : Type 0} (apply : S → List A → S) (items : List A)
    (empty : (s : S) → apply s [] ≡ s) where
  forward :
      ((s : S) (a b : List A) → apply s (a ++ b) ≡ apply (apply s a) b)
      → (ps : List Span) (s : S) (a n : ℕ) → Tiles a n ps
      → apply_all apply items s ps ≡ apply s (slice a n items)
  forward law [] s a n h = sym (ap (apply s) (slice_empty a n items h) ∙ empty s)
  forward law (p ∷ ps) s a n h =
      ap (λ i. apply_all apply items (apply s (slice i p.end items)) ps) h.0
      ∙ forward law ps (apply s (slice a p.end items)) p.end n h.3
      ∙ sym (law s (slice a p.end items) (slice p.end n items))
      ∙ ap (apply s) (sym (slice-append a p.end n items (omega (arith, h.1)) h.2))

  backward :
      ((s : S) (a b : List A) → apply s (a ++ b) ≡ apply (apply s b) a)
      → (ps acc : List Span) (s : S) (a n : ℕ) → Tiles a n ps
      → apply_all apply items s (reverse_aux ps acc)
        ≡ apply_all apply items (apply s (slice a n items)) acc
  backward law [] acc s a n h =
      ap (λ t. apply_all apply items t acc) (sym (ap (apply s) (slice_empty a n items h) ∙ empty s))
  backward law (p ∷ ps) acc s a n h =
      backward law ps (p ∷ acc) s p.end n h.3
      ∙ ap
          (λ i.
            apply_all apply items (apply (apply s (slice p.end n items)) (slice i p.end items)) acc)
          h.0
      ∙ ap (λ t. apply_all apply items t acc)
          (sym (law s (slice a p.end items) (slice p.end n items))
            ∙ ap (apply s) (sym (slice-append a p.end n items (omega (arith, h.1)) h.2)))

-- What a server does with an insertion, as far as chunks go: nothing for no items; at the head, at the
-- tail and before a pivot, two requests are one for both in order; after a pivot the second goes first.
pub record IsInsertion {S A : Type 0} (apply : AddKind → S → List A → S) : Type 0 where
  pub empty : (kind : AddKind) (s : S) → apply kind s [] ≡ s
  pub head :
      (s : S) (a b : List A) → apply add_head s (a ++ b) ≡ apply add_head (apply add_head s a) b
  pub tail :
      (s : S) (a b : List A) → apply add_tail s (a ++ b) ≡ apply add_tail (apply add_tail s a) b
  pub before :
      (s : S) (a b : List A)
      → apply add_before s (a ++ b) ≡ apply add_before (apply add_before s a) b
  pub after :
      (s : S) (a b : List A) → apply add_after s (a ++ b) ≡ apply add_after (apply add_after s b) a

-- The kinds of insertion at an end or beside a pivot.
abbrev pub is_placed : AddKind → Bool
is_placed add_head = true
is_placed add_tail = true
is_placed add_before = true
is_placed add_after = true
is_placed _ = false

-- For a server with the laws of `IsInsertion`, an insertion at the head, at the tail, before or after a pivot comes to
-- the same in chunks, sent in the client's order, as in one request with all items: for any spans that
-- tile the items.
pub apply_all-send_order :
    {S A : Type 0} (apply : AddKind → S → List A → S) (kind : AddKind) (items : List A) (s : S)
    (ps : List Span)
    → IsInsertion apply
    → is_placed kind ≡ true
    → Tiles 0 (length items) ps
    → apply_all (apply kind) items s (send_order kind ps) ≡ apply kind s items
apply_all-send_order apply add_head items s ps i h t =
    forward (apply add_head) items (i.empty add_head) i.head ps s 0 (length items) t
    ∙ ap (apply add_head s) (slice_all items)
apply_all-send_order apply add_tail items s ps i h t =
    forward (apply add_tail) items (i.empty add_tail) i.tail ps s 0 (length items) t
    ∙ ap (apply add_tail s) (slice_all items)
apply_all-send_order apply add_before items s ps i h t =
    forward (apply add_before) items (i.empty add_before) i.before ps s 0 (length items) t
    ∙ ap (apply add_before s) (slice_all items)
apply_all-send_order apply add_after items s ps i h t =
    backward (apply add_after) items (i.empty add_after) i.after ps [] s 0 (length items) t
    ∙ ap (apply add_after s) (slice_all items)
apply_all-send_order apply add_generic items s ps i h t = cc
apply_all-send_order apply add_position items s ps i h t = cc
apply_all-send_order apply add_bool items s ps i h t = cc
apply_all-send_order apply add_ordered_bool items s ps i h t = cc
