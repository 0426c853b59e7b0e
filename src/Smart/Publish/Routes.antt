-- ===== src/Smart/Publish/Routes.antt =====
-- smart.go: the routes of the topology that `publish` builds.
use hurricache_go_client.Prelude.{
  ℕ, ℤ, pos, negsuc, ◌-ℤ◌, is_zero, ◌≡◌, refl, sym, ◌∙◌, ap, Bool, true, false, ◌&&◌, Option, none,
  some, List, [], ◌∷◌, ◌==◌, Bool-cases, inl, inr, ◌⊎◌, arith, subst, All,
}
use hurricache_go_client.Errors.{ok}
use hurricache_go_client.Errors.Guards.{if_not, ok_inj}
use hurricache_go_client.Rpc.{Stub}
use hurricache_go_client.Smart.Routing.{
  NodeRole, undefined_node, master_node, backup_node, other_node, RouteKey, same_role, same_key,
  find_route,
}
use hurricache_go_client.Smart.Publish.{put_route, conflicts, add_routes}

abbrev pub route_key : NodeRole → ℕ → RouteKey
route_key role i = record { shard = i; role = role }

module _ (k j : RouteKey) (ep old : Stub) (l : List (RouteKey × Stub)) where
  route_hit : same_key j k ≡ true → find_route k ((j, old) ∷ l) ≡ some old
  route_hit y = unfold find_route in rw y

  route_miss : same_key j k ≡ false → find_route k ((j, old) ∷ l) ≡ find_route k l
  route_miss n = unfold find_route in rw n

  put_route_hit : same_key j k ≡ true → put_route k ep ((j, old) ∷ l) ≡ (k, ep) ∷ l
  put_route_hit y = unfold put_route in rw y

  put_route_miss :
      same_key j k ≡ false → put_route k ep ((j, old) ∷ l) ≡ (j, old) ∷ put_route k ep l
  put_route_miss n = unfold put_route in rw n

same_role_refl : (r : NodeRole) → same_role r r ≡ true
same_role_refl undefined_node = refl
same_role_refl master_node = refl
same_role_refl backup_node = refl
same_role_refl (other_node (pos n)) = ground arith
same_role_refl (other_node (negsuc n)) = ground arith

zero_difference : (a b : ℤ) → is_zero (a -ℤ b) ≡ true → a ≡ b
zero_difference a b e = ground arith

same_role-path : (r s : NodeRole) → same_role r s ≡ true → r ≡ s
same_role-path (other_node a) (other_node b) e = ap other_node (zero_difference a b e)
same_role-path r s e = ground arith

same_key_refl : (k : RouteKey) → same_key k k ≡ true
same_key_refl k = let r = same_role_refl k.role in ground arith

same_key-path : (j k : RouteKey) → same_key j k ≡ true → j ≡ k
same_key-path j k e =
    let (s, r) = both (j.shard == k.shard) (same_role j.role k.role) e in
    key_path (same_number j.shard k.shard s) (same_role-path j.role k.role r)
  where
    both : (a b : Bool) → (a && b) ≡ true → (a ≡ true) × (b ≡ true)
    both a b e = ground arith

    same_number : (m n : ℕ) → (m == n) ≡ true → m ≡ n
    same_number m n e = ground arith

    key_path : {m n : ℕ} {r s : NodeRole} → m ≡ n → r ≡ s → route_key r m ≡ route_key s n
    key_path p q = λ i. record { shard = p i; role = q i }

pub find_route-put_same :
    (k : RouteKey) (ep : Stub) (l : List (RouteKey × Stub))
    → find_route k (put_route k ep l) ≡ some ep
find_route-put_same k ep [] = unfold put_route in route_hit k k ep ep [] (same_key_refl k)
find_route-put_same k ep ((j, old) ∷ l) = elim (Bool-cases (same_key j k)) [
  | inl y ↦
      ap (find_route k) (put_route_hit k j ep old l y) ∙ route_hit k k ep ep l (same_key_refl k)
  | inr n ↦
      ap (find_route k) (put_route_miss k j ep old l n)
      ∙ route_miss k j ep old (put_route k ep l) n
      ∙ find_route-put_same k ep l
]

-- A write at one key leaves the routes of the others.
find_route-put_other :
    (k m : RouteKey) (ep : Stub) (l : List (RouteKey × Stub))
    → same_key k m ≡ false
    → find_route m (put_route k ep l) ≡ find_route m l
find_route-put_other k m ep [] d = unfold put_route in route_miss m k ep ep [] d
find_route-put_other k m ep ((j, old) ∷ l) d = elim (Bool-cases (same_key j k)) [
  | inl y ↦
      ap (find_route m) (put_route_hit k j ep old l y)
      ∙ route_miss m k ep ep l d
      ∙ sym (route_miss m j ep old l (ap (λ x. same_key x m) (same_key-path j k y) ∙ d))
  | inr n ↦ ap (find_route m) (put_route_miss k j ep old l n) ∙ elim (Bool-cases (same_key j m)) [
    | inl y ↦ route_hit m j ep old (put_route k ep l) y ∙ sym (route_hit m j ep old l y)
    | inr c ↦
        route_miss m j ep old (put_route k ep l) c
        ∙ find_route-put_other k m ep l d
        ∙ sym (route_miss m j ep old l c)
  ]
]

conflict_free : (o : Option Stub) (ep x : Stub) → conflicts o ep ≡ false → o ≡ some x → ep ≡ x
conflict_free none ep x c e = absurd (ground arith)
conflict_free (some old) ep x c e = ground arith

-- A route that is written without a conflict leaves every route that was there.
find_route-put_kept :
    (k m : RouteKey) (ep x : Stub) (l : List (RouteKey × Stub))
    → conflicts (find_route k l) ep ≡ false
    → find_route m l ≡ some x
    → find_route m (put_route k ep l) ≡ some x
find_route-put_kept k m ep x l c e = elim (Bool-cases (same_key k m)) [
  | inr d ↦ find_route-put_other k m ep l d ∙ e
  | inl y ↦
      let p = same_key-path k m y in
      ap (λ a. find_route a (put_route k ep l)) (sym p)
      ∙ find_route-put_same k ep l
      ∙ ap some (conflict_free (find_route k l) ep x c (ap (λ a. find_route a l) p ∙ e))
]

-- What the routes of one peer add to the map: each of them, nothing is lost, and nothing else is added.
pub record Added (ep : Stub) (role : NodeRole) (ids : List ℕ) (l l' : List (RouteKey × Stub))
    : Type 0 where
  pub each : All (λ i. find_route (route_key role i) l' ≡ some ep) ids
  pub kept : (m : RouteKey) (x : Stub) → find_route m l ≡ some x → find_route m l' ≡ some x
  pub only :
      (m : RouteKey) (x : Stub) → find_route m l' ≡ some x → (ep ≡ x) ⊎ (find_route m l ≡ some x)

some_inj : (x y : Stub) → Path (Option Stub) (some x) (some y) → x ≡ y
some_inj x y e = ground arith

only_by :
    (k m : RouteKey) (ep x : Stub) (l : List (RouteKey × Stub))
    → (ep ≡ x) ⊎ (find_route m (put_route k ep l) ≡ some x)
    → (ep ≡ x) ⊎ (find_route m l ≡ some x)
only_by k m ep x l (inl e) = inl e
only_by k m ep x l (inr g) = elim (Bool-cases (same_key k m)) [
  | inr d ↦ inr (sym (find_route-put_other k m ep l d) ∙ g)
  | inl y ↦ inl (
      some_inj ep x (
        sym (find_route-put_same k ep l)
        ∙ ap (λ a. find_route a (put_route k ep l)) (same_key-path k m y)
        ∙ g))
]

pub add_routes-Added :
    (ep : Stub) (role : NodeRole) (ids : List ℕ) (l l' : List (RouteKey × Stub))
    → add_routes ep role ids l ≡ ok l'
    → Added ep role ids l l'
unfolding add_routes
add_routes-Added ep role [] l l' e =
    subst (Added ep role [] l) (ok_inj l l' e)
      (record { each = tt; kept = λ m x h. h; only = λ m x h. inr h })
add_routes-Added ep role (i ∷ ids) l l' e =
    let k = route_key role i in
    let (c, h) =
      if_not (conflicts (find_route k l) ep) (add_routes ep role ids (put_route k ep l)) _ l' e in
    let a = add_routes-Added ep role ids (put_route k ep l) l' h in
    record {
      each = (a.kept k ep (find_route-put_same k ep l), a.each);
      kept = λ m x g. a.kept m x (find_route-put_kept k m ep x l c g);
      only = λ m x g. only_by k m ep x l (a.only m x g);
    }
