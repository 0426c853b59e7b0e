-- ===== src/Smart/State/Retire.antt =====
-- smart.go: what `retireLocked` keeps, and what it closes.
use hurricache_go_client.Prelude.{
  ℕ, ◌+◌, ◌≤◌, ◌<◌, ◌≡◌, refl, sym, ◌∙◌, true, false, List, [], ◌∷◌, String, ◌==◌, if◌then◌else◌,
  arith, count, Bool-cases, inl, inr,
}
use hurricache_go_client.Rpc.{Stub}
use hurricache_go_client.Smart.State.{
  SmartBackend, close_node, keep_node, is_retired, retire_nodes, endpoints_of,
}

module _ (t : String) (p : Stub) (rest : List (String × Stub)) (b : SmartBackend) where
  retire_yes :
      is_retired (b.endpoints p) ≡ true
      → retire_nodes ((t, p) ∷ rest) b ≡ retire_nodes rest (close_node p b)
  unfolding retire_nodes
  retire_yes h = rw (h, retire_nodes)

  retire_no :
      is_retired (b.endpoints p) ≡ false
      → retire_nodes ((t, p) ∷ rest) b ≡ keep_node t p (retire_nodes rest b)
  unfolding retire_nodes
  retire_no h = rw (h, retire_nodes)

  -- What holds of the rest, by whether the first entry is retired, holds of the whole.
  retire_cases :
      (P : SmartBackend → Type 0)
      → (is_retired (b.endpoints p) ≡ true → P (retire_nodes rest (close_node p b)))
      → (is_retired (b.endpoints p) ≡ false → P (keep_node t p (retire_nodes rest b)))
      → P (retire_nodes ((t, p) ∷ rest) b)
  retire_cases P h k = elim (Bool-cases (is_retired (b.endpoints p))) [
    | inl y ↦ rw (retire_yes y) (h y)
    | inr n ↦ rw (retire_no n) (k n)
  ]

-- What a retirement leaves as it is.
pub record Untouched (b c : SmartBackend) : Type 0 where
  pub active : (p : Stub) → (c.endpoints p).active ≡ (b.endpoints p).active
  pub refs : (p : Stub) → (c.endpoints p).refs ≡ (b.endpoints p).refs
  pub connection : (p : Stub) → (c.endpoints p).connection ≡ (b.endpoints p).connection
  pub next : c.next ≡ b.next
  pub snapshot : c.snapshot ≡ b.snapshot
  pub over : c.closed ≡ b.closed
  pub current : c.active_coordinator ≡ b.active_coordinator
  pub coordinators : c.coordinators ≡ b.coordinators

pub Untouched-refl : (b : SmartBackend) → Untouched b b
Untouched-refl b = record {
  active = λ p. refl;
  refs = λ p. refl;
  connection = λ p. refl;
  next = refl;
  snapshot = refl;
  over = refl;
  current = refl;
  coordinators = refl;
}

pub Untouched-trans : {a b c : SmartBackend} → Untouched a b → Untouched b c → Untouched a c
Untouched-trans u v = record {
  active = λ p. v.active p ∙ u.active p;
  refs = λ p. v.refs p ∙ u.refs p;
  connection = λ p. v.connection p ∙ u.connection p;
  next = v.next ∙ u.next;
  snapshot = v.snapshot ∙ u.snapshot;
  over = v.over ∙ u.over;
  current = v.current ∙ u.current;
  coordinators = v.coordinators ∙ u.coordinators;
}

pub close_node-Untouched : (p : Stub) (b : SmartBackend) → Untouched b (close_node p b)
close_node-Untouched p b = record {
  active = λ q. ground arith;
  refs = λ q. ground arith;
  connection = λ q. ground arith;
  next = refl;
  snapshot = refl;
  over = refl;
  current = refl;
  coordinators = refl;
}

Untouched-nodes :
    {b c : SmartBackend} (l : List (String × Stub))
    → Untouched b c
    → Untouched b (record c { nodes = l })
Untouched-nodes l u = record {
  active = u.active;
  refs = u.refs;
  connection = u.connection;
  next = u.next;
  snapshot = u.snapshot;
  over = u.over;
  current = u.current;
  coordinators = u.coordinators;
}

pub retire_nodes-Untouched :
    (l : List (String × Stub)) (b : SmartBackend) → Untouched b (retire_nodes l b)
retire_nodes-Untouched [] b = unfold retire_nodes in (Untouched-nodes [] (Untouched-refl b))
retire_nodes-Untouched ((t, p) ∷ l) b =
    retire_cases t p l b (Untouched b)
      (λ _. Untouched-trans (close_node-Untouched p b) (retire_nodes-Untouched l (close_node p b)))
      (λ _. Untouched-nodes _ (retire_nodes-Untouched l b))

-- The retired test reads fields that a retirement leaves alone.
is_retired-close_node :
    (p q : Stub) (b : SmartBackend)
    → is_retired ((close_node p b).endpoints q) ≡ is_retired (b.endpoints q)
is_retired-close_node p q b = ground arith

pub is_retired-Untouched :
    {b c : SmartBackend}
    → Untouched b c
    → (p : Stub) → is_retired (c.endpoints p) ≡ is_retired (b.endpoints p)
is_retired-Untouched u p = rw (u.active p, u.refs p)

-- How often an endpoint stands in a map.
abbrev pub entries : Stub → List (String × Stub) → ℕ
entries p l = count p (endpoints_of l)

-- How a closing loop ends for one endpoint: untouched, or closed with its `Close` called unless it was
-- closed before.
pub data ClosedAt (R : Type 0) (b c : SmartBackend) (q : Stub) : Type 0 where
  same :
      (c.endpoints q).closed ≡ (b.endpoints q).closed
      → count q c.released ≡ count q b.released
      → ClosedAt R b c q
  shut :
      R
      → (c.endpoints q).closed ≡ true
      → count q c.released ≤ count q b.released + (if (b.endpoints q).closed then 0 else 1)
      → ClosedAt R b c q

-- What a retirement over `l` comes to for one endpoint.
pub record RetiredAt (l : List (String × Stub)) (b c : SmartBackend) (q : Stub) : Type 0 where
  pub kept : 0 < entries q c.nodes → is_retired (b.endpoints q) ≡ false
  pub fewer : entries q c.nodes ≤ entries q l
  pub closing : ClosedAt ((is_retired (b.endpoints q) ≡ true) × (0 < entries q l)) b c q

-- One more call of `close_node` before a loop.
pub ClosedAt-close_node :
    (R R' : Type 0) (p q : Stub) (b c : SmartBackend)
    → (R → R')
    → ((p == q) ≡ true → R')
    → ClosedAt R (close_node p b) c q
    → ClosedAt R' b c q
ClosedAt-close_node R R' p q b c f g (same e k) = elim (Bool-cases (p == q)) [
  | inl y ↦ shut (g y) (ground arith) (ground arith)
  | inr n ↦ same (ground arith) (ground arith)
]
ClosedAt-close_node R R' p q b c f g (shut r e k) = shut (f r) e (ground arith)

ClosedAt-mono :
    {R R' : Type 0} {b c : SmartBackend} {q : Stub} (l : List (String × Stub))
    → (R → R')
    → ClosedAt R b c q
    → ClosedAt R' b (record c { nodes = l }) q
ClosedAt-mono l f (same e k) = same e k
ClosedAt-mono l f (shut r e k) = shut (f r) e k

retired_at :
    (p q : Stub) (b : SmartBackend)
    → (p == q) ≡ true
    → is_retired (b.endpoints p) ≡ true
    → is_retired (b.endpoints q) ≡ true
retired_at p q b e h = ground arith

kept_at :
    (p q : Stub) (b : SmartBackend) (n : ℕ)
    → is_retired (b.endpoints p) ≡ false
    → (0 < n → is_retired (b.endpoints q) ≡ false)
    → 0 < (if p == q then 1 else 0) + n
    → is_retired (b.endpoints q) ≡ false
kept_at p q b n h k l = ground arith

pub retire_nodes-RetiredAt :
    (l : List (String × Stub)) (b : SmartBackend) (q : Stub) → RetiredAt l b (retire_nodes l b) q
retire_nodes-RetiredAt [] b q =
    unfold retire_nodes in
    record { kept = λ h. absurd (omega arith); fewer = omega arith; closing = same refl refl }
retire_nodes-RetiredAt ((t, p) ∷ l) b q =
    retire_cases t p l b (λ c. RetiredAt ((t, p) ∷ l) b c q)
      (λ r.
        let ih = retire_nodes-RetiredAt l (close_node p b) q in
        record {
          kept = λ h. sym (is_retired-close_node p q b) ∙ ih.kept h;
          fewer = omega (arith, ih.fewer);
          closing =
              ClosedAt-close_node _ _ p q b _
                (λ x. (sym (is_retired-close_node p q b) ∙ x.0, omega (arith, x.1)))
                (λ e. (retired_at p q b e r, ground arith)) ih.closing;
        })
      (λ r.
        let ih = retire_nodes-RetiredAt l b q in
        record {
          kept = λ h. kept_at p q b _ r ih.kept h;
          fewer = omega (arith, ih.fewer);
          closing = ClosedAt-mono _ (λ x. (x.0, omega (arith, x.1))) ih.closing;
        })
