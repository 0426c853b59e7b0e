-- ===== src/Smart/Publish/Effects.antt =====
-- smart.go: what the parts of `publish` do to each endpoint.
use hurricache_go_client.Prelude.{
  ℕ, ◌+◌, ◌≤◌, ◌<◌, ◌≡◌, refl, ◌∙◌, true, false, List, [], ◌∷◌, String, ◌==◌, if◌then◌else◌, arith,
  count, Bool-cases, inl, inr, ◌⊎◌,
}
use text.Mathlib.Text.{◌==◌ as str_eq}
use hurricache_go_client.Rpc.{Stub}
use hurricache_go_client.Smart.State.{Endpoint, SmartBackend, write, put, has_close}
use hurricache_go_client.Smart.State.Retire.{entries}
use hurricache_go_client.Smart.Publish.{cleanup, deactivate, activate, put_all}

pub put-entries :
    (q : Stub) (t : String) (p : Stub) (l : List (String × Stub))
    → entries q (put t p l) ≤ entries q l + (if p == q then 1 else 0)
put-entries q t p [] = omega arith
put-entries q t p ((u, x) ∷ l) = elim (Bool-cases (str_eq u t)) [
  | inl y ↦ rw y (ground arith)
  | inr n ↦ rw n (omega (arith, put-entries q t p l))
]

pub put_all-entries :
    (q : Stub) (l nodes : List (String × Stub))
    → entries q (put_all l nodes) ≤ entries q nodes + entries q l
unfolding put_all
put_all-entries q [] nodes = omega arith
put_all-entries q ((t, p) ∷ l) nodes =
    omega (arith, put_all-entries q l (put t p nodes), put-entries q t p nodes)

-- The close of what was created changes nothing but the record of closes.
pub cleanup-released :
    (l : List (String × Stub)) (b : SmartBackend)
    → (r : List Stub) × (cleanup l b ≡ record b { released = r })
      × ((q : Stub) → count q r ≤ count q b.released + entries q l)
unfolding cleanup
cleanup-released [] b = (b.released, refl, λ q. omega arith)
cleanup-released ((t, p) ∷ l) b = elim (Bool-cases (has_close (b.endpoints p).connection)) [
  | inl y ↦
      let (r, e, k) = cleanup-released l (record b { released = p ∷ b.released }) in
      (r, rw y e, λ q. omega (arith, k q))
  | inr n ↦ let (r, e, k) = cleanup-released l b in (r, rw n e, λ q. omega (arith, k q))
]

-- What `deactivate` and `activate` do to one endpoint, which stands `n` times in the list.
pub record Deactivated (a b : Endpoint) : Type 0 where
  pub refs : a.refs ≡ b.refs
  pub closed : a.closed ≡ b.closed
  pub active : a.active ≡ true → b.active ≡ true

pub deactivate-Deactivated :
    (l : List (String × Stub)) (h : Stub → Endpoint) (q : Stub)
    → Deactivated (deactivate l h q) (h q)
unfolding deactivate
deactivate-Deactivated [] h q = record { refs = refl; closed = refl; active = λ e. e }
deactivate-Deactivated ((t, p) ∷ l) h q =
    let ih = deactivate-Deactivated l (write p (record (h p) { active = false }) h) q in
    record {
      refs = ih.refs ∙ ground arith;
      closed = ih.closed ∙ ground arith;
      active = λ e. let k = ih.active e in ground arith;
    }

pub record Activated (n : ℕ) (a b : Endpoint) : Type 0 where
  pub refs : a.refs ≡ b.refs
  pub closed : a.closed ≡ b.closed
  pub active : ((0 < n) × (a.active ≡ true)) ⊎ ((n ≡ 0) × (a.active ≡ b.active))

pub activate-Activated :
    (l : List (String × Stub)) (h : Stub → Endpoint) (q : Stub)
    → Activated (entries q l) (activate l h q) (h q)
unfolding activate
activate-Activated [] h q = record { refs = refl; closed = refl; active = inr (refl, refl) }
activate-Activated ((t, p) ∷ l) h q =
    let ih = activate-Activated l (write p (record (h p) { active = true }) h) q in
    record {
      refs = ih.refs ∙ ground arith;
      closed = ih.closed ∙ ground arith;
      active = let k = ih.active in ground arith;
    }
