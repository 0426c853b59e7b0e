-- ===== src/Smart/State/Pins.antt =====
-- smart.go: what the loops over references and flags do to each endpoint of the heap.
use hurricache_go_client.Prelude.{
  ℕ, ℤ, pos, negsuc, ◌+◌, ◌≡◌, refl, ◌∙◌, ap, List, [], ◌∷◌, ◌==◌, if◌then◌else◌, arith, count,
}
use hurricache_go_client.Rpc.{Stub}
use hurricache_go_client.Smart.State.{Endpoint, add_refs, pin, unpin}

-- Two endpoints that differ in their references at most.
pub record SameBut (a b : Endpoint) : Type 0 where
  pub active : a.active ≡ b.active
  pub closed : a.closed ≡ b.closed
  pub connection : a.connection ≡ b.connection

add_refs-SameBut :
    (n : ℤ) (q : Stub) (h : Stub → Endpoint) (p : Stub) → SameBut (add_refs n q h p) (h p)
add_refs-SameBut n q h p = ground arith

pub pin-SameBut : (ps : List Stub) (h : Stub → Endpoint) (p : Stub) → SameBut (pin ps h p) (h p)
unfolding pin
pin-SameBut [] h p = record { active = refl; closed = refl; connection = refl }
pin-SameBut (q ∷ ps) h p =
    let a = pin-SameBut ps (add_refs (pos 1) q h) p in
    let b = add_refs-SameBut (pos 1) q h p in
    record {
      active = a.active ∙ b.active;
      closed = a.closed ∙ b.closed;
      connection = a.connection ∙ b.connection;
    }

pub unpin-SameBut : (ps : List Stub) (h : Stub → Endpoint) (p : Stub) → SameBut (unpin ps h p) (h p)
unfolding unpin
unpin-SameBut [] h p = record { active = refl; closed = refl; connection = refl }
unpin-SameBut (q ∷ ps) h p =
    let a = unpin-SameBut ps (add_refs (negsuc 0) q h) p in
    let b = add_refs-SameBut (negsuc 0) q h p in
    record {
      active = a.active ∙ b.active;
      closed = a.closed ∙ b.closed;
      connection = a.connection ∙ b.connection;
    }

one_more :
    (n : ℕ) (q p : Stub) (h : Stub → Endpoint)
    → (h p).refs ≡ pos n
    → (add_refs (pos 1) q h p).refs ≡ pos ((if q == p then 1 else 0) + n)
one_more n q p h e = ground arith

one_less :
    (n : ℕ) (q p : Stub) (h : Stub → Endpoint)
    → (h p).refs ≡ pos ((if q == p then 1 else 0) + n)
    → (add_refs (negsuc 0) q h p).refs ≡ pos n
one_less n q p h e = ground arith

-- The references that a loop adds, and those that it takes away.
pub pin-refs :
    (ps : List Stub) (h : Stub → Endpoint) (p : Stub) (n : ℕ)
    → (h p).refs ≡ pos n
    → (pin ps h p).refs ≡ pos (count p ps + n)
unfolding pin
pin-refs [] h p n e = e ∙ ap pos (omega arith)
pin-refs (q ∷ ps) h p n e =
    pin-refs ps (add_refs (pos 1) q h) p _ (one_more n q p h e) ∙ ap pos (omega arith)

pub unpin-refs :
    (ps : List Stub) (h : Stub → Endpoint) (p : Stub) (n : ℕ)
    → (h p).refs ≡ pos (count p ps + n)
    → (unpin ps h p).refs ≡ pos n
unfolding unpin
unpin-refs [] h p n e = e ∙ ap pos (omega arith)
unpin-refs (q ∷ ps) h p n e =
    unpin-refs ps (add_refs (negsuc 0) q h) p n
      (one_less (count p ps + n) q p h (e ∙ ap pos (omega arith)))
