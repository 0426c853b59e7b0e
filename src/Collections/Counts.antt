-- ===== src/Collections/Counts.antt =====
-- collections.go: the counts that `add` and `RemoveFromContainer` return, against the sizes that the server told.
use hurricache_go_client.Prelude.{
  ℕ, suc, ◌+◌, ◌-◌, ◌%◌, ◌<◌, ◌≤◌, ◌≡◌, refl, Bool, Option, some, List, [], ◌∷◌, Bool-cases, inl,
  inr, ltb, ◌==◌, ◌&&◌, arith, ltb_false→le, ltb→lt, subst,
}
use hurricache_go_client.Errors.{Except, Error, Ret, partial, status, out_of_range}
use hurricache_go_client.Types.{ContainerType}
use hurricache_go_client.Wire.{Value}
use hurricache_go_client.Rpc
use hurricache_go_client.Codec.{uint32_mod}
use hurricache_go_client.World.{Environment, World, Step, or_handle}
use hurricache_go_client.Session.{Session}
use hurricache_go_client.Session.Answers.{told, Exchange, refused, answered, unary-Exchange}
use hurricache_go_client.Operations.Times.{max_uint32}
use hurricache_go_client.Collections.Split.{Span}
use hurricache_go_client.Collections.Items.{Item}
use hurricache_go_client.Collections.Add.{
  AddKind, AddOutcome, acknowledge, add_chunks, remove_chunks,
}
use hurricache_go_client.Collections.Acknowledged.{send_by-Exchange}

-- A total within 32 bits is not wrapped.
unwrapped : (n : ℕ) → n ≤ max_uint32 → n % uint32_mod ≡ n
unwrapped n h = omega arith

-- What a loop that counts from `start` ends with: that and the sizes which the server told since, or, when the
-- sum is over 32 bits, the partial error OutOfRange.
pub data Summed {B : Type 0} (env : Environment) (count : B → ℕ) (start : ℕ) (w : World)
    (r : Ret B × World) : Type 0 where
  summed : count r.0.0 + told env w.log ≡ start + told env r.1.log → Summed env count start w r
  overflowed :
      (chunks items : ℕ)
      → max_uint32 + told env w.log < start + told env r.1.log
      → r.0.1 ≡ partial (suc chunks) items (some (status out_of_range))
      → Summed env count start w r

module _ (env : Environment) {B : Type 0} (count : B → ℕ) where
  -- The sum of the later chunks, with the size that was told before them.
  Summed-later :
      (start n : ℕ) (w v : World) (r : Ret B × World)
      → told env v.log ≡ told env w.log + n
      → Summed env count (start + n) v r
      → Summed env count start w r
  Summed-later start n w v r t (summed h) = summed (omega (arith, t, h))
  Summed-later start n w v r t (overflowed chunks items h e) =
      overflowed chunks items (omega (arith, t, h)) e

  Summed-from :
      {a b : ℕ} (w : World) (r : Ret B × World)
      → a ≡ b
      → Summed env count a w r
      → Summed env count b w r
  Summed-from w r g x = subst (λ n. Summed env count n w r) g x

  Summed-handle :
      {A : Type 0} (size : A → ℕ) (start : ℕ) (h : Error → Ret B) (m : Step (Except A))
      (f : A → Step (Ret B)) (w : World)
      → Exchange env size w.log (m w)
      → ((e : Error) → count (h e).0 ≡ start)
      → ((a : A) (v : World)
          → told env v.log ≡ told env w.log + size a
          → Summed env count start w (f a v))
      → Summed env count start w (or_handle h m f w)
  unfolding or_handle
  Summed-handle size start h m f w (refused e v r a t) g k = rw r (summed (rw (g e, t) refl))
  Summed-handle size start h m f w (answered x v r a t) g k = rw r (k x v t)

module _ (env : Environment) (s : Session) (t : ContainerType) (kind : AddKind) (at : ℕ)
    (pv : Option Value) (items : List Item) (boolean : Bool) where
  acknowledge-Summed :
      (result : AddOutcome) (chunks done : ℕ) (p : Span) (n : ℕ)
      (next : AddOutcome → Step (Ret AddOutcome)) (w v : World)
      → told env v.log ≡ told env w.log + n
      → ((r : AddOutcome)
          → r.count ≡ result.count + n
          → r.count ≤ max_uint32
          → Summed env (λ x. x.count) (result.count + n) v (next r v))
      → Summed env
          (λ x. x.count)
          result.count
          w
          (acknowledge env s t kind at pv items boolean result chunks done p n next v)
  unfolding acknowledge
  acknowledge-Summed result chunks done p n next w v e k =
      elim (Bool-cases (ltb max_uint32 (result.count + n))) [
        | inl over ↦ rw over (overflowed chunks _ (omega (arith, e, ltb→lt _ _ over)) refl)
        | inr fit ↦
            let l = ltb_false→le _ _ fit in
            let m = unwrapped (result.count + n) l in
            elim (Bool-cases (boolean && (n == 0))) [
              | inl z ↦ rw (fit, z) (summed (omega (arith, e, m)))
              | inr z ↦
                  rw (fit, z)
                    (Summed-later env (λ x. x.count) result.count n w v _ e
                      (k _ m (omega (arith, m, l))))
            ]
      ]

  -- An insertion that counts from at most 2^32-1 returns that count and the sizes which the server told of its
  -- chunks, added up, whether it ends with an error or not; or that sum is over 32 bits, and the error is the
  -- partial OutOfRange.
  pub add_chunks-Summed :
      (result : AddOutcome) (chunks done : ℕ) (ps : List Span) (w : World)
      → result.count ≤ max_uint32
      → Summed env
          (λ x. x.count)
          result.count
          w
          (add_chunks env s t kind at pv items boolean result chunks done ps w)
  unfolding add_chunks
  add_chunks-Summed result chunks done [] w h = summed refl
  add_chunks-Summed result chunks done (p ∷ ps) w h =
      Summed-handle env (λ x. x.count) (λ a. a.size) result.count _ _ _ w
        (send_by-Exchange env s t kind at pv items boolean kind p w) (λ e. refl)
        λ a v e. acknowledge-Summed result chunks done p a.size _ w v e λ r g l.
          Summed-from env (λ x. x.count) v _ g
            (add_chunks-Summed r (suc chunks) (done + (p.end - p.start)) ps v l)

module _ (env : Environment) (s : Session) (t : ContainerType) (items : List Item) where
  -- The same of a removal's count.
  pub remove_chunks-Summed :
      (total chunks done : ℕ) (ps : List Span) (w : World)
      → total ≤ max_uint32
      → Summed env (λ n. n) total w (remove_chunks env s t items total chunks done ps w)
  unfolding remove_chunks
  remove_chunks-Summed total chunks done [] w h = summed refl
  remove_chunks-Summed total chunks done (p ∷ ps) w h =
      Summed-handle env (λ n. n) (λ a. a.size) total _ _ _ w
        (unary-Exchange env s Rpc.remove_from_container_by_key_value _ w) (λ e. refl)
        λ a v e. elim (Bool-cases (ltb max_uint32 (total + a.size))) [
          | inl over ↦ rw over (overflowed chunks _ (omega (arith, e, ltb→lt _ _ over)) refl)
          | inr fit ↦
              let l = ltb_false→le _ _ fit in
              let m = unwrapped (total + a.size) l in
              rw (fit, m)
                (Summed-later env (λ n. n) total a.size w v _ e
                  (remove_chunks-Summed (total + a.size) (suc chunks) (done + (p.end - p.start)) ps
                    v l))
        ]
