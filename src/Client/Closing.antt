-- ===== src/Client/Closing.antt =====
-- client.go: `Close`, called any number of times.
use hurricache_go_client.Prelude.{
  ℕ, zero, suc, ◌≡◌, refl, sym, ap, Bool, true, false, Option, none, some, List, [], ◌∷◌, String,
  arith, subst, All,
}
use hurricache_go_client.Errors.{Except, ok, err, Error, status, invalid_argument}
use hurricache_go_client.Errors.Guards.{if_not, ok_inj, after_ok}
use hurricache_go_client.Config.{Config, normalize_config}
use hurricache_go_client.Smart.State.{Connection}
use hurricache_go_client.Client.{
  Closable, Client, DirectBackend, direct_close, direct_closable, close, direct_client, dial,
  new_client, new_client_with_connection, is_empty,
}

-- Calls of `Close` one after the other, and what they return, the first result first.
unfoldable pub close_times {ℓ} :
    {B : Type ℓ} → Closable B → ℕ → Client B → Client B × List (Option Error)
close_times ops zero c = (c, [])
close_times ops (suc n) c =
    let (c', e) = close ops c in let (c'', es) = close_times ops n c' in (c'', e ∷ es)

module _ {ℓ} {B : Type ℓ} (ops : Closable B) (c : Client B) where
  -- The state after the first call, with its result.
  abbrev pub closed : Client B × Option Error
  closed =
      let (b, e) = ops.close_backend c.backend in
      (record c { backend = b; canceled = true; once = true; close_err = e }, e)

  abbrev close_by : Bool → Client B × Option Error
  close_by o = elim o [ true ↦ (c, c.close_err) | false ↦ closed ]

  close_first : c.once ≡ false → close ops c ≡ closed
  close_first h = unfold close in ap close_by h

  close_again : c.once ≡ true → close ops c ≡ (c, c.close_err)
  close_again h = unfold close in ap close_by h

-- What a run of calls leaves, and what each of them returned.
pub record ClosedBy {ℓ} {B : Type ℓ} (c : Client B) (e : Option Error)
    (r : Client B × List (Option Error)) : Type ℓ where
  pub state : r.0 ≡ c
  pub results : All (λ x. x ≡ e) r.1

module _ {ℓ} {B : Type ℓ} (ops : Closable B) where
  still_closed :
      (n : ℕ) (c : Client B) → c.once ≡ true → ClosedBy c c.close_err (close_times ops n c)
  unfolding close_times
  still_closed zero c h = record { state = refl; results = tt }
  still_closed (suc n) c h =
      subst (λ r. ClosedBy c c.close_err (after r)) (sym (close_again ops c h))
        (let k = still_closed n c h in record { state = k.state; results = (refl, k.results) })
    where
      after : Client B × Option Error → Client B × List (Option Error)
      after (c', e) = ((close_times ops n c').0, e ∷ (close_times ops n c').1)

-- `Close` of an open client, called once or more: the backend is closed once, the client's context is canceled,
-- and every call returns what the close of the backend returned.
pub close_is_idempotent {ℓ} :
    {B : Type ℓ} (ops : Closable B) (c : Client B) (n : ℕ)
    → c.once ≡ false
    → ClosedBy (closed ops c).0 (ops.close_backend c.backend).1 (close_times ops (suc n) c)
unfolding close_times
close_is_idempotent {B = B} ops c n h =
    subst (λ r. ClosedBy (closed ops c).0 (ops.close_backend c.backend).1 (after r))
      (sym (close_first ops c h))
      (let k = still_closed ops n (closed ops c).0 refl in
        record { state = k.state; results = (refl, k.results) })
  where
    after : Client B × Option Error → Client B × List (Option Error)
    after (c', e) = ((close_times ops n c').0, e ∷ (close_times ops n c').1)

abbrev owned : (ℕ → Option Error) → ℕ → Connection
owned channel_close ch = record { conn = some ch; close = some (channel_close ch) }

abbrev borrowed : ℕ → Connection
borrowed ch = record { conn = some ch; close = none }

module _ (new_channel : String → Config → Except ℕ) (channel_close : ℕ → Option Error) where
  after_dial :
      (address : String) (d : Config) (c : Client DirectBackend) (r : Except ℕ)
      → elim (elim r as (λ x. Except Connection) [
        | err e ↦ err e
        | ok ch ↦ ok (owned channel_close ch)
      ])
          as (λ x. Except (Client DirectBackend)) [
            | err e ↦ err e
            | ok conn ↦ ok (direct_client d conn address)
          ]
        ≡ ok c
      → (ch : ℕ) × (c ≡ direct_client d (owned channel_close ch) address)
  after_dial address d c (err e) h = absurd (ground arith)
  after_dial address d c (ok ch) h =
      (ch, sym (ok_inj (direct_client d (owned channel_close ch) address) c h))

  new_client-owned :
      (address : String) (config : Config) (c : Client DirectBackend)
      → new_client new_channel channel_close address config ≡ ok c
      → (d : Config) × (ch : ℕ) × (c ≡ direct_client d (owned channel_close ch) address)
  unfolding new_client dial
  new_client-owned address config c h =
      let (d, q, k) = after_ok (normalize_config config) _ c h in
      let (n, m) = if_not (is_empty address) _ _ c k in
      let (ch, e) = after_dial address d c (new_channel address d) m in (d, ch, e)

new_client_with_connection-borrowed :
    (conn : Option ℕ) (config : Config) (c : Client DirectBackend)
    → new_client_with_connection conn config ≡ ok c
    → (d : Config) × (ch : ℕ) × (c ≡ direct_client d (borrowed ch) "borrowed")
unfolding new_client_with_connection
new_client_with_connection-borrowed conn config c h =
    let (d, q, k) = after_ok (normalize_config config) _ c h in
    let (ch, e) = after_conn d conn k in (d, ch, e)
  where
    after_conn :
        (d : Config) (conn : Option ℕ)
        → elim conn as (λ x. Except (Client DirectBackend)) [
          | none ↦ err (status invalid_argument)
          | some ch ↦ ok (direct_client d (borrowed ch) "borrowed")
        ]
          ≡ ok c
        → (ch : ℕ) × (c ≡ direct_client d (borrowed ch) "borrowed")
    after_conn d none h = absurd (ground arith)
    after_conn d (some ch) h = (ch, sym (ok_inj (direct_client d (borrowed ch) "borrowed") c h))

-- However often a client is closed, from the first time on the channel that it dialed is closed exactly once.
pub owned_channel_closed_once :
    (new_channel : String → Config → Except ℕ) (channel_close : ℕ → Option Error) (address : String)
    (config : Config) (c : Client DirectBackend) (n : ℕ)
    → new_client new_channel channel_close address config ≡ ok c
    → (close_times direct_closable (suc n) c).0.backend.closes ≡ 1
unfolding direct_close
owned_channel_closed_once new_channel channel_close address config c n h =
    let (d, ch, e) = new_client-owned new_channel channel_close address config c h in
    let fresh = direct_client d (owned channel_close ch) address in
    subst (λ x. (close_times direct_closable (suc n) x).0.backend.closes ≡ 1) (sym e)
      (ap (λ x. x.backend.closes) (close_is_idempotent direct_closable fresh n refl).state)

-- However often a client is closed, a channel that it borrowed is not closed.
pub borrowed_channel_never_closed :
    (conn : Option ℕ) (config : Config) (c : Client DirectBackend) (n : ℕ)
    → new_client_with_connection conn config ≡ ok c
    → (close_times direct_closable n c).0.backend.closes ≡ 0
unfolding direct_close close_times
borrowed_channel_never_closed conn config c n h =
    let (d, ch, e) = new_client_with_connection-borrowed conn config c h in
    subst (λ x. (close_times direct_closable n x).0.backend.closes ≡ 0) (sym e) (times n ch d)
  where
    times :
        (n ch : ℕ) (d : Config)
        → (close_times direct_closable n
            (direct_client d (borrowed ch) "borrowed")).0.backend.closes
          ≡ 0
    times zero ch d = refl
    times (suc n) ch d =
        ap (λ x. x.backend.closes)
          (close_is_idempotent direct_closable (direct_client d (borrowed ch) "borrowed") n
            refl).state
