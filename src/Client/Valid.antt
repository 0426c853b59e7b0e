-- ===== src/Client/Valid.antt =====
-- smart.go: what `NewSmartClient` makes sure of.
use hurricache_go_client.Prelude.{
  ℕ, ℤ, pos, ◌<ℤ◌, ◌≡◌, refl, Bool, true, false, not, ◌||◌, Option, some, List, [], ◌∷◌, String,
  arith, subst, All,
}
use hurricache_go_client.Errors.{Except, ok, Error}
use hurricache_go_client.Errors.Guards.{if_not, ok_inj, after_ok}
use hurricache_go_client.Config.{Config, IsNormal, normalize_config, is_negative, or_default}
use hurricache_go_client.Config.Normal.{normalize_config-IsNormal}
use hurricache_go_client.Session.{is_mode}
use hurricache_go_client.Smart.Lifecycle.{new_backend}
use hurricache_go_client.Client.{
  SmartConfig, SmartClient, any_empty, is_empty, no_coordinators, invalid_smart, smart_client_of,
  new_smart_client,
}

-- A smart client over coordinators that are named, with a configuration that the rest of the code may rely on.
pub record IsReadyToStart (coordinators : List String) (c : SmartClient) : Type 0 where
  pub some_coordinator : no_coordinators coordinators ≡ false
  pub named : All (λ v. is_empty v ≡ false) coordinators
  pub backend : c.client.backend ≡ new_backend coordinators
  pub opened : c.client.once ≡ false
  pub normal : IsNormal c.client.config
  pub mode : is_mode (some c.config.mode) ≡ true
  pub refresh_interval : pos 0 <ℤ c.config.refresh_interval
  pub discovery_timeout : pos 0 <ℤ c.config.discovery_timeout
  pub ready_timeout : pos 0 <ℤ c.config.ready_timeout

either_false : (a b : Bool) → (a || b) ≡ false → (a ≡ false) × (b ≡ false)
either_false a b h = ground arith

each_has_a_name : (l : List String) → any_empty l ≡ false → All (λ v. is_empty v ≡ false) l
each_has_a_name [] h = tt
each_has_a_name (v ∷ l) h =
    let (a, b) = either_false (is_empty v) (any_empty l) h in (a, each_has_a_name l b)

positive : (a d : ℤ) → is_negative a ≡ false → pos 0 <ℤ d → pos 0 <ℤ or_default a d
positive a d h p = ground arith

-- The three refusals of the durations and the mode, read back.
valid_smart :
    (s : SmartConfig)
    → invalid_smart s ≡ false
    → (is_mode (some s.mode) ≡ true)
      × (is_negative s.refresh_interval ≡ false)
      × (is_negative s.discovery_timeout ≡ false)
      × (is_negative s.ready_timeout ≡ false)
valid_smart s h =
    four (is_mode (some s.mode)) (is_negative s.refresh_interval) (is_negative s.discovery_timeout)
      (is_negative s.ready_timeout) h
  where
    four :
        (a b c d : Bool)
        → (not a || b || c || d) ≡ false
        → (a ≡ true) × (b ≡ false) × (c ≡ false) × (d ≡ false)
    four a b c d h = ground arith

module _ (new_channel : String → Config → Except ℕ) (channel_close : ℕ → Option Error) where
  made :
      (coordinators : List String) (s : SmartConfig) (c : Config)
      → no_coordinators coordinators ≡ false
      → any_empty coordinators ≡ false
      → normalize_config s.client ≡ ok c
      → invalid_smart s ≡ false
      → IsReadyToStart coordinators (smart_client_of new_channel channel_close coordinators c s)
  made coordinators s c n e q v =
      let (m, r, d, w) = valid_smart s v in
      let k = normalize_config-IsNormal s.client c q in
      record {
        some_coordinator = n;
        named = each_has_a_name coordinators e;
        backend = refl;
        opened = refl;
        normal = k;
        mode = m;
        refresh_interval = positive s.refresh_interval _ r (omega arith);
        discovery_timeout = positive s.discovery_timeout _ d k.timeout;
        ready_timeout = positive s.ready_timeout _ w (omega arith);
      }

-- What `NewSmartClient` returns without an error is a client that is open, over at least one coordinator and only
-- coordinators with a name, with no topology yet, a normal configuration, a mode that the code names, and intervals
-- and time-outs above zero (a ticker of the loop of refreshes needs that).
pub new_smart_client-IsReadyToStart :
    (new_channel : String → Config → Except ℕ) (channel_close : ℕ → Option Error)
    (coordinators : List String) (s : SmartConfig) (c : SmartClient)
    → new_smart_client new_channel channel_close coordinators s ≡ ok c
    → IsReadyToStart coordinators c
unfolding new_smart_client
new_smart_client-IsReadyToStart new_channel channel_close coordinators s c h =
    let (n, k) = if_not (no_coordinators coordinators || any_empty coordinators) _ _ c h in
    let (a, b) = either_false (no_coordinators coordinators) (any_empty coordinators) n in
    let (d, q, l) = after_ok (normalize_config s.client) _ c k in
    let (v, m) = if_not (invalid_smart s) _ _ c l in
    subst (IsReadyToStart coordinators)
      (ok_inj (smart_client_of new_channel channel_close coordinators d s) c m)
      (made new_channel channel_close coordinators s d a b q v)
