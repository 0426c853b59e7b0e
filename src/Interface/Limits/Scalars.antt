-- ===== src/Interface/Limits/Scalars.antt =====
-- operations.go: the operations on scalars and atomic values make no call above the configured size.
use hurricache_go_client.Prelude.{ℤ, refl}
use hurricache_go_client.Types.{Bytes, Options}
use hurricache_go_client.Config.{Config}
use hurricache_go_client.Rpc
use hurricache_go_client.World.{Ctx, Environment, Step}
use hurricache_go_client.World.Keeps.{Keeps}
use hurricache_go_client.Session.{Backend}
use hurricache_go_client.Session.Limits.{AllWithin, Respects, call-Keeps}
use hurricache_go_client.Operations

module _ (env : Environment) (backend : Backend) (c : Config) (ctx : Ctx) (key : Bytes)
    (o : Options) (r : Respects (AllWithin env c.max_request_bytes) backend) where
  abbrev Within : {A : Type 0} → Step A → Type 0
  Within m = Keeps (AllWithin env c.max_request_bytes) m

  pub get_value-Keeps : Within (Operations.get_value env backend c ctx key o)
  unfolding Operations.get_value
  get_value-Keeps = call-Keeps env backend c ctx key o r _ _ _ _ Rpc.get_value _ _ λ s q w. refl

  pub get_and_delete_value-Keeps : Within (Operations.get_and_delete_value env backend c ctx key o)
  unfolding Operations.get_and_delete_value
  get_and_delete_value-Keeps =
      call-Keeps env backend c ctx key o r _ _ _ _ Rpc.get_and_delete_value _ _ λ s q w. refl

  pub exist_key-Keeps : Within (Operations.exist_key env backend c ctx key o)
  unfolding Operations.exist_key
  exist_key-Keeps = call-Keeps env backend c ctx key o r _ _ _ _ Rpc.exist_key _ _ λ s q w. refl

  pub remove-Keeps : Within (Operations.remove env backend c ctx key o)
  unfolding Operations.remove
  remove-Keeps = call-Keeps env backend c ctx key o r _ _ _ _ Rpc.remove _ _ λ s q w. refl

  pub get_size-Keeps : Within (Operations.get_size env backend c ctx key o)
  unfolding Operations.get_size
  get_size-Keeps = call-Keeps env backend c ctx key o r _ _ _ _ Rpc.get_size _ _ λ s q w. refl

  pub get_front-Keeps : Within (Operations.get_front env backend c ctx key o)
  unfolding Operations.get_front
  get_front-Keeps = call-Keeps env backend c ctx key o r _ _ _ _ Rpc.get_head _ _ λ s q w. refl

  pub get_head-Keeps : Within (Operations.get_head env backend c ctx key o)
  unfolding Operations.get_head
  get_head-Keeps = call-Keeps env backend c ctx key o r _ _ _ _ Rpc.get_head _ _ λ s q w. refl

  pub get_tail-Keeps : Within (Operations.get_tail env backend c ctx key o)
  unfolding Operations.get_tail
  get_tail-Keeps = call-Keeps env backend c ctx key o r _ _ _ _ Rpc.get_tail _ _ λ s q w. refl

  pub get_and_remove_front-Keeps : Within (Operations.get_and_remove_front env backend c ctx key o)
  unfolding Operations.get_and_remove_front
  get_and_remove_front-Keeps =
      call-Keeps env backend c ctx key o r _ _ _ _ Rpc.get_and_remove_front _ _ λ s q w. refl

  pub get_and_remove_tail-Keeps : Within (Operations.get_and_remove_tail env backend c ctx key o)
  unfolding Operations.get_and_remove_tail
  get_and_remove_tail-Keeps =
      call-Keeps env backend c ctx key o r _ _ _ _ Rpc.get_and_remove_tail _ _ λ s q w. refl

  pub remove_head-Keeps : Within (Operations.remove_head env backend c ctx key o)
  unfolding Operations.remove_head
  remove_head-Keeps = call-Keeps env backend c ctx key o r _ _ _ _ Rpc.remove_head _ _ λ s q w. refl

  pub remove_tail-Keeps : Within (Operations.remove_tail env backend c ctx key o)
  unfolding Operations.remove_tail
  remove_tail-Keeps = call-Keeps env backend c ctx key o r _ _ _ _ Rpc.remove_tail _ _ λ s q w. refl

  pub atomic_load-Keeps : Within (Operations.atomic_load env backend c ctx key o)
  unfolding Operations.atomic_load
  atomic_load-Keeps = call-Keeps env backend c ctx key o r _ _ _ _ Rpc.atomic_load _ _ λ s q w. refl

  pub atomic_load_and_delete-Keeps :
      Within (Operations.atomic_load_and_delete env backend c ctx key o)
  unfolding Operations.atomic_load_and_delete
  atomic_load_and_delete-Keeps =
      call-Keeps env backend c ctx key o r _ _ _ _ Rpc.atomic_load_and_delete _ _ λ s q w. refl

  pub atomic_create-Keeps : (a : ℤ) → Within (Operations.atomic_create env backend c ctx key a o)
  unfolding Operations.atomic_create
  atomic_create-Keeps a =
      call-Keeps env backend c ctx key o r _ _ _ _ Rpc.atomic_create _ _ λ s q w. refl

  pub atomic_store-Keeps : (a : ℤ) → Within (Operations.atomic_store env backend c ctx key a o)
  unfolding Operations.atomic_store
  atomic_store-Keeps a =
      call-Keeps env backend c ctx key o r _ _ _ _ Rpc.atomic_store _ _ λ s q w. refl

  pub atomic_exchange-Keeps :
      (a : ℤ) → Within (Operations.atomic_exchange env backend c ctx key a o)
  unfolding Operations.atomic_exchange
  atomic_exchange-Keeps a =
      call-Keeps env backend c ctx key o r _ _ _ _ Rpc.atomic_exchange _ _ λ s q w. refl

  pub atomic_add-Keeps : (a : ℤ) → Within (Operations.atomic_add env backend c ctx key a o)
  unfolding Operations.atomic_add
  atomic_add-Keeps a = call-Keeps env backend c ctx key o r _ _ _ _ Rpc.atomic_add _ _ λ s q w. refl

  pub atomic_sub-Keeps : (a : ℤ) → Within (Operations.atomic_sub env backend c ctx key a o)
  unfolding Operations.atomic_sub
  atomic_sub-Keeps a = call-Keeps env backend c ctx key o r _ _ _ _ Rpc.atomic_sub _ _ λ s q w. refl

  pub atomic_or-Keeps : (a : ℤ) → Within (Operations.atomic_or env backend c ctx key a o)
  unfolding Operations.atomic_or
  atomic_or-Keeps a = call-Keeps env backend c ctx key o r _ _ _ _ Rpc.atomic_or _ _ λ s q w. refl

  pub atomic_and-Keeps : (a : ℤ) → Within (Operations.atomic_and env backend c ctx key a o)
  unfolding Operations.atomic_and
  atomic_and-Keeps a = call-Keeps env backend c ctx key o r _ _ _ _ Rpc.atomic_and _ _ λ s q w. refl

  pub atomic_xor-Keeps : (a : ℤ) → Within (Operations.atomic_xor env backend c ctx key a o)
  unfolding Operations.atomic_xor
  atomic_xor-Keeps a = call-Keeps env backend c ctx key o r _ _ _ _ Rpc.atomic_xor _ _ λ s q w. refl

  pub atomic_compare_and_set-Keeps :
      (a : ℤ) (b : ℤ) → Within (Operations.atomic_compare_and_set env backend c ctx key a b o)
  unfolding Operations.atomic_compare_and_set
  atomic_compare_and_set-Keeps a b =
      call-Keeps env backend c ctx key o r _ _ _ _ Rpc.atomic_compare_and_set _ _ λ s q w. refl
