-- ===== src/Interface/Limits/Containers.antt =====
-- collections.go: the container operations make no call above the configured size.
use hurricache_go_client.Prelude.{ℕ, Bool, none, some}
use hurricache_go_client.Types.{
  Bytes, Options, Payload, ContainerData, Position, ContainerType, Removal,
}
use hurricache_go_client.Config.{Config}
use hurricache_go_client.World.{Ctx, Environment, Step}
use hurricache_go_client.World.Keeps.{Keeps, Keeps-or_return}
use hurricache_go_client.Session.{Backend}
use hurricache_go_client.Session.Limits.{AllWithin, Respects, perform-Keeps}
use hurricache_go_client.Collections.Limits.{
  plan_create-Keeps, create_chunks-Keeps, plan_add-Keeps, add_chunks-Keeps, plan_removal-Keeps,
  remove_chunks-Keeps, collect-Keeps,
}
use hurricache_go_client.Collections.Create
use hurricache_go_client.Collections.Add
use hurricache_go_client.Collections.Add.{AddKind, add}
use hurricache_go_client.Collections.Streams

module _ (env : Environment) (backend : Backend) (c : Config) (ctx : Ctx) (key : Bytes)
    (o : Options) (r : Respects (AllWithin env c.max_request_bytes) backend) where
  abbrev Within : {A : Type 0} → Step A → Type 0
  Within m = Keeps (AllWithin env c.max_request_bytes) m

  pub create_container-Keeps :
      (a : ContainerType) (b : ContainerData)
      → Within (Create.create_container env backend c ctx key a b o)
  unfolding Create.create_container
  create_container-Keeps a b = perform-Keeps env backend _ _ c ctx key o _ _ r λ s e.
      Keeps-or_return _ (plan_create-Keeps env s a b) λ p. create_chunks-Keeps env c s e a p.0 p.1

  pub remove_from_container-Keeps :
      (a : Removal) → Within (Add.remove_from_container env backend c ctx key a o)
  unfolding Add.remove_from_container
  remove_from_container-Keeps a = perform-Keeps env backend _ _ c ctx key o _ _ r λ s e.
      Keeps-or_return _ (plan_removal-Keeps env s a)
        λ p. remove_chunks-Keeps env c s e a.type p.0 0 0 0 p.1

  pub get_container-Keeps : Within (Streams.get_container env backend c ctx key o)
  unfolding Streams.get_container
  get_container-Keeps =
      perform-Keeps env backend _ _ c ctx key o _ _ r λ s e. collect-Keeps env c s e none

  pub get_element_in_range-Keeps :
      (a : Position) → Within (Streams.get_element_in_range env backend c ctx key a o)
  unfolding Streams.get_element_in_range
  get_element_in_range-Keeps a =
      perform-Keeps env backend _ _ c ctx key o _ _ r λ s e. collect-Keeps env c s e (some a)

  pub add-Keeps :
      (t : ContainerType) (d : ContainerData) (kind : AddKind) (at : ℕ) (pivot : Payload) (n : Bool)
      → Within (add env backend c ctx key t d kind at pivot o n)
  unfolding add
  add-Keeps t d kind at pivot n = perform-Keeps env backend _ _ c ctx key o _ _ r λ s e.
      Keeps-or_return _ (plan_add-Keeps env s t d kind at pivot)
        λ p. add_chunks-Keeps env c s e t kind at p.1 p.0 _ _ 0 0 p.2
