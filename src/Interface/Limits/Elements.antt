-- ===== src/Interface/Limits/Elements.antt =====
-- operations.go: the operations on values, positions, times and locks make no call above the configured size.
use hurricache_go_client.Prelude.{arith, ℤ, refl}
use hurricache_go_client.Types.{Bytes, Options, Position, LockType}
use hurricache_go_client.Config.{Config}
use hurricache_go_client.Rpc
use hurricache_go_client.World.{Ctx, Environment, Step}
use hurricache_go_client.World.Keeps.{Keeps, Keeps-bind, Keeps-same}
use hurricache_go_client.Session.{Backend}
use hurricache_go_client.Session.Limits.{AllWithin, Respects, unary-within, call-Keeps, steps-Keeps}
use hurricache_go_client.Operations.Values
use hurricache_go_client.Operations.Times

module _ (env : Environment) (backend : Backend) (c : Config) (ctx : Ctx) (key : Bytes)
    (o : Options) (r : Respects (AllWithin env c.max_request_bytes) backend) where
  abbrev Within : {A : Type 0} → Step A → Type 0
  Within m = Keeps (AllWithin env c.max_request_bytes) m

  pub set_ttl-Keeps : (a : ℤ) → Within (Times.set_ttl env backend c ctx key a o)
  unfolding Times.set_ttl
  set_ttl-Keeps a =
      steps-Keeps env backend c ctx key o r _ _ _ _ _ _ _
        (λ s e.
          Keeps-bind (Keeps-same (λ w. refl))
            λ _. Keeps-bind (Keeps-same (λ w. refl)) λ _. unary-within env c s e Rpc.set_ttl _)
        λ s q w. refl

  pub get_ttl-Keeps : Within (Times.get_ttl env backend c ctx key o)
  unfolding Times.get_ttl
  get_ttl-Keeps = call-Keeps env backend c ctx key o r _ _ _ _ Rpc.get_ttl _ _ λ s q w. ground arith

  pub lock_object-Keeps :
      (a : LockType) (b : ℤ) → Within (Times.lock_object env backend c ctx key a b o)
  unfolding Times.lock_object
  lock_object-Keeps a b =
      steps-Keeps env backend c ctx key o r _ _ _ _ _ _ _
        (λ s e. Keeps-bind (Keeps-same (λ w. refl)) λ _.
          Keeps-bind (Keeps-same (λ w. ground arith)) λ t. unary-within env c s e Rpc.lock_object _)
        λ s q w. refl

  pub unlock_object-Keeps : Within (Times.unlock_object env backend c ctx key o)
  unfolding Times.unlock_object
  unlock_object-Keeps =
      call-Keeps env backend c ctx key o r _ _ _ _ Rpc.unlock_object _ _ λ s q w. refl

  pub create_key_value-Keeps :
      (a : Bytes) → Within (Values.create_key_value env backend c ctx key a o)
  unfolding Values.create_key_value
  create_key_value-Keeps a =
      steps-Keeps env backend c ctx key o r _ _ _ _ _ _ _
        (λ s e.
          Keeps-bind (Keeps-same (λ w. refl)) λ _. unary-within env c s e Rpc.create_key_value _)
        λ s q w. refl

  pub update_key_value-Keeps :
      (a : Bytes) → Within (Values.update_key_value env backend c ctx key a o)
  unfolding Values.update_key_value
  update_key_value-Keeps a =
      steps-Keeps env backend c ctx key o r _ _ _ _ _ _ _
        (λ s e. Keeps-bind (Keeps-same (λ w. refl)) λ _. unary-within env c s e Rpc.update_value _)
        λ s q w. refl

  pub get_element_at_position-Keeps :
      (a : Position) → Within (Values.get_element_at_position env backend c ctx key a o)
  unfolding Values.get_element_at_position
  get_element_at_position-Keeps a =
      steps-Keeps env backend c ctx key o r _ _ _ _ _ _ _
        (λ s e.
          Keeps-bind (Keeps-same (λ w. refl))
            λ _. unary-within env c s e Rpc.get_element_at_position _)
        λ s q w. refl

  pub get_and_remove_element_at_position-Keeps :
      (a : Position) → Within (Values.get_and_remove_element_at_position env backend c ctx key a o)
  unfolding Values.get_and_remove_element_at_position
  get_and_remove_element_at_position-Keeps a =
      steps-Keeps env backend c ctx key o r _ _ _ _ _ _ _
        (λ s e.
          Keeps-bind (Keeps-same (λ w. refl))
            λ _. unary-within env c s e Rpc.get_and_remove_element_at_position _)
        λ s q w. refl

  pub remove_element_at_position-Keeps :
      (a : Position) → Within (Values.remove_element_at_position env backend c ctx key a o)
  unfolding Values.remove_element_at_position
  remove_element_at_position-Keeps a =
      steps-Keeps env backend c ctx key o r _ _ _ _ _ _ _
        (λ s e.
          Keeps-bind (Keeps-same (λ w. refl))
            λ _. unary-within env c s e Rpc.remove_element_at_position _)
        λ s q w. refl

  pub get_container_value-Keeps :
      (a : Bytes) → Within (Values.get_container_value env backend c ctx key a o)
  unfolding Values.get_container_value
  get_container_value-Keeps a =
      steps-Keeps env backend c ctx key o r _ _ _ _ _ _ _
        (λ s e.
          Keeps-bind (Keeps-bind (Keeps-same (λ w. refl)) λ _. Keeps-same (λ w. refl))
            λ q. unary-within env c s e Rpc.get_value_in_container _)
        λ s q w. refl

  pub get_and_remove_container_value-Keeps :
      (a : Bytes) → Within (Values.get_and_remove_container_value env backend c ctx key a o)
  unfolding Values.get_and_remove_container_value
  get_and_remove_container_value-Keeps a =
      steps-Keeps env backend c ctx key o r _ _ _ _ _ _ _
        (λ s e.
          Keeps-bind (Keeps-bind (Keeps-same (λ w. refl)) λ _. Keeps-same (λ w. refl))
            λ q. unary-within env c s e Rpc.get_and_delete_value_in_container _)
        λ s q w. refl

  pub contains_container_key-Keeps :
      (a : Bytes) → Within (Values.contains_container_key env backend c ctx key a o)
  unfolding Values.contains_container_key
  contains_container_key-Keeps a =
      steps-Keeps env backend c ctx key o r _ _ _ _ _ _ _
        (λ s e.
          Keeps-bind (Keeps-bind (Keeps-same (λ w. refl)) λ _. Keeps-same (λ w. refl))
            λ q. unary-within env c s e Rpc.exist_key_in_container _)
        λ s q w. refl

  pub remove_container_key-Keeps :
      (a : Bytes) → Within (Values.remove_container_key env backend c ctx key a o)
  unfolding Values.remove_container_key
  remove_container_key-Keeps a =
      steps-Keeps env backend c ctx key o r _ _ _ _ _ _ _
        (λ s e.
          Keeps-bind (Keeps-bind (Keeps-same (λ w. refl)) λ _. Keeps-same (λ w. refl))
            λ q. unary-within env c s e Rpc.remove_in_container _)
        λ s q w. refl

  pub update_container_value-Keeps :
      (a : Bytes) (b : Bytes) → Within (Values.update_container_value env backend c ctx key a b o)
  unfolding Values.update_container_value
  update_container_value-Keeps a b =
      steps-Keeps env backend c ctx key o r _ _ _ _ _ _ _
        (λ s e. Keeps-bind (Keeps-same (λ w. refl)) λ _.
          Keeps-bind (Keeps-same (λ w. refl))
            λ _. unary-within env c s e Rpc.update_value_in_container _)
        λ s q w. refl
