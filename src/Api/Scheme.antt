-- ===== src/Api/Scheme.antt =====
-- api/v1beta1/groupversion_info.go, and `init` of api/v1beta1/authorino_types.go: the types that the
-- package registers. `scheme.Builder` of controller-runtime is a parameter: `B` is its state, and `W`
-- the one that the scheme is a part of.
use authorino_operator.Prelude.{String, List, [], ◌∷◌}
use authorino_operator.Reconcilers.Action.{Err}

-- `schema.GroupVersion`
pub record GroupVersion : Type 0 where
  pub group : String
  pub version : String

abbrev pub group_version : GroupVersion
group_version = record { group = "operator.authorino.kuadrant.io"; version = "v1beta1" }

-- the Go types `Authorino` and `AuthorinoList`
pub data Registered : Type 0 where
  authorino authorino_list : Registered

pub record Builders (B W : Type 0) : Type 0 where
  pub new : GroupVersion → B
  pub register : List Registered → B → B
  pub add_to_scheme : B → W → Err × W

module _ {B W : Type 0} (lib : Builders B W) where
  abbrev pub scheme_builder : B
  scheme_builder = lib.new group_version

  -- the builder behind `init`
  abbrev pub registered : B
  registered = lib.register (Registered.authorino ∷ Registered.authorino_list ∷ []) scheme_builder

  -- `AddToScheme` is bound to the pointer, and no one calls it before `init`.
  abbrev pub add_to_scheme : W → Err × W
  add_to_scheme = lib.add_to_scheme registered
