-- ===== src/Api/Blueprint.antt =====
-- api/v1alpha1: a blueprint, which wraps kro's spec with the target of each resource.
use krop_controller.Base.{
  ℕ, Text, text_eq, ◌==◌, if◌then◌else◌, not, Option, none, some, List, [], ◌∷◌, ◌++◌,
}
use krop_controller.Base.Dict.{Dict, insert}
use krop_controller.Api.Object.{Condition}

-- kro's resource: its id, and what the program never looks into.
pub record KroResource : Type 0 where
  pub id : Text
  pub body : Text

-- `Resource`
pub record Resource : Type 0 where
  pub kro : KroResource
  pub target : Text

-- `ResourceGraphDefinitionSpec`; a nil pointer among the resources is `none`.
pub record BlueprintSpec : Type 0 where
  pub schema : Text
  pub resources : List (Option Resource)

pub record KroSpec : Type 0 where
  pub schema : Text
  pub resources : List KroResource

pub record BlueprintStatus : Type 0 where
  pub exported_api : Text
  pub identity_hash : Text
  pub observed_spec_hash : Text
  pub conditions : List Condition

-- `ResourceGraphDefinition`
pub record Blueprint : Type 0 where
  pub name : Text
  pub deletion_timestamp : Option ℕ
  pub finalizers : List Text
  pub spec : BlueprintSpec
  pub status : BlueprintStatus

-- The loop of `ToKro`, with the resources and the routing so far.
unfoldable pub split_resources :
    List (Option Resource) → List KroResource → Dict Text Text → List KroResource × Dict Text Text
split_resources [] res routing = (res, routing)
split_resources (none ∷ rs) res routing = split_resources rs res routing
split_resources (some r ∷ rs) res routing =
    split_resources rs (res ++ (r.kro ∷ []))
      (if not (r.target == []) then insert r.kro.id r.target routing else routing)

-- `ToKro`
unfoldable pub to_kro : BlueprintSpec → KroSpec × Dict Text Text
to_kro s =
    let (res, routing) = split_resources s.resources [] [] in
    (record { schema = s.schema; resources = res }, routing)
