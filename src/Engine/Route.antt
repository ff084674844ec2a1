-- ===== src/Engine/Route.antt =====
-- internal/engine/route.go: the routing target of a resource.
use krop_controller.Base.{
  Text, Eq, ◌==◌, text_eq, if◌then◌else◌, ◌≡◌, none, some, [], ◌++◌, arith, ◌⊎◌, ◌↔◌,
}
use krop_controller.Base.Bytes.{codes}
use krop_controller.Base.Dict.{Dict, lookup}
use krop_controller.Base.Result.{Result, ok, err, failure}

-- The values of the string type `Target` that the program builds.
pub data Target : Type 0 where
  consumer provider host : Target

Target-discrete : Discrete Target
Target-discrete = hlevel

instance unfoldable pub target_eq : Eq Target
unfolding Target-discrete
target_eq = record { dec = Target-discrete }

abbrev pub target_text : Target → Text
target_text consumer = codes "consumer"
target_text provider = codes "provider"
target_text host = codes "host"

unfoldable pub parse_target : Text → Result Target
parse_target s =
    if s == []
    then ok consumer
    else if s == target_text consumer
    then ok consumer
    else if s == target_text provider
    then ok provider
    else if s == target_text host
    then ok host
    else err (failure (codes "invalid target " ++ s))

-- `routing`, keyed by the resource's id
abbrev pub Routing : Type 0
Routing = Dict Text Target

unfoldable pub target_for_node : Text → Routing → Target
target_for_node id routing = elim (lookup id routing) [ none ↦ consumer | some t ↦ t ]

-- A text is accepted exactly when it is empty or names a target, and the empty one is `consumer`.
pub parse_target_iff :
    (s : Text) (t : Target)
    → (parse_target s ≡ ok t) ↔ ((s ≡ target_text t) ⊎ ((s ≡ []) × (t ≡ consumer)))
unfolding parse_target
parse_target_iff s consumer = ground arith
parse_target_iff s provider = ground arith
parse_target_iff s host = ground arith
