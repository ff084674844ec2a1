-- ===== src/Registrar/Claims.antt =====
-- internal/registrar/claims.go: the permission claims of an export.
pub mod Foreign
pub mod Merged
pub mod AnyOrder
use krop_controller.Base.{
  Text, ◌==◌, text_eq, add_new, if◌then◌else◌, Bool, true, false, not, ◌&&◌, ◌||◌, Option, none,
  some, List, [], ◌∷◌, ◌++◌,
}
use krop_controller.Base.Bytes.{codes}
use krop_controller.Base.Dict.{Dict, get_or}
use krop_controller.Base.Result.{Result, ok, err, failure}
use krop_controller.Api.Object.{Gr, gr_eq}
use krop_controller.Engine.Route.{Target, target_eq, consumer, Routing, target_for_node}
use krop_controller.Engine.Graph.{Node, is_external}
use krop_controller.Registrar.Order.{sort_stable}

-- `apisv1alpha2.PermissionClaim`, by the fields that the source sets.
pub record PermissionClaim : Type 0 where
  pub group_resource : Gr
  pub verbs : List Text
  pub identity_hash : Text

abbrev pub claim_verbs : List Text
claim_verbs =
    codes "get"
    ∷ codes "list"
    ∷ codes "watch"
    ∷ codes "create"
    ∷ codes "update"
    ∷ codes "patch"
    ∷ codes "delete"
    ∷ []

abbrev pub read_only_verbs : List Text
read_only_verbs = codes "get" ∷ codes "list" ∷ codes "watch" ∷ []

-- The loop of `DeriveClaims` over the sorted resources.
unfoldable pub to_claims : List Text → Dict Gr Text → List Gr → List PermissionClaim
to_claims verbs identity [] = []
to_claims verbs identity (gr ∷ grs) =
    record { group_resource = gr; verbs = verbs; identity_hash = get_or [] gr identity }
    ∷ to_claims verbs identity grs

unfoldable pub derive_claims : List Gr → List Text → Dict Gr Text → List PermissionClaim
derive_claims foreign verbs identity = to_claims verbs identity (sort_stable (λ gr. gr) foreign)

-- The loop of `mergeClaims`, with the last claim of `out`. The code gives the merged verbs to a copy
-- of that claim, so `out` never sees them.
unfoldable pub collapse : PermissionClaim → List PermissionClaim → List PermissionClaim
collapse last [] = []
collapse last (c ∷ cs) =
    let other = not (last.group_resource == c.group_resource) in
    let rest = collapse (if other then c else last) cs in if other then c ∷ rest else rest

unfoldable pub concat_claims : List (List PermissionClaim) → List PermissionClaim
concat_claims [] = []
concat_claims (c ∷ cs) = c ++ concat_claims cs

unfoldable pub merge_sorted : List PermissionClaim → Option (List PermissionClaim)
merge_sorted [] = none
merge_sorted (c ∷ cs) = some (c ∷ collapse c (c ∷ cs))

-- `none` stands for the panic of `all[0]` on an empty slice.
unfoldable pub merge_claims : List (List PermissionClaim) → Option (List PermissionClaim)
merge_claims inputs = merge_sorted (sort_stable (λ c. c.group_resource) (concat_claims inputs))

unfoldable pub validate_claims : List PermissionClaim → Result (Unit {0})
validate_claims [] = ok tt
validate_claims (c ∷ cs) =
    if not (c.group_resource.group == []) && c.identity_hash == []
    then err (
        failure (
          codes "permissionClaim for "
          ++ (c.group_resource.group
              ++ (b'/'
                  ∷ (c.group_resource.resource
                      ++ codes
                          " has no identityHash: its owning APIExport is not bound in the provider workspace")))))
    else validate_claims cs

-- The loop of `ForeignConsumerGRs`; each list holds what its `seen` set holds.
unfoldable pub collect_foreign : Gr → Routing → List Node → List Gr → List Gr → List Gr × List Gr
collect_foreign instance_gr routing [] writable external = (writable, external)
collect_foreign instance_gr routing (n ∷ ns) writable external =
    let skipped = not (target_for_node n.id routing == consumer) || n.gr == instance_gr in
    collect_foreign instance_gr routing ns
      (if skipped || is_external n.type then writable else add_new n.gr writable)
      (if not skipped && is_external n.type then add_new n.gr external else external)

unfoldable pub foreign_consumer_grs : List Node → Gr → Routing → List Gr × List Gr
foreign_consumer_grs nodes instance_gr routing = collect_foreign instance_gr routing nodes [] []

-- The claims of one blueprint, as `Reconcile` of the registrar makes them.
unfoldable pub blueprint_claims :
    List Node → Gr → Routing → Dict Gr Text → Option (List PermissionClaim)
blueprint_claims nodes instance_gr routing identity =
    let (writable, external) = foreign_consumer_grs nodes instance_gr routing in
    merge_claims (
      derive_claims writable claim_verbs identity
      ∷ derive_claims external read_only_verbs identity
      ∷ [])
