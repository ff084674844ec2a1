-- ===== src/Tests/Registrar.antt =====
-- The properties of the permission claims at concrete inputs.
use mathlib.Core.List.Perm
use krop_controller.Base.{text_eq, ◌≡◌, ◌↔◌, true, false, [], ◌∷◌, contains, All, NoRepeats}
use krop_controller.Base.Bytes.{codes}
use krop_controller.Base.Result.{ok}
use krop_controller.Api.Object.{Gr, gr_eq}
use krop_controller.Engine.Route.{target_eq}
use krop_controller.Registrar.Claims.{
  PermissionClaim, claim_verbs, concat_claims, merge_claims, validate_claims, foreign_consumer_grs,
  blueprint_claims,
}
use krop_controller.Registrar.Claims.Foreign.{needs, foreign_consumer_grs_exact}
use krop_controller.Registrar.Claims.Merged.{
  IsMerged, merge_claims-IsMerged, IsComplete, blueprint_claims-IsComplete, IsResolved,
  validate_claims_iff,
}
use krop_controller.Registrar.Claims.AnyOrder.{blueprint_claims-Perm}
use krop_controller.Tests.Sample.{agent_gr, database_gr, agent_node, config_node}

foreign_consumer_grs_exact_example :
    let (writable, external) =
      foreign_consumer_grs (agent_node ∷ config_node ∷ []) database_gr [] in
    ((gr : Gr)
      → (contains writable gr ≡ needs false database_gr [] (agent_node ∷ config_node ∷ []) gr)
        × (contains external gr ≡ needs true database_gr [] (agent_node ∷ config_node ∷ []) gr))
    × NoRepeats writable
    × NoRepeats external
foreign_consumer_grs_exact_example =
    foreign_consumer_grs_exact (agent_node ∷ config_node ∷ []) database_gr []

blueprint_claims-IsComplete_example :
    IsComplete
      (agent_node ∷ config_node ∷ [])
      database_gr
      []
      ((agent_gr, codes "h") ∷ [])
      (blueprint_claims (agent_node ∷ config_node ∷ []) database_gr [] ((agent_gr, codes "h") ∷ []))
blueprint_claims-IsComplete_example =
    blueprint_claims-IsComplete (agent_node ∷ config_node ∷ []) database_gr []
      ((agent_gr, codes "h") ∷ [])

abbrev agent_claim : PermissionClaim
agent_claim = record { group_resource = agent_gr; verbs = claim_verbs; identity_hash = [] }

merge_claims-IsMerged_example :
    IsMerged
      (concat_claims ((agent_claim ∷ []) ∷ (agent_claim ∷ []) ∷ []))
      (merge_claims ((agent_claim ∷ []) ∷ (agent_claim ∷ []) ∷ []))
merge_claims-IsMerged_example = merge_claims-IsMerged ((agent_claim ∷ []) ∷ (agent_claim ∷ []) ∷ [])

validate_claims_iff_example :
    (validate_claims (agent_claim ∷ []) ≡ ok tt) ↔ All IsResolved (agent_claim ∷ [])
validate_claims_iff_example = validate_claims_iff (agent_claim ∷ [])

blueprint_claims-Perm_example :
    blueprint_claims (agent_node ∷ config_node ∷ []) database_gr [] ((agent_gr, codes "h") ∷ [])
    ≡ blueprint_claims (config_node ∷ agent_node ∷ []) database_gr [] ((agent_gr, codes "h") ∷ [])
blueprint_claims-Perm_example =
    blueprint_claims-Perm database_gr [] ((agent_gr, codes "h") ∷ [])
      (agent_node ∷ config_node ∷ []) (config_node ∷ agent_node ∷ [])
      (Perm.swap config_node agent_node [])
