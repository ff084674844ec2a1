-- ===== src/Engine/Labels.antt =====
-- internal/engine/labels.go and workspace.go: the labels of children and the annotation that the
-- instance gets for a pass.
use krop_controller.Base.{Text, text_eq, [], ◌∷◌}
use krop_controller.Base.Bytes.{codes}
use krop_controller.Base.Dict.{Dict, insert}
use krop_controller.Api.Object.{Object}

abbrev pub label_instance_uid : Text
label_instance_uid = codes "krop.opendefense.cloud/instance-uid"

abbrev pub label_consumer_cluster : Text
label_consumer_cluster = codes "krop.opendefense.cloud/consumer-cluster"

abbrev pub label_blueprint : Text
label_blueprint = codes "krop.opendefense.cloud/blueprint"

abbrev pub label_liveness : Text
label_liveness = codes "krop.opendefense.cloud/liveness"

abbrev pub finalizer : Text
finalizer = codes "krop.opendefense.cloud/gc"

unfoldable pub gc_labels : Text → Text → Text → Dict Text Text
gc_labels instance_uid consumer_cluster blueprint =
    (label_instance_uid, instance_uid)
    ∷ (label_consumer_cluster, consumer_cluster)
    ∷ (label_blueprint, blueprint)
    ∷ []

abbrev pub annotation_consumer_cluster : Text
annotation_consumer_cluster = label_consumer_cluster

unfoldable pub stamp_consumer_cluster : Object → Text → Object
stamp_consumer_cluster o cluster = record o {
  annotations = insert annotation_consumer_cluster cluster o.annotations;
}
