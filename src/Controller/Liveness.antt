-- ===== src/Controller/Liveness.antt =====
-- internal/controller/reconciler.go: the liveness record of an instance, a ConfigMap in the provider
-- workspace. `digest` is the hexadecimal SHA-256, `format` the RFC 3339 form of a time.
use krop_controller.Base.{ℕ, Text, text_eq, if◌then◌else◌, none, [], ◌∷◌}
use krop_controller.Base.Bytes.{codes}
use krop_controller.Base.Dict.{Dict}
use krop_controller.Base.Result.{
  Result, ok, err, wrap, is_not_found, Prog, raise, reads, attempt, context, ignore_not_found,
  ◌>>=◌,
}
use krop_controller.Api.Object.{Gvk, Object}
use krop_controller.Engine.Route.{Target, provider, host}
use krop_controller.Engine.Labels.{
  label_instance_uid, label_consumer_cluster, label_blueprint, label_liveness,
}
use krop_controller.Engine.Naming.{liveness_record_name}
use krop_controller.Controller.Config.{Reconciler, namespace_or_default}
use krop_controller.Controller.Children.{child_gvks}
use krop_controller.Controller.Tokens.{gvk_string}

abbrev pub config_map_gvk : Gvk
config_map_gvk = record { group = []; version = codes "v1"; kind = codes "ConfigMap" }

-- An object with nothing but its kind, namespace and name.
abbrev pub named : Gvk → Text → Text → Object
named g ns n = record {
  gvk = g;
  namespace = ns;
  name = n;
  uid = [];
  generation = 0;
  labels = [];
  annotations = [];
  finalizers = [];
  owner_refs = [];
  deletion_timestamp = none;
  config = [];
  selector = none;
  status = none;
  body = [];
}

-- `time.Second`: a time is a number of nanoseconds.
abbrev pub second : ℕ
second = 1000000000

abbrev pub last_reconciled : Text
last_reconciled = codes "lastReconciled"

abbrev pub provider_child_gvks : Text
provider_child_gvks = codes "providerChildGVKs"

abbrev pub host_child_gvks : Text
host_child_gvks = codes "hostChildGVKs"

module _ {W : Type 0} (digest : Text → Text) (format : ℕ → Text) (r : Reconciler W) where
  -- `childGVKString`
  unfoldable pub child_gvk_string : Target → Text
  child_gvk_string target = gvk_string (child_gvks r target)

  abbrev pub liveness_labels : Text → Text → Dict Text Text
  liveness_labels cluster instance_uid =
      (label_instance_uid, instance_uid)
      ∷ (label_consumer_cluster, cluster)
      ∷ (label_blueprint, r.blueprint_name)
      ∷ (label_liveness, codes "true")
      ∷ []

  abbrev pub liveness_data : ℕ → Dict Text Text
  liveness_data now =
      (last_reconciled, format now)
      ∷ (provider_child_gvks, child_gvk_string provider)
      ∷ (host_child_gvks, child_gvk_string host)
      ∷ []

  unfoldable pub record_key : Text → Text → Object
  record_key cluster instance_uid =
      named config_map_gvk (namespace_or_default r.record_namespace)
        (liveness_record_name digest cluster instance_uid)

  unfoldable pub upsert_record : Text → Text → ℕ → Result Object → Prog W (Unit {0})
  upsert_record cluster instance_uid now (ok existing) =
      context (codes "updating liveness record") (
        r.provider_client.update (record existing {
          labels = liveness_labels cluster instance_uid;
          config = liveness_data now;
        }))
  upsert_record cluster instance_uid now (err e) =
      if is_not_found e
      then context (codes "creating liveness record") (
          r.provider_client.create (record (record_key cluster instance_uid) {
            labels = liveness_labels cluster instance_uid;
            config = liveness_data now;
          }))
      else raise (wrap (codes "getting liveness record") e)

  unfoldable pub write_liveness_record : Text → Text → ℕ → Prog W (Unit {0})
  write_liveness_record cluster instance_uid now = do
    let key = record_key cluster instance_uid
    found ← attempt (reads (r.provider_client.get key.gvk key.namespace key.name))
    upsert_record cluster instance_uid now found

  unfoldable pub delete_liveness_record : Text → Text → Prog W (Unit {0})
  delete_liveness_record cluster instance_uid =
      context (codes "deleting liveness record")
        (ignore_not_found (r.provider_client.delete (record_key cluster instance_uid)))
