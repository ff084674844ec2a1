-- ===== src/Controller/Reconcile/Recorded.antt =====
-- The liveness record that a pass of `Reconcile` (internal/controller/reconciler.go) leaves in the
-- provider's cluster.
use krop_controller.Base.{
  ℕ, Text, text_eq, contains, ◌≡◌, refl, sym, ◌∙◌, inl, inr, true, false, ◌&&◌, none, List, [], ◌∷◌,
  All, All-map, arith, Bool-cases,
}
use krop_controller.Base.Bytes.{codes}
use krop_controller.Base.Dict.{get_or}
use krop_controller.Base.Result.{Result, ok, err, is_not_found}
use krop_controller.Base.Stable.{Stable}
use krop_controller.Api.Object.{Object, Condition, ChildId, child_id_eq, child_id}
use krop_controller.Api.Client.{Client, Selector}
use krop_controller.Api.Clusters.{
  object_id, unversioned, is_deleting, no_finalizers, object_at, IsHeld, IsStore, SameRecord,
}
use krop_controller.Engine.Route.{Target, provider, host}
use krop_controller.Engine.Labels.{finalizer}
use krop_controller.Engine.Naming.{liveness_record_name}
use krop_controller.Engine.Graph.{Runtime}
use krop_controller.Controller.Config.{Reconciler, namespace_or_default}
use krop_controller.Controller.Children.{prune_children}
use krop_controller.Controller.Deletion.{context_of_ok}
use krop_controller.Controller.Liveness.{
  liveness_labels, liveness_data, child_gvk_string, record_key, upsert_record,
  write_liveness_record,
}
use krop_controller.Controller.Reconcile.{reconcile_instance}
use krop_controller.Controller.Reconcile.Heartbeat.{reconcile_instance-beats}

object_at-unversioned :
    (id id' : ChildId) (os : List Object)
    → unversioned id ≡ unversioned id'
    → object_at id os ≡ object_at id' os
unfolding object_at
object_at-unversioned id id' [] e = refl
object_at-unversioned id id' (o ∷ os) e = ground (arith, e, object_at-unversioned id id' os e)

module _ {W : Type 0} (objects : Target → W → List Object) (digest : Text → Text)
    (format : ℕ → Text) (r : Reconciler W) (cluster uid : Text) (now : ℕ) where
  abbrev pub key_id : ChildId
  key_id = record {
    gvk = record { group = []; version = codes "v1"; kind = codes "ConfigMap" };
    namespace = namespace_or_default r.record_namespace;
    name = liveness_record_name digest cluster uid;
  }

  -- What stands under the instance's key tells the instance, the time, and the kinds of its children.
  abbrev pub Bears : Object → Type 0
  Bears o =
      object_id o ≡ unversioned key_id
      → (get_or [] (codes "krop.opendefense.cloud/instance-uid") o.labels ≡ uid)
        × (get_or [] (codes "krop.opendefense.cloud/consumer-cluster") o.labels ≡ cluster)
        × (get_or [] (codes "krop.opendefense.cloud/liveness") o.labels ≡ codes "true")
        × (get_or [] (codes "lastReconciled") o.config ≡ format now)
        × (get_or [] (codes "providerChildGVKs") o.config
            ≡ child_gvk_string digest format r provider)
        × (get_or [] (codes "hostChildGVKs") o.config ≡ child_gvk_string digest format r host)

  -- The provider's cluster holds the instance's record, as of `now`.
  abbrev pub IsRecorded : W → Type 0
  IsRecorded w = IsHeld key_id (objects provider w) × All Bears (objects provider w)

  module _ (store : IsStore objects provider r.provider_client) where
    abbrev refreshed : Object → Object
    refreshed o = record o {
      labels = liveness_labels digest format r cluster uid;
      config = liveness_data digest format r now;
    }

    refreshed-Bears :
        (o x : Object) → SameRecord (refreshed o) x → object_id o ≡ unversioned key_id → Bears x
    unfolding text_eq
    refreshed-Bears o x same keyed e =
        let (labels, config) = same (e ∙ sym keyed) in
        rw (labels, config) (refl, refl, refl, refl, refl, refl)

    stored-IsRecorded :
        (o : Object) (w : W)
        → object_id o ≡ unversioned key_id
        → All (SameRecord (refreshed o)) (objects provider w)
          × IsHeld (child_id (refreshed o)) (objects provider w)
        → IsRecorded w
    stored-IsRecorded o w keyed (all_same, (x, there)) = (
      (x, sym (object_at-unversioned (child_id o) key_id (objects provider w) keyed) ∙ there),
      All-map (SameRecord (refreshed o)) Bears (objects provider w)
          (λ x same. refreshed-Bears o x same keyed) all_same,
    )

    key_of_record : object_id (record_key digest format r cluster uid) ≡ unversioned key_id
    unfolding record_key
    key_of_record = refl

    upsert_record-IsRecorded :
        (found : Result Object) (w : W)
        → ((o : Object)
            → found ≡ ok o
            → (object_id o ≡ unversioned key_id) × ((is_deleting o && no_finalizers o) ≡ false))
        → (upsert_record digest format r cluster uid now found w).0 ≡ ok tt
        → IsRecorded (upsert_record digest format r cluster uid now found w).1
    unfolding upsert_record
    upsert_record-IsRecorded (ok o) w keyed = λ done.
        stored-IsRecorded o (r.provider_client.update (refreshed o) w).1 (keyed o refl).0 (
          store.updated (refreshed o) w (context_of_ok (codes "updating liveness record") _ done)
            (keyed o refl).1)
    upsert_record-IsRecorded (err e) w keyed = elim (Bool-cases (is_not_found e)) [
      | inl missing ↦
          let key = record_key digest format r cluster uid in
          rw missing λ done.
            stored-IsRecorded key (r.provider_client.create (refreshed key) w).1 key_of_record (
              store.created (refreshed key) w
                (context_of_ok (codes "creating liveness record") _ done))
      | inr broken ↦ rw broken λ done. absurd (cc done)
    ]

    -- A write of the record that reports no error has recorded the instance.
    pub write_liveness_record-IsRecorded :
        (w : W)
        → (write_liveness_record digest format r cluster uid now w).0 ≡ ok tt
        → IsRecorded (write_liveness_record digest format r cluster uid now w).1
    unfolding write_liveness_record
    write_liveness_record-IsRecorded w =
        let key = record_key digest format r cluster uid in
        upsert_record-IsRecorded (r.provider_client.get key.gvk key.namespace key.name w) w
          (λ o found.
            let (keyed, kept) = store.got key.gvk key.namespace key.name w o found in
            (keyed ∙ key_of_record, kept))

module _ {W R : Type 0} (objects : Target → W → List Object) (digest : Text → Text)
    (format : ℕ → Text) (set_condition : List Condition → Condition → List Condition)
    (as_selector : Text → Result Selector) (from_graph : Object → Result (Runtime R × R))
    (order : List Target) (r : Reconciler W) (consumer_client : Client W) (cluster : Text)
    (store : IsStore objects provider r.provider_client) (inst : Object) (now : ℕ) (P : W → Type 0)
    (recorded : (w : W) → IsRecorded objects digest format r cluster inst.uid now w → P w)
    (pruned : (applied : Target → List ChildId)
      → Stable P (prune_children r order consumer_client inst.uid applied))
    (status_updates : (o : Object) → Stable P (consumer_client.update_status o)) where
  -- Every pass over a live instance with the finalizer that reports no error asks to be called again,
  -- complete or not. It has put the liveness record in the provider's cluster, whether there was one or
  -- not, under the name of the instance and with its uid, its cluster, the time of the pass and the kinds of
  -- its children. What holds whenever that record is there, and is kept by prune and by the status update,
  -- holds at the end of the pass.
  pub reconcile_instance-requeues :
      (namespace name : Text) (w : W)
      → consumer_client.get r.instance_gvk namespace name w ≡ ok inst
      → is_deleting inst ≡ false
      → contains inst.finalizers finalizer ≡ true
      → let run =
          reconcile_instance digest format set_condition as_selector from_graph order r
            consumer_client cluster namespace name now w in
        run.0.error ≡ none → (run.0.summary.requeue ≡ true) × P run.1
  reconcile_instance-requeues =
      reconcile_instance-beats digest format set_condition as_selector from_graph order r
        consumer_client cluster inst now P
        (λ w done. recorded _ (
          write_liveness_record-IsRecorded objects digest format r cluster inst.uid now store w
            done))
        pruned status_updates
