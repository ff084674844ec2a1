-- ===== src/Controller/Reconcile/Release.antt =====
-- The order of the calls in the deletion branch of `Reconcile` (internal/controller/reconciler.go).
use krop_controller.Base.{
  ℕ, Text, contains, text_eq, ◌≡◌, refl, sym, subst, ◌⊎◌, inl, inr, true, false, Option, none, some,
  List, [], ◌++◌, All, All-map, arith,
}
use krop_controller.Base.Bytes.{codes}
use krop_controller.Base.Result.{
  Error, Result, ok, err, Prog, context, ignore_not_found, reads, for_each, ◌>>◌,
}
use krop_controller.Base.Stable.{Stable, bind-Stable, for_each-Stable}
use krop_controller.Api.Object.{Object, Condition, Gvk, ChildId}
use krop_controller.Api.Client.{Client, Selector}
use krop_controller.Api.Clusters.{object_id, unversioned, is_deleting, IsCluster}
use krop_controller.Engine.Route.{Target, provider}
use krop_controller.Engine.Labels.{finalizer, label_instance_uid}
use krop_controller.Engine.Naming.{liveness_record_name}
use krop_controller.Engine.Graph.{Runtime}
use krop_controller.Controller.Config.{Reconciler, clients, namespace_or_default}
use krop_controller.Controller.Deletion.{accepted_of_ok, settle-marks, delete-Stable}
use krop_controller.Controller.Children.{
  delete_children, delete_target, delete_kind, child_gvks, has_label,
}
use krop_controller.Controller.Children.Reclaimed.{IsCleared, delete_children-IsCleared}
use krop_controller.Controller.Liveness.{record_key, delete_liveness_record}
use krop_controller.Controller.Reconcile.{release, remove_string}

module _ {S : Type 0} (P : S → Type 0) (m n : Prog S (Unit {0})) (last : Prog S (Unit {0})) where
  abbrev Ends : S → Type 0
  Ends s =
      (((m s).0 ≡ ok tt) × ((n (m s).1).0 ≡ ok tt) × ((m >> (n >> last)) s ≡ last (n (m s).1).1))
      ⊎ ((e : Error) × (((m >> (n >> last)) s).0 ≡ err e) × P ((m >> (n >> last)) s).1)

  -- Of three steps the last is reached, or one of the first two has failed.
  three-Ends : (s : S) → Stable P m → Stable P n → P s → Ends s
  three-Ends s hm hn p = first (m s).0 refl
    where
      second : (x : Result (Unit {0})) → (m s).0 ≡ ok tt → (n (m s).1).0 ≡ x → Ends s
      second (ok _) e q = inl (e, q, rw (e, q) refl)
      second (err x) e q = inr (x, rw (e, q) refl, rw (e, q) (hn (m s).1 (hm s p)))

      first : (x : Result (Unit {0})) → (m s).0 ≡ x → Ends s
      first (ok _) e = second (n (m s).1).0 e refl
      first (err x) e = inr (x, rw e refl, rw e (hm s p))

module _ {W : Type 0} (P : W → Type 0) where
  -- The client's deletions keep `P`.
  abbrev pub DeletesKeep : Client W → Type 0
  DeletesKeep c = (o : Object) → Stable P (c.delete o)

  abbrev delete_listed : Client W → Object → Prog W (Unit {0})
  delete_listed c o = context (codes "deleting " ++ o.name) (ignore_not_found (c.delete o))

  delete_kind-Stable :
      (uid : Text) (c : Client W) (g : Gvk) → DeletesKeep c → Stable P (delete_kind uid c g)
  unfolding delete_kind
  delete_kind-Stable uid c g k =
      bind-Stable P
        (context (codes "listing children")
          (reads (c.list g [] (has_label label_instance_uid uid))))
        (λ items. for_each items (delete_listed c)) (λ w p. p)
        (λ items. for_each-Stable P (delete_listed c) items (λ o. k o))

  module _ (r : Reconciler W) (consumer_client : Client W)
      (k : (t : Target) (c : Client W) → clients r consumer_client t ≡ some c → DeletesKeep c) where
    delete_target-Stable :
        (uid : Text) (t : Target) → Stable P (delete_target r consumer_client uid t)
    unfolding delete_target
    delete_target-Stable uid t w p = go (clients r consumer_client t) refl
      where
        go :
            (o : Option (Client W))
            → clients r consumer_client t ≡ o
            → P (delete_target r consumer_client uid t w).1
        go none e = rw (e, delete_target) p
        go (some c) e =
            rw (e, delete_target)
              (for_each-Stable P (delete_kind uid c) (child_gvks r t)
                (λ g. delete_kind-Stable uid c g (k t c e)) w p)

    delete_children-Stable :
        (order : List Target) (uid : Text) → Stable P (delete_children r order consumer_client uid)
    unfolding delete_children
    delete_children-Stable order uid =
        for_each-Stable P (delete_target r consumer_client uid) order (delete_target-Stable uid)

    delete_liveness_record-Stable :
        (digest : Text → Text) (format : ℕ → Text) (cluster uid : Text)
        → Stable P (delete_liveness_record digest format r cluster uid)
    unfolding delete_liveness_record
    delete_liveness_record-Stable digest format cluster uid = k provider r.provider_client refl _

module _ {W R : Type 0} (objects : Target → W → List Object) (digest : Text → Text)
    (format : ℕ → Text) (set_condition : List Condition → Condition → List Condition)
    (as_selector : Text → Result Selector) (from_graph : Object → Result (Runtime R × R))
    (order : List Target) (r : Reconciler W) (consumer_client : Client W) (cluster : Text)
    (clusters : (t : Target) (c : Client W)
      → clients r consumer_client t ≡ some c
      → IsCluster objects t c) where
  abbrev release_of : Object → Prog W (Unit {0})
  release_of =
      release digest format set_condition as_selector from_graph order r consumer_client cluster

  abbrev without_finalizer : Object → Object
  without_finalizer inst = record inst { finalizers = remove_string inst.finalizers finalizer }

  -- The identity of the instance's liveness record.
  abbrev pub record_id : Text → ChildId
  record_id uid = record {
    gvk = record { group = []; version = codes "v1"; kind = codes "ConfigMap" };
    namespace = namespace_or_default r.record_namespace;
    name = liveness_record_name digest cluster uid;
  }

  -- The provider's cluster has no liveness record of the instance, but one that waits for its finalizers.
  abbrev pub IsForgotten : Text → W → Type 0
  IsForgotten uid w =
      All (λ o. object_id o ≡ unversioned (record_id uid) → is_deleting o ≡ true)
        (objects provider w)

  delete_liveness_record-IsForgotten :
      (uid : Text) (w : W)
      → (delete_liveness_record digest format r cluster uid w).0 ≡ ok tt
      → IsForgotten uid (delete_liveness_record digest format r cluster uid w).1
  unfolding delete_liveness_record record_key
  delete_liveness_record-IsForgotten uid w done =
      let key = record_key digest format r cluster uid in
      let deleted = r.provider_client.delete key w in
      let (now, q) =
        (clusters provider r.provider_client refl).delete_here key w
          (accepted_of_ok (codes "deleting liveness record") deleted.0 done) in
      subst
        (λ (os : List Object).
          All (λ o. object_id o ≡ unversioned (record_id uid) → is_deleting o ≡ true) os)
        (sym q) (settle-marks now (object_id key) (objects provider w))

  abbrev Cleared : Text → Target → W → Type 0
  Cleared uid = IsCleared objects r consumer_client uid (λ _ _ _. false)

  delete_liveness_record-Cleared :
      (uid : Text) (t : Target)
      → Stable (Cleared uid t) (delete_liveness_record digest format r cluster uid)
  unfolding delete_liveness_record
  delete_liveness_record-Cleared uid t w h c e =
      All-map _ _ r.graph
        (λ n gone child kind.
          delete-Stable objects provider r.provider_client
            (clusters provider r.provider_client refl) t _ (λ now o m eg es ek. ground arith)
            (record_key digest format r cluster uid) w (gone child kind))
        (h c e)

  -- When an instance that holds the finalizer is deleted, one of two things happens. Either the
  -- instance's finalizer is taken off, from a state in which no child of the instance is left in any
  -- cluster that was met and no liveness record of it in the provider's, but what waits for its own
  -- finalizers. Or an error is reported, and nothing but deletions has been asked for: what deletions keep
  -- holds still, so the instance was not updated. The children's kinds must not end in "List".
  pub release-IsCleared :
      (P : W → Type 0)
      → ((t : Target) (c : Client W) → clients r consumer_client t ≡ some c → DeletesKeep P c)
      → (inst : Object) (w : W) → contains inst.finalizers finalizer ≡ true
      → P w
      → ((v : W) × All
            (λ t. IsCleared objects r consumer_client inst.uid (λ _ _ _. false) t v)
            order
          × IsForgotten inst.uid v
          × (release_of inst w ≡ consumer_client.update (without_finalizer inst) v))
        ⊎ ((e : Error) × ((release_of inst w).0 ≡ err e) × P (release_of inst w).1)
  unfolding release
  release-IsCleared P k inst w held p =
      let swept = (delete_children r order consumer_client inst.uid w).1 in
      elim (three-Ends P (delete_children r order consumer_client inst.uid)
        (delete_liveness_record digest format r cluster inst.uid)
        (consumer_client.update (without_finalizer inst)) w
        (delete_children-Stable P r consumer_client k order inst.uid)
        (delete_liveness_record-Stable P r consumer_client k digest format cluster inst.uid) p) [
          | inl (cleared, forgotten, q) ↦ inl (
            (delete_liveness_record digest format r cluster inst.uid swept).1,
            All-map (λ t. Cleared inst.uid t swept) _ order
                (λ t h. delete_liveness_record-Cleared inst.uid t swept h)
                (delete_children-IsCleared objects r consumer_client clusters inst.uid order w
                  cleared),
            delete_liveness_record-IsForgotten inst.uid swept forgotten,
            rw (held, release) q,
          )
          | inr (e, q, p') ↦ inr (e, rw (held, release) q, rw (held, release) p')
        ]
