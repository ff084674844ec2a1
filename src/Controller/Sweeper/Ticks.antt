-- ===== src/Controller/Sweeper/Ticks.antt =====
-- Many sweeps in turn, as `Start` runs them: what they keep, and which objects they leave alone.
use krop_controller.Base.{
  ℕ, ◌+◌, ◌≤◌, Text, ◌==◌, text_eq, ltb, ◌≡◌, true, Option, some, List, [], ◌∷◌, All, All-map,
  arith, Bool-cases, inl, inr,
}
use krop_controller.Base.Bytes.{codes}
use krop_controller.Base.Dict.{get_or}
use krop_controller.Base.Result.{Result, ok, err, context, reads, for_each}
use krop_controller.Base.Stable.{Stable, bind-Stable, for_each-Stable}
use krop_controller.Api.Object.{Object, ChildId}
use krop_controller.Api.Client.{Client, list_gvk}
use krop_controller.Api.Clusters.{marked, IsCluster, IsSeparate}
use krop_controller.Engine.Route.{Target, provider, host}
use krop_controller.Engine.Labels.{label_liveness}
use krop_controller.Controller.Config.{namespace_or_default}
use krop_controller.Controller.Deletion.{delete-Stable}
use krop_controller.Controller.Children.{has_label}
use krop_controller.Controller.Liveness.{config_map_gvk, last_reconciled, provider_child_gvks}
use krop_controller.Controller.Sweeper.{
  Sweeper, sweep_children_via, sweep_host, sweep_children, uid_of, after_children, sweep_stale,
  is_fresh, sweep_record, sweep_records, anchor, sweep, run_ticks,
}
use krop_controller.Controller.Sweeper.Reclaimed.{sweep_children_via-Stable, sweep_host-Stable}
use krop_controller.Controller.Sweeper.Fresh.{IsSafe, sweep_records-IsSafe}

module _ {W : Type 0} (objects : Target → W → List Object) (parse_time : Text → Option ℕ) where
  module _ (s : Sweeper W) (provider_cluster : IsCluster objects provider s.provider_client)
      (host_cluster : (c : Client W) → s.host_client ≡ some c → IsCluster objects host c)
      (v : Target) (P : Object → Type 0) (k : (now : ℕ) (o : Object) → P o → P (marked now o)) where
    abbrev Each : W → Type 0
    Each w = All P (objects v w)

    sweep_children-Stable : (rec : Object) (uid : Text) → Stable Each (sweep_children s rec uid)
    unfolding sweep_children
    sweep_children-Stable rec uid w p = elim (Bool-cases (uid == [])) [
      | inl missing ↦ rw missing p
      | inr there ↦ rw there (
          bind-Stable Each
            (sweep_children_via s.provider_client (get_or [] provider_child_gvks rec.config) uid)
            (λ _. sweep_host s rec uid)
            (sweep_children_via-Stable objects uid provider s.provider_client provider_cluster v P k
              _)
            (λ _. sweep_host-Stable objects s provider_cluster host_cluster rec uid v P k) w p)
    ]

    after_children-Stable :
        (rec : Object) (r : Result (Unit {0})) → Stable Each (after_children s rec r)
    unfolding after_children
    after_children-Stable rec (ok _) w p =
        delete-Stable objects provider s.provider_client provider_cluster v P k rec w p
    after_children-Stable rec (err e) w p = p

    sweep_record-Stable : (now : ℕ) (rec : Object) → Stable Each (sweep_record s parse_time now rec)
    unfolding sweep_record sweep_stale
    sweep_record-Stable now rec w p = elim (Bool-cases (is_fresh s parse_time now rec)) [
      | inl fresh ↦ rw fresh p
      | inr stale ↦
          rw stale (after_children-Stable rec _ _ (sweep_children-Stable rec (uid_of s rec) w p))
    ]

    sweep_records-Stable : (now : ℕ) → Stable Each (sweep_records s parse_time now)
    unfolding sweep_records
    sweep_records-Stable now =
        bind-Stable Each
          (context (codes "listing liveness records") (
            reads (
              s.provider_client.list (list_gvk config_map_gvk)
                (namespace_or_default s.record_namespace)
                (has_label label_liveness (codes "true")))))
          (λ records. for_each records (sweep_record s parse_time now)) (λ w p. p)
          (λ records.
            for_each-Stable Each (sweep_record s parse_time now) records (sweep_record-Stable now))

    -- Whatever deletion marks cannot spoil, a sweep keeps of all objects.
    pub sweep-Stable : (now : ℕ) → Stable Each (sweep parse_time now s).0
    unfolding sweep
    sweep-Stable now w p = elim (Bool-cases (ltb now (anchor parse_time now s + s.stale_after))) [
      | inl early ↦ rw early p
      | inr due ↦ rw due (sweep_records-Stable now w p)
    ]

  module _ (t : Target) (id : ChildId) (u : Text) (before : Option Object) where
    -- Up to `bound` no record of the instance is stale.
    abbrev pub IsFreshTo : Sweeper W → ℕ → Object → Type 0
    IsFreshTo s bound rec =
        has_label label_liveness (codes "true") rec.labels ≡ true
        → uid_of s rec ≡ u
        → (last : ℕ) → parse_time (get_or [] last_reconciled rec.config) ≡ some last
        → bound ≤ last + s.stale_after

    sweep-IsSafe :
        (s : Sweeper W) (provider_cluster : IsCluster objects provider s.provider_client)
        (provider_separate : IsSeparate objects provider s.provider_client)
        (host_cluster : (c : Client W) → s.host_client ≡ some c → IsCluster objects host c)
        (host_separate : (c : Client W) → s.host_client ≡ some c → IsSeparate objects host c)
        (now : ℕ) (w : W)
        → IsSafe objects t id u before w
        → All (IsFreshTo s now) (objects provider w)
        → IsSafe objects t id u before ((sweep parse_time now s).0 w).1
    unfolding sweep
    sweep-IsSafe s pc ps hc hs now w safe live =
        elim (Bool-cases (ltb now (anchor parse_time now s + s.stale_after))) [
          | inl early ↦ rw early safe
          | inr due ↦
              rw due (
                sweep_records-IsSafe objects t id u before s pc ps hc hs parse_time now w safe live)
        ]

    pub run_ticks-IsSafe :
        (s : Sweeper W) (provider_cluster : IsCluster objects provider s.provider_client)
        (provider_separate : IsSeparate objects provider s.provider_client)
        (host_cluster : (c : Client W) → s.host_client ≡ some c → IsCluster objects host c)
        (host_separate : (c : Client W) → s.host_client ≡ some c → IsSeparate objects host c)
        (bound : ℕ) (ticks : List ℕ) (w : W)
        → All (λ now. now ≤ bound) ticks
        → IsSafe objects t id u before w
        → All (IsFreshTo s bound) (objects provider w)
        → IsSafe objects t id u before (run_ticks parse_time ticks s w)
    unfolding run_ticks sweep
    run_ticks-IsSafe s pc ps hc hs bound [] w soon safe live = safe
    run_ticks-IsSafe s pc ps hc hs bound (now ∷ ticks) w soon safe live =
        let s' = (sweep parse_time now s).1 in
        run_ticks-IsSafe s' pc ps hc hs bound ticks ((sweep parse_time now s).0 w).1 soon.1
          (sweep-IsSafe s pc ps hc hs now w safe (
            All-map (IsFreshTo s bound) (IsFreshTo s now) (objects provider w)
              (λ rec fresh l e last read. omega (arith, fresh l e last read, soon.0)) live))
          (sweep-Stable s pc hc provider (IsFreshTo s bound) (λ at o f. f) now w live)
