-- ===== src/Controller/Sweeper.antt =====
-- internal/controller/sweeper.go: the sweeper of orphaned children. Times and durations are numbers
-- of one unit, `parse_time` reads RFC 3339, and a clock's readings are arguments.
pub mod Grace
pub mod Reclaimed
pub mod Fresh
pub mod Ticks
pub mod Lifeline
use krop_controller.Base.{
  ℕ, ◌+◌, Text, ◌==◌, text_eq, if◌then◌else◌, ltb, leb, Bool, Option, none, some, List, [], ◌∷◌,
  ◌++◌,
}
use krop_controller.Base.Bytes.{codes}
use krop_controller.Base.Dict.{get_or}
use krop_controller.Base.Result.{
  Result, ok, err, failure, Prog, pure, raise, reads, attempt, context, ignore_not_found, for_each,
  ◌>>=◌, ◌>>◌,
}
use krop_controller.Api.Object.{Gvk, Object}
use krop_controller.Api.Client.{Client, list_gvk}
use krop_controller.Engine.Labels.{label_instance_uid, label_liveness}
use krop_controller.Controller.Config.{namespace_or_default}
use krop_controller.Controller.Children.{has_label}
use krop_controller.Controller.Liveness.{
  config_map_gvk, last_reconciled, provider_child_gvks, host_child_gvks,
}
use krop_controller.Controller.Tokens.{parse_gvk_string}

-- `started_at` is `none` for the zero time.
pub record Sweeper (W : Type 0) : Type 0 where
  pub provider_client : Client W
  pub host_client : Option (Client W)
  pub record_namespace : Text
  pub stale_after : ℕ
  pub started_at : Option ℕ

module _ {W : Type 0} where
  -- The body of `sweepChildrenVia` for one kind.
  unfoldable pub sweep_kind : Client W → Text → Gvk → Prog W (Unit {0})
  sweep_kind c instance_uid g = do
    items ←
        context (codes "listing children")
          (reads (c.list (list_gvk g) [] (has_label label_instance_uid instance_uid)))
    for_each items λ o. context (codes "deleting " ++ o.name) (ignore_not_found (c.delete o))

  unfoldable pub sweep_children_via : Client W → Text → Text → Prog W (Unit {0})
  sweep_children_via c gvk_raw instance_uid =
      for_each (parse_gvk_string gvk_raw) (sweep_kind c instance_uid)

module _ {W : Type 0} (s : Sweeper W) where
  unfoldable pub sweep_host : Object → Text → Prog W (Unit {0})
  sweep_host rec instance_uid = elim s.host_client [
    | none ↦ pure tt
    | some c ↦ sweep_children_via c (get_or [] host_child_gvks rec.config) instance_uid
  ]

  unfoldable pub sweep_children : Object → Text → Prog W (Unit {0})
  sweep_children rec instance_uid =
      if instance_uid == [] then raise (failure (codes "liveness record missing label")) else do
        sweep_children_via s.provider_client (get_or [] provider_child_gvks rec.config) instance_uid
        sweep_host rec instance_uid

  abbrev pub uid_of : Object → Text
  uid_of rec = get_or [] label_instance_uid rec.labels

  -- A failed sweep of the children is logged, and the record is left for the next pass.
  unfoldable pub after_children : Object → Result (Unit {0}) → Prog W (Unit {0})
  after_children rec (ok _) =
      context (codes "deleting liveness record") (ignore_not_found (s.provider_client.delete rec))
  after_children rec (err e) = pure tt

  unfoldable pub sweep_stale : Object → Prog W (Unit {0})
  sweep_stale rec = do swept ← attempt (sweep_children rec (uid_of rec)); after_children rec swept

  module _ (parse_time : Text → Option ℕ) (now : ℕ) where
    -- `now.Sub(last) <= s.StaleAfter`; a record with no readable time is skipped like a fresh one.
    abbrev pub is_fresh : Object → Bool
    is_fresh rec = elim (parse_time (get_or [] last_reconciled rec.config)) [
      | none ↦ Bool.true
      | some last ↦ leb now (last + s.stale_after)
    ]

    unfoldable pub sweep_record : Object → Prog W (Unit {0})
    sweep_record rec = if is_fresh rec then pure tt else sweep_stale rec

    unfoldable pub sweep_records : Prog W (Unit {0})
    sweep_records = do
      records ← context (codes "listing liveness records") (
          reads (
            s.provider_client.list (list_gvk config_map_gvk)
              (namespace_or_default s.record_namespace) (has_label label_liveness (codes "true"))))
      for_each records sweep_record

module _ {W : Type 0} (parse_time : Text → Option ℕ) where
  abbrev pub anchor : ℕ → Sweeper W → ℕ
  anchor now s = elim s.started_at [ none ↦ now | some t ↦ t ]

  -- `Sweep` at the time `now`. The sweeper comes back with its grace anchor set.
  unfoldable pub sweep : ℕ → Sweeper W → Prog W (Unit {0}) × Sweeper W
  sweep now s = (
    if ltb now (anchor now s + s.stale_after) then pure tt else sweep_records s parse_time now,
    record s { started_at = some (anchor now s) },
  )

  -- `Start` with the times of its ticks: a failed sweep is logged.
  unfoldable pub run_ticks : List ℕ → Sweeper W → W → W
  run_ticks [] s w = w
  run_ticks (now ∷ ticks) s w = let (pass, s') = sweep now s in run_ticks ticks s' (pass w).1

  unfoldable pub start : ℕ → List ℕ → Sweeper W → W → W
  start now ticks s = run_ticks ticks (record s { started_at = some now })
