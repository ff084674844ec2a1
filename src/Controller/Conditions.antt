-- ===== src/Controller/Conditions.antt =====
-- internal/controller/reconciler.go: the conditions of an instance. `set_condition` stands for
-- `meta.SetStatusCondition`. The time of a condition's last transition is that function's alone.
pub mod Reports
use krop_controller.Base.{ℕ, Text, text_eq, if◌then◌else◌, Option, none, some, List, [], ◌∷◌, map}
use krop_controller.Base.Bytes.{codes}
use krop_controller.Api.Object.{
  Object, Status, Condition, status_true, status_false, RawCondition, typed, malformed,
}
use krop_controller.Engine.Loop.{Summary}

abbrev pub condition_ready : Text
condition_ready = codes "Ready"

abbrev pub condition_progressing : Text
condition_progressing = codes "Progressing"

abbrev pub reason_ready : Text
reason_ready = codes "Ready"

abbrev pub reason_progressing : Text
reason_progressing = codes "Progressing"

abbrev pub reason_reconciled : Text
reason_reconciled = codes "Reconciled"

-- The two conditions that a result stands for.
unfoldable pub ready_condition : Summary → ℕ → Condition
ready_condition res generation = record {
  type = condition_ready;
  status = if res.ready then status_true else status_false;
  reason = if res.ready then reason_ready else reason_progressing;
  message =
      if res.ready
      then codes "all resources are ready"
      else codes "waiting for resources to become ready";
  observed_generation = generation;
}

unfoldable pub progressing_condition : Summary → ℕ → Condition
progressing_condition res generation = record {
  type = condition_progressing;
  status = if res.ready then status_false else status_true;
  reason = if res.ready then reason_reconciled else reason_progressing;
  message = if res.ready then codes "reconcile complete" else codes "reconcile in progress";
  observed_generation = generation;
}

unfoldable pub typed_only : List RawCondition → List Condition
typed_only [] = []
typed_only (typed c ∷ cs) = c ∷ typed_only cs
typed_only (malformed ∷ cs) = typed_only cs

unfoldable pub read_conditions : Object → List Condition
read_conditions inst = elim inst.status [
  | none ↦ []
  | some status ↦ elim status.conditions [ none ↦ [] | some raw ↦ typed_only raw ]
]

-- Where the instance has no status, one is made that holds the conditions alone.
unfoldable pub write_conditions : Object → List Condition → Object
write_conditions inst conditions =
    let fields : Text = elim inst.status [ none ↦ [] | some status ↦ status.fields ] in
    record inst {
      status = some (record { conditions = some (map typed conditions); fields = fields });
    }

module _ (set_condition : List Condition → Condition → List Condition) where
  unfoldable pub apply_result_conditions : List Condition → Summary → ℕ → List Condition
  apply_result_conditions conditions res generation =
      set_condition (set_condition conditions (ready_condition res generation))
        (progressing_condition res generation)
