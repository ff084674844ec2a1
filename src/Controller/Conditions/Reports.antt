-- ===== src/Controller/Conditions/Reports.antt =====
-- What the conditions say of a pass.
use krop_controller.Base.{
  ℕ, Text, ◌==◌, text_eq, if◌then◌else◌, ◌≡◌, refl, ap, true, false, Option, none, some, List, [],
  ◌∷◌, map, arith, ◌≢◌,
}
use krop_controller.Base.Bytes.{codes}
use krop_controller.Api.Object.{
  Object, Condition, ConditionStatus, status_true, status_false, typed,
}
use krop_controller.Engine.Loop.{Summary}
use krop_controller.Controller.Conditions.{
  condition_ready, condition_progressing, ready_condition, progressing_condition, typed_only,
  read_conditions, write_conditions, apply_result_conditions,
}

-- `meta.FindStatusCondition`
abbrev pub find_condition : Text → List Condition → Option Condition
find_condition t [] = none
find_condition t (c ∷ cs) = if c.type == t then some c else find_condition t cs

-- A condition that was found, by its type, its status and its generation.
abbrev pub IsReported : Option Condition → Text → ConditionStatus → ℕ → Type 0
IsReported o type status generation =
    (c : Condition) × (o ≡ some c)
    × (c.type ≡ type)
    × (c.status ≡ status)
    × (c.observed_generation ≡ generation)

-- What `meta.SetStatusCondition` is documented to do: the condition of that type is replaced or
-- added, and conditions of other types stay.
pub record IsSetCondition (set_condition : List Condition → Condition → List Condition)
    : Type 0 where
  pub find_set :
      (cs : List Condition) (c : Condition) (t : Text)
      → find_condition t (set_condition cs c)
        ≡ (if c.type == t then some c else find_condition t cs)

typed_only-map : (cs : List Condition) → typed_only (map typed cs) ≡ cs
unfolding typed_only
typed_only-map [] = refl
typed_only-map (c ∷ cs) = ap (λ (ds : List Condition). c ∷ ds) (typed_only-map cs)

module _ (set_condition : List Condition → Condition → List Condition)
    (documented : IsSetCondition set_condition) where
  apart : (condition_progressing == condition_ready) ≡ false
  unfolding text_eq
  apart = refl

  own : (t : Text) → (t == t) ≡ true
  own t = ground arith

  -- The conditions that the instance gets are read back as they were made. Ready is true exactly if
  -- the pass was ready, and false otherwise, and Progressing is the opposite; both are of their own type
  -- and of the instance's generation. Every condition of another type that could be read before is still
  -- there.
  pub find-apply_result_conditions :
      (inst : Object) (res : Summary)
      → let made = read_conditions (
          write_conditions inst
            (apply_result_conditions set_condition (read_conditions inst) res inst.generation)) in
        IsReported
          (find_condition (codes "Ready") made)
          (codes "Ready")
          (if res.ready then status_true else status_false)
          inst.generation
        × IsReported
            (find_condition (codes "Progressing") made)
            (codes "Progressing")
            (if res.ready then status_false else status_true)
            inst.generation
        × ((t : Text)
            → t ≢ condition_ready
            → t ≢ condition_progressing
            → find_condition t made ≡ find_condition t (read_conditions inst))
  unfolding read_conditions write_conditions apply_result_conditions ready_condition
      progressing_condition
  find-apply_result_conditions inst res =
      let before = read_conditions inst in
      let r = ready_condition res inst.generation in
      let p = progressing_condition res inst.generation in
      let step = set_condition before r in
      let found : (t : Text)
          → find_condition t (typed_only (map typed (set_condition step p))) ≡ (
              if p.type == t
              then some p
              else if r.type == t
              then some r
              else find_condition t before) =
        λ t.
          rw
            (
              typed_only-map (set_condition step p),
              documented.find_set step p t,
              documented.find_set before r t,
            )
            refl in
      (
        (r, rw (found condition_ready, apart, own condition_ready) refl, refl, refl, refl),
        (p, rw (found condition_progressing, own condition_progressing) refl, refl, refl, refl),
        λ t n m. rw (found t) (ground arith),
      )
