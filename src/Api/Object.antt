-- ===== src/Api/Object.antt =====
-- Kubernetes objects, as the source reads and writes them through `unstructured.Unstructured`.
use krop_controller.Base.{ℕ, Text, Option, List, Eq, text_eq}
use krop_controller.Base.Dict.{Dict}
use native.Mathlib.Decide.{ℕ_discrete}

-- `schema.GroupVersionKind`
pub record Gvk : Type 0 where
  pub group : Text
  pub version : Text
  pub kind : Text

-- `schema.GroupResource`
pub record Gr : Type 0 where
  pub group : Text
  pub resource : Text

-- `metav1.OwnerReference`, by the fields that the source sets.
pub record OwnerRef : Type 0 where
  pub api_version : Text
  pub kind : Text
  pub name : Text
  pub uid : Text

-- `metav1.ConditionStatus`
pub data ConditionStatus : Type 0 where
  status_true status_false status_unknown : ConditionStatus

-- `metav1.Condition`
pub record Condition : Type 0 where
  pub type : Text
  pub status : ConditionStatus
  pub reason : Text
  pub message : Text
  pub observed_generation : ℕ

-- An entry of `status.conditions`: one that converts to a condition, or another.
pub data RawCondition : Type 0 where
  typed : Condition → RawCondition
  malformed : RawCondition

-- `conditions` is `none` where the field is missing or is no list.
pub record Status : Type 0 where
  pub conditions : Option (List RawCondition)
  pub fields : Text

-- `body` is what the source never looks into: the rest of an object's JSON.
pub record Object : Type 0 where
  pub gvk : Gvk
  pub namespace : Text
  pub name : Text
  pub uid : Text
  pub generation : ℕ
  pub labels : Dict Text Text
  pub annotations : Dict Text Text
  pub finalizers : List Text
  pub owner_refs : List OwnerRef
  pub deletion_timestamp : Option ℕ
  -- the entries of a ConfigMap's `data`
  pub config : Dict Text Text
  -- `metadata.selector` of an external collection's template
  pub selector : Option Text
  pub status : Option Status
  pub body : Text

Gvk-discrete : Discrete Gvk
Gvk-discrete = hlevel ℕ_discrete

instance unfoldable pub gvk_eq : Eq Gvk
unfolding Gvk-discrete ℕ_discrete
gvk_eq = record { dec = Gvk-discrete }

Gr-discrete : Discrete Gr
Gr-discrete = hlevel ℕ_discrete

instance unfoldable pub gr_eq : Eq Gr
unfolding Gr-discrete ℕ_discrete
gr_eq = record { dec = Gr-discrete }

-- `engine.ChildID`: what tells one object of a cluster from another.
pub record ChildId : Type 0 where
  pub gvk : Gvk
  pub namespace : Text
  pub name : Text

ChildId-discrete : Discrete ChildId
ChildId-discrete = hlevel ℕ_discrete

instance unfoldable pub child_id_eq : Eq ChildId
unfolding ChildId-discrete ℕ_discrete
child_id_eq = record { dec = ChildId-discrete }

abbrev pub child_id : Object → ChildId
child_id o = record { gvk = o.gvk; namespace = o.namespace; name = o.name }
