-- ===== src/Api/Clusters.antt =====
-- What the API servers are assumed to do with lists and deletions: the documented behaviour of
-- Kubernetes and of the controller-runtime client, over the objects that each cluster holds.
use krop_controller.Base.{
  ℕ, Text, ◌==◌, text_eq, if◌then◌else◌, ◌≡◌, ◌≢◌, ◌⊎◌, Bool, true, false, ◌&&◌, ◌||◌, Option, none,
  some, List, [], ◌∷◌, All, map,
}
use krop_controller.Base.Bytes.{codes, trim_suffix}
use krop_controller.Base.Result.{is_not_found, Result, ok, err}
use krop_controller.Api.Object.{Gvk, gvk_eq, Object, ChildId, child_id_eq, child_id}
use krop_controller.Api.Client.{Client, Selector}
use krop_controller.Engine.Route.{Target}

-- The client takes "List" off the kind that it is given.
unfoldable pub item_gvk : Gvk → Gvk
unfolding trim_suffix
item_gvk g = record g { kind = trim_suffix (codes "List") g.kind }

-- A cluster holds an object once, whatever the versions of its kind.
abbrev pub unversioned : ChildId → ChildId
unversioned id = record id { gvk = record id.gvk { version = [] } }

abbrev pub object_id : Object → ChildId
object_id o = unversioned (child_id o)

-- It is returned in the version that is asked for. What a conversion changes in an object's body is left
-- aside.
abbrev pub served : Gvk → Object → Object
served g o = record o { gvk = record o.gvk { version = g.version } }

-- The object is of the kind, in whatever version.
abbrev pub IsOf : Gvk → Object → Type 0
IsOf g o = (o.gvk.group ≡ g.group) × (o.gvk.kind ≡ g.kind)

abbrev pub matches : Gvk → Text → Selector → Object → Bool
matches g namespace sel o =
    (o.gvk.group == g.group && o.gvk.kind == g.kind)
    && ((namespace == [] || o.namespace == namespace) && sel o.labels)

abbrev pub select : Gvk → Text → Selector → List Object → List Object
select g namespace sel [] = []
select g namespace sel (o ∷ os) =
    let rest = select g namespace sel os in if matches g namespace sel o then o ∷ rest else rest

abbrev pub is_deleting : Object → Bool
is_deleting o = elim o.deletion_timestamp [ none ↦ false | some _ ↦ true ]

abbrev pub marked : ℕ → Object → Object
marked now o = record o {
  deletion_timestamp = elim o.deletion_timestamp [ none ↦ some now | some t ↦ some t ];
}

abbrev pub no_finalizers : Object → Bool
no_finalizers o = elim o.finalizers [ [] ↦ true | _ ∷ _ ↦ false ]

-- A deletion removes an object that has no finalizers, and marks one that has.
abbrev pub settle : ℕ → ChildId → List Object → List Object
settle now id [] = []
settle now id (o ∷ os) =
    let rest = settle now id os in
    if object_id o == id then (if no_finalizers o then rest else marked now o ∷ rest) else o ∷ rest

-- An error that the callers ignore: the object was gone already.
abbrev pub accepted : Result (Unit {0}) → Bool
accepted (ok _) = true
accepted (err e) = is_not_found e

module _ {W : Type 0} (objects : Target → W → List Object) where
  -- `c` is a client of the cluster of target `t`. Two targets may share a cluster.
  pub record IsCluster (t : Target) (c : Client W) : Type 0 where
    pub list_ok :
        (g : Gvk) (namespace : Text) (sel : Selector) (w : W) (items : List Object)
        → c.list g namespace sel w ≡ ok items
        → items ≡ map (served (item_gvk g)) (select (item_gvk g) namespace sel (objects t w))
    pub delete_here :
        (o : Object) (w : W)
        → accepted (c.delete o w).0 ≡ true
        → (now : ℕ) × (objects t (c.delete o w).1 ≡ settle now (object_id o) (objects t w))
    pub delete_anywhere :
        (o : Object) (w : W) (u : Target)
        → (objects u (c.delete o w).1 ≡ objects u w)
          ⊎ ((now : ℕ) × (objects u (c.delete o w).1 ≡ settle now (object_id o) (objects u w)))

  -- The cluster is not that of another target.
  pub record IsSeparate (t : Target) (c : Client W) : Type 0 where
    pub delete_elsewhere :
        (o : Object) (w : W) (u : Target) → u ≢ t → objects u (c.delete o w).1 ≡ objects u w

-- The object that a cluster holds under an identity, in whatever version it is asked for.
unfoldable pub object_at : ChildId → List Object → Option Object
object_at id [] = none
object_at id (o ∷ os) = if object_id o == unversioned id then some o else object_at id os

abbrev pub SameRecord : Object → Object → Type 0
SameRecord o x = object_id x ≡ object_id o → (x.labels ≡ o.labels) × (x.config ≡ o.config)

abbrev pub IsHeld : ChildId → List Object → Type 0
IsHeld id os = (o : Object) × (object_at id os ≡ some o)

-- What writes and reads of single objects are assumed to do, as the API servers document: an accepted
-- write stores the labels and the data that it carries, and an object is got under the key asked for. An
-- object that is marked for deletion is held for as long as it has finalizers.
module _ {W : Type 0} (objects : Target → W → List Object) where
  pub record IsStore (t : Target) (c : Client W) : Type 0 where
    pub created :
        (o : Object) (w : W)
        → (c.create o w).0 ≡ ok tt
        → All (SameRecord o) (objects t (c.create o w).1)
          × IsHeld (child_id o) (objects t (c.create o w).1)
    pub updated :
        (o : Object) (w : W)
        → (c.update o w).0 ≡ ok tt
        → (is_deleting o && no_finalizers o) ≡ false
        → All (SameRecord o) (objects t (c.update o w).1)
          × IsHeld (child_id o) (objects t (c.update o w).1)
    pub got :
        (g : Gvk) (namespace name : Text) (w : W) (o : Object)
        → c.get g namespace name w ≡ ok o
        → (object_id o ≡ unversioned (record { gvk = g; namespace = namespace; name = name }))
          × ((is_deleting o && no_finalizers o) ≡ false)
