-- ===== src/Tests/Memory.antt =====
-- Clusters held in memory, one for each target.
use krop_controller.Base.{
  ◌==◌, text_eq, contains, if◌then◌else◌, ◌≡◌, sym, Option, none, some, List, [], ◌∷◌, map, arith,
  inl, inr, All, false, ◌&&◌, Bool-cases, refl, subst,
}
use krop_controller.Base.Result.{not_found, Result, ok, err, Prog}
use krop_controller.Api.Object.{Gvk, gvk_eq, Object, ChildId, child_id_eq, child_id}
use krop_controller.Api.Client.{Client}
use krop_controller.Api.Clusters.{
  object_id, unversioned, served, is_deleting, no_finalizers, IsHeld, item_gvk, select, settle,
  object_at, IsCluster, IsSeparate, IsStore, SameRecord,
}
use krop_controller.Engine.Route.{Target, target_eq}

abbrev pub World : Type 0
World = Target → List Object

abbrev pub held : Target → World → List Object
held t w = w t

abbrev pub with_objects : Target → List Object → World → World
with_objects t os w u = if u == t then os else w u

abbrev without : ChildId → List Object → List Object
without id [] = []
without id (x ∷ xs) = let rest = without id xs in if object_id x == id then rest else x ∷ rest

-- An object in the place of the one with its identity, or behind all others.
abbrev pub replaced : Object → List Object → List Object
replaced o [] = o ∷ []
replaced o (x ∷ xs) =
    if object_id x == object_id o then o ∷ without (object_id o) xs else x ∷ replaced o xs

abbrev put : Target → Object → Prog World (Unit {0})
put t o w = (ok tt, with_objects t (replaced o (w t)) w)

-- In the version that is asked for. What nothing keeps any more is not found.
abbrev found : Gvk → Option Object → Result Object
found g none = err not_found
found g (some o) = if is_deleting o && no_finalizers o then err not_found else ok (served g o)

unfoldable pub memory_client : Target → Client World
memory_client t = record {
  get = λ g ns name w. found g (object_at (record { gvk = g; namespace = ns; name = name }) (w t));
  list = λ g ns sel w. ok (map (served (item_gvk g)) (select (item_gvk g) ns sel (w t)));
  create = put t;
  update = put t;
  update_status = put t;
  apply = put t;
  delete = λ o w. (
    if contains (map object_id (w t)) (object_id o) then ok tt else err not_found,
    with_objects t (settle 9 (object_id o) (w t)) w,
  );
}

ok_inj : {A : Type 0} (a b : A) → ok a ≡ ok b → a ≡ b
ok_inj a b e = cc

pub memory-IsCluster : (t : Target) → IsCluster held t (memory_client t)
unfolding memory_client
memory-IsCluster t = record {
  list_ok = λ g ns sel w items e. sym (ok_inj _ _ e);
  delete_here = λ o w h. (9, ground arith);
  delete_anywhere = λ o w u. elim (target_eq.dec u t) [
    | yes same ↦ inr (9, ground arith)
    | no other ↦ inl (ground arith)
  ];
}

pub memory-IsSeparate : (t : Target) → IsSeparate held t (memory_client t)
unfolding memory_client
memory-IsSeparate t = record { delete_elsewhere = λ o w u n. ground arith }

pub All-without :
    (P : Object → Type 0) (id : ChildId) (xs : List Object) → All P xs → All P (without id xs)
All-without P id [] h = tt
All-without P id (x ∷ xs) h = elim (Bool-cases (object_id x == id)) [
  | inl same ↦ rw same (All-without P id xs h.1)
  | inr other ↦ rw other (h.0, All-without P id xs h.1)
]

without-SameRecord : (o : Object) (xs : List Object) → All (SameRecord o) (without (object_id o) xs)
without-SameRecord o [] = tt
without-SameRecord o (x ∷ xs) = elim (Bool-cases (object_id x == object_id o)) [
  | inl same ↦ rw same (without-SameRecord o xs)
  | inr other ↦ rw other ((λ e. absurd (ground arith)), without-SameRecord o xs)
]

replaced-SameRecord : (o : Object) (xs : List Object) → All (SameRecord o) (replaced o xs)
replaced-SameRecord o [] = ((λ e. (refl, refl)), tt)
replaced-SameRecord o (x ∷ xs) = elim (Bool-cases (object_id x == object_id o)) [
  | inl same ↦ rw same ((λ e. (refl, refl)), without-SameRecord o xs)
  | inr other ↦ rw other ((λ e. absurd (ground arith)), replaced-SameRecord o xs)
]

pub object_id-object_at :
    (id : ChildId) (os : List Object) (o : Object)
    → object_at id os ≡ some o
    → object_id o ≡ unversioned id
unfolding object_at
object_id-object_at id [] o e = cc
object_id-object_at id (x ∷ xs) o e = ground (arith, object_id-object_at id xs o)

object_id-found :
    (g : Gvk) (id : ChildId) (os : List Object) (o : Object)
    → found g (object_at id os) ≡ ok o
    → (object_id o ≡ unversioned id) × ((is_deleting o && no_finalizers o) ≡ false)
object_id-found g id os o = go (object_at id os) refl
  where
    go :
        (x : Option Object)
        → object_at id os ≡ x
        → found g x ≡ ok o
        → (object_id o ≡ unversioned id) × ((is_deleting o && no_finalizers o) ≡ false)
    go none q e = cc
    go (some x) q e = elim (Bool-cases (is_deleting x && no_finalizers x)) [
      | inl dropped ↦ absurd (ground (arith, dropped, e))
      | inr kept ↦
          let same : served g x ≡ o = ok_inj (served g x) o (rw kept at e) in
          subst
            (λ (y : Object).
              (object_id y ≡ unversioned id) × ((is_deleting y && no_finalizers y) ≡ false))
            same (object_id-object_at id os x q, kept)
    ]

replaced-IsHeld : (o : Object) (xs : List Object) → IsHeld (child_id o) (replaced o xs)
unfolding object_at
replaced-IsHeld o [] = (o, ground arith)
replaced-IsHeld o (x ∷ xs) = elim (Bool-cases (object_id x == object_id o)) [
  | inl same ↦ rw same (o, ground arith)
  | inr other ↦ let (y, q) = replaced-IsHeld o xs in rw other (y, ground (arith, other, q))
]

with_objects_here : (t : Target) (os : List Object) (w : World) → with_objects t os w t ≡ os
with_objects_here t os w = ground arith

stored :
    (t : Target) (o : Object) (w : World)
    → All (SameRecord o) (with_objects t (replaced o (w t)) w t)
      × IsHeld (child_id o) (with_objects t (replaced o (w t)) w t)
stored t o w =
    subst (λ (os : List Object). All (SameRecord o) os × IsHeld (child_id o) os)
      (sym (with_objects_here t (replaced o (w t)) w))
      (replaced-SameRecord o (w t), replaced-IsHeld o (w t))

pub memory-IsStore : (t : Target) → IsStore held t (memory_client t)
unfolding memory_client
memory-IsStore t = record {
  created = λ o w h. stored t o w;
  updated = λ o w h kept. stored t o w;
  got = λ g ns n w o h. object_id-found g (record { gvk = g; namespace = ns; name = n }) (w t) o h;
}
