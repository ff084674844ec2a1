-- ===== src/Controller/Deletion.antt =====
-- Deleting what a list call returned, the loop that garbage collection, prune and sweep share.
use krop_controller.Base.{
  ℕ, Text, ◌==◌, text_eq, if◌then◌else◌, ◌≡◌, refl, sym, ap, ◌∙◌, subst, inl, inr, Bool, true,
  false, List, [], ◌∷◌, map, contains, All, All-map, All-map2, All_intro, All_transpose, arith,
  Bool-cases,
}
use krop_controller.Base.Result.{
  Result, ok, err, Prog, pure, reads, context, context_of, ignored, ignore_not_found, for_each,
  ◌>>=◌,
}
use krop_controller.Base.Stable.{Stable, bind-Stable, for_each-Stable, bind-ok, for_each-All}
use krop_controller.Api.Object.{Gvk, gvk_eq, Object, ChildId, child_id_eq}
use krop_controller.Api.Client.{Client, Selector}
use krop_controller.Api.Clusters.{
  IsOf, object_id, served, item_gvk, matches, select, is_deleting, marked, settle, accepted,
  IsCluster,
}
use krop_controller.Engine.Route.{Target}

module _ {W : Type 0} where
  unfoldable pub delete_one :
      Client W → (Object → Bool) → (Object → Text) → Object → Prog W (Unit {0})
  delete_one c keep deleting o =
      if keep o then pure tt else context (deleting o) (ignore_not_found (c.delete o))

  -- Lists the objects of a kind and deletes those that are not kept.
  abbrev pub reclaim_kind :
      Client W → Gvk → Selector → (Object → Bool) → Text → (Object → Text) → Prog W (Unit {0})
  reclaim_kind c g sel keep listing deleting = do
    items ← context listing (reads (c.list g [] sel))
    for_each items (delete_one c keep deleting)

pub accepted_of_ok :
    (t : Text) (r : Result (Unit {0})) → context_of t (ignored r) ≡ ok tt → accepted r ≡ true
accepted_of_ok t (ok u) e = refl
accepted_of_ok t (err x) e = ground arith

pub context_of_ok :
    {A : Type 0} (t : Text) (r : Result A) {a : A} → context_of t r ≡ ok a → r ≡ ok a
context_of_ok t (ok a) e = e
context_of_ok t (err x) e = cc

module _ {A : Type 0} where
  All-if :
      (P : A → Type 0) (b : Bool) (xs ys : List A)
      → All P xs
      → All P ys
      → All P (if b then xs else ys)
  All-if P true xs ys hx hy = hx
  All-if P false xs ys hx hy = hy

-- A property that a deletion mark cannot spoil survives deletions.
All-settle :
    (P : Object → Type 0)
    → ((now : ℕ) (o : Object) → P o → P (marked now o))
    → (now : ℕ) (id : ChildId) (os : List Object) → All P os
    → All P (settle now id os)
All-settle P k now id [] h = tt
All-settle P k now id (o ∷ os) h =
    let rest : All P (settle now id os) = All-settle P k now id os h.1 in
    All-if P (object_id o == id) _ _
      (All-if P _ (settle now id os) (marked now o ∷ settle now id os) rest (k now o h.0, rest))
      (h.0, rest)

-- What carries the id is marked when its deletion has been accepted.
pub settle-marks :
    (now : ℕ) (id : ChildId) (os : List Object)
    → All (λ o. object_id o ≡ id → is_deleting o ≡ true) (settle now id os)
settle-marks now id [] = tt
settle-marks now id (o ∷ os) = elim (Bool-cases (object_id o == id)) [
  | inl same ↦ rw same (
      All-if _ _ (settle now id os) (marked now o ∷ settle now id os) (settle-marks now id os)
        ((λ e. ground arith), settle-marks now id os))
  | inr other ↦ rw other ((λ e. ground arith), settle-marks now id os)
]

module _ (g : Gvk) (namespace : Text) (sel : Selector) where
  abbrev listed : List Object → List Object
  listed os = map (served g) (select g namespace sel os)

  abbrev Covers : List ChildId → Object → Type 0
  Covers ids o = matches g namespace sel o ≡ true → contains ids (object_id o) ≡ true

  select-Covers : (os : List Object) → All (Covers (map object_id (listed os))) os
  select-Covers [] = tt
  select-Covers (o ∷ os) = (
    (λ hit. ground arith),
    All-map (Covers (map object_id (listed os))) (Covers (map object_id (listed (o ∷ os)))) os
        (λ x h m. ground (arith, h m)) (select-Covers os),
  )

at_member :
    (P : Object → Type 0) (id : ChildId) (items : List Object)
    → contains (map object_id items) id ≡ true
    → All P items
    → (o : Object) × (object_id o ≡ id) × P o
at_member P id [] c h = cc
at_member P id (o ∷ items) c h = elim (child_id_eq.dec (object_id o) id) [
  | yes e ↦ (o, e, h.0)
  | no n ↦ at_member P id items (ground arith) h.1
]

-- What a reclaimed kind looks like: every object of it, in whatever version, that the selector matches
-- and that is not kept is gone, or waits for its finalizers.
module _ {W : Type 0} (objects : Target → W → List Object) where
  abbrev pub IsReclaimed : Target → Gvk → Selector → (Object → Bool) → W → Type 0
  IsReclaimed t g sel keep w =
      All (λ o. IsOf g o → sel o.labels ≡ true → keep o ≡ false → is_deleting o ≡ true)
        (objects t w)

  module _ (t : Target) (c : Client W) (h : IsCluster objects t c) where
    -- A deletion keeps what deletion marks cannot spoil, in every cluster.
    pub delete-Stable :
        (u : Target) (P : Object → Type 0)
        → ((now : ℕ) (o : Object) → P o → P (marked now o))
        → (o : Object) → Stable (λ w. All P (objects u w)) (c.delete o)
    delete-Stable u P k o w p = elim (h.delete_anywhere o w u) [
      | inl same ↦ subst (λ (os : List Object). All P os) (sym same) p
      | inr (now, e) ↦
          subst (λ (os : List Object). All P os) (sym e) (All-settle P k now (object_id o) _ p)
    ]

    delete_one-Stable :
        (keep : Object → Bool) (deleting : Object → Text) (u : Target) (P : Object → Type 0)
        → ((now : ℕ) (o : Object) → P o → P (marked now o))
        → (o : Object) → Stable (λ w. All P (objects u w)) (delete_one c keep deleting o)
    unfolding delete_one
    delete_one-Stable keep deleting u P k o w p = elim (Bool-cases (keep o)) [
      | inl kept ↦ rw kept p
      | inr dropped ↦ rw dropped (delete-Stable u P k o w p)
    ]

    pub reclaim_kind-Stable :
        (u : Target) (P : Object → Type 0)
        → ((now : ℕ) (o : Object) → P o → P (marked now o))
        → (g : Gvk) (sel : Selector) (keep : Object → Bool) (listing : Text)
          (deleting : Object → Text)
        → Stable (λ w. All P (objects u w)) (reclaim_kind c g sel keep listing deleting)
    reclaim_kind-Stable u P k g sel keep listing deleting =
        bind-Stable (λ w. All P (objects u w)) (context listing (reads (c.list g [] sel)))
          (λ items. for_each items (delete_one c keep deleting)) (λ w p. p)
          (λ items.
            for_each-Stable (λ w. All P (objects u w)) (delete_one c keep deleting) items
              (delete_one-Stable keep deleting u P k))

    abbrev IsMarked : (Object → Bool) → Object → Object → Type 0
    IsMarked keep x o = keep x ≡ false → object_id o ≡ object_id x → is_deleting o ≡ true

    delete_one-IsMarked :
        (keep : Object → Bool) (deleting : Object → Text) (x : Object) (w : W)
        → (delete_one c keep deleting x w).0 ≡ ok tt
        → All (IsMarked keep x) (objects t (delete_one c keep deleting x w).1)
    unfolding delete_one
    delete_one-IsMarked keep deleting x w e = elim (Bool-cases (keep x)) [
      | inl kept ↦ All_intro (IsMarked keep x) _ (λ o n _. cc (kept, n))
      | inr dropped ↦
          let (now, q) =
            h.delete_here x w (accepted_of_ok (deleting x) (c.delete x w).0 (rw dropped at e)) in
          rw dropped (
            All-map (λ o. object_id o ≡ object_id x → is_deleting o ≡ true) (IsMarked keep x) _
              (λ o m _. m)
              (subst
                (λ (os : List Object).
                  All (λ o. object_id o ≡ object_id x → is_deleting o ≡ true) os)
                (sym q) (settle-marks now (object_id x) (objects t w))))
    ]

    abbrev IsListed : Gvk → Selector → List ChildId → Object → Type 0
    IsListed g sel ids o = is_deleting o ≡ false → Covers g [] sel ids o

    reclaim_items :
        (g : Gvk) (sel : Selector) (keep : Object → Bool) (deleting : Object → Text)
        (items : List Object) (w : W)
        → ((x o : Object) → object_id x ≡ object_id o → keep x ≡ keep o)
        → All (Covers g [] sel (map object_id items)) (objects t w)
        → (for_each items (delete_one c keep deleting) w).0 ≡ ok tt
        → IsReclaimed t g sel keep (for_each items (delete_one c keep deleting) w).1
    reclaim_items g sel keep deleting items w by_id listed done =
        All-map2 (λ o. All (λ x. IsMarked keep x o) items) (IsListed g sel (map object_id items)) _
          _
          (λ o hits covered eg es ek. elim (Bool-cases (is_deleting o)) [
            | inl gone ↦ gone
            | inr alive ↦
                let (x, ex, px) =
                  at_member (λ x. IsMarked keep x o) (object_id o) items
                    (covered alive (ground (arith, eg.0, eg.1))) hits in
                px (by_id x o ex ∙ ek) (sym ex)
          ])
          (All_transpose (IsMarked keep) items _ (
            for_each-All (λ x v. All (IsMarked keep x) (objects t v)) (delete_one c keep deleting)
              (delete_one-IsMarked keep deleting)
              (λ x y.
                delete_one-Stable keep deleting t (IsMarked keep y)
                  (λ now o m k e. ground (arith, m k e)) x)
              items w done))
          (for_each-Stable (λ v. All (IsListed g sel (map object_id items)) (objects t v))
            (delete_one c keep deleting) items
            (delete_one-Stable keep deleting t (IsListed g sel (map object_id items))
              (λ now o m k. ground (arith, m)))
            w
            (All-map (Covers g [] sel (map object_id items)) (IsListed g sel (map object_id items))
              _ (λ o m _. m) listed))

    pub reclaim_kind-IsReclaimed :
        (g : Gvk) (sel : Selector) (keep : Object → Bool) (listing : Text)
        (deleting : Object → Text) (w : W)
        → ((x o : Object) → object_id x ≡ object_id o → keep x ≡ keep o)
        → (reclaim_kind c g sel keep listing deleting w).0 ≡ ok tt
        → IsReclaimed t (item_gvk g) sel keep (reclaim_kind c g sel keep listing deleting w).1
    reclaim_kind-IsReclaimed g sel keep listing deleting w by_id done =
        let (items, e, q) =
          bind-ok (context listing (reads (c.list g [] sel)))
            (λ items. for_each items (delete_one c keep deleting)) w done in
        subst (λ (r : Result (Unit {0}) × W). IsReclaimed t (item_gvk g) sel keep r.1) (sym q)
          (reclaim_items (item_gvk g) sel keep deleting items w by_id
            (rw (h.list_ok g [] sel w items (context_of_ok listing _ e))
              (select-Covers (item_gvk g) [] sel (objects t w)))
            (ap (λ (r : Result (Unit {0}) × W). r.0) (sym q) ∙ done))
