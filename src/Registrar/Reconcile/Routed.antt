-- ===== src/Registrar/Reconcile/Routed.antt =====
-- The targets of a blueprint's resources, from its spec to the engine.
use krop_controller.Base.{
  subst, Text, text_eq, ◌==◌, contains, NoRepeats, not, if◌then◌else◌, ◌≡◌, ◌⊎◌, refl, ap, ◌∙◌,
  false, Option, none, some, List, [], ◌∷◌, ◌++◌, map, All, All-map, All_intro, arith, Bool-cases,
  inl, inr,
}
use krop_controller.Base.Bytes.{codes}
use krop_controller.Base.Dict.{Dict, lookup, insert, lookup-insert}
use krop_controller.Base.Result.{Result, ok, err}
use krop_controller.Api.Blueprint.{KroResource, Resource, BlueprintSpec, split_resources, to_kro}
use krop_controller.Engine.Route.{
  Target, consumer, provider, host, target_text, Routing, parse_target, parse_target_iff,
  target_for_node,
}
use krop_controller.Registrar.Reconcile.{parse_routing}

-- The resources that are not nil.
abbrev pub present : List (Option Resource) → List Resource
present [] = []
present (none ∷ rs) = present rs
present (some r ∷ rs) = r ∷ present rs

abbrev pub id_of : Resource → Text
id_of r = r.kro.id

abbrev routed : Resource → Dict Text Text → Dict Text Text
routed r m = if not (r.target == []) then insert r.kro.id r.target m else m

abbrev routing_of : List Resource → Dict Text Text → Dict Text Text
routing_of [] m = m
routing_of (r ∷ rs) m = routing_of rs (routed r m)

routing-split_resources :
    (rs : List (Option Resource)) (res : List KroResource) (m : Dict Text Text)
    → (split_resources rs res m).1 ≡ routing_of (present rs) m
unfolding split_resources
routing-split_resources [] res m = refl
routing-split_resources (none ∷ rs) res m = routing-split_resources rs res m
routing-split_resources (some r ∷ rs) res m =
    routing-split_resources rs (res ++ (r.kro ∷ [])) (routed r m)

lookup-routed :
    (r : Resource) (m : Dict Text Text) (id : Text)
    → id_of r ≡ id
    → lookup id m ≡ none
    → lookup id (routed r m) ≡ (if r.target == [] then none else some r.target)
lookup-routed r m id e n = ground (arith, lookup-insert r.kro.id id r.target m)

lookup-routed-other :
    (r : Resource) (m : Dict Text Text) (id : Text)
    → (id_of r == id) ≡ false
    → lookup id (routed r m) ≡ lookup id m
lookup-routed-other r m id e = ground (arith, lookup-insert r.kro.id id r.target m)

lookup-routing_of-other :
    (rs : List Resource) (m : Dict Text Text) (id : Text)
    → contains (map id_of rs) id ≡ false
    → lookup id (routing_of rs m) ≡ lookup id m
lookup-routing_of-other [] m id c = refl
lookup-routing_of-other (r ∷ rs) m id c =
    lookup-routing_of-other rs (routed r m) id (ground arith)
    ∙ lookup-routed-other r m id (ground arith)

declared : Resource → Option Text
declared r = if r.target == [] then none else some r.target

lookup-routing_of :
    (rs : List Resource) (m : Dict Text Text)
    → NoRepeats (map id_of rs)
    → All (λ r. lookup (id_of r) m ≡ none) rs
    → All (λ r. lookup (id_of r) (routing_of rs m) ≡ declared r) rs
unfolding declared
lookup-routing_of [] m u n = tt
lookup-routing_of (r ∷ rs) m u n = (
  lookup-routing_of-other rs (routed r m) (id_of r) u.0 ∙ lookup-routed r m (id_of r) refl n.0,
  lookup-routing_of rs (routed r m) u.1 (still_none rs u.0 n.1),
)
  where
    still_none :
        (qs : List Resource)
        → contains (map id_of qs) (id_of r) ≡ false
        → All (λ q. lookup (id_of q) m ≡ none) qs
        → All (λ q. lookup (id_of q) (routed r m) ≡ none) qs
    still_none [] c h = tt
    still_none (q ∷ qs) c h =
        (lookup-routed-other r m (id_of q) (ground arith) ∙ h.0, still_none qs (ground arith) h.1)

-- A text and the target that the map holds for it.
abbrev Parsed : Option Text → Option Target → Type 0
Parsed none t = t ≡ none
Parsed (some raw) t = (u : Target) × (parse_target raw ≡ ok u) × (t ≡ some u)

Parsed-parse_routing :
    (m : Dict Text Text) (routing : Routing) (id : Text)
    → parse_routing m ≡ ok routing
    → Parsed (lookup id m) (lookup id routing)
unfolding parse_routing
Parsed-parse_routing [] routing id e = ground (arith, e)
Parsed-parse_routing ((j, raw) ∷ m) routing id e =
    target (parse_target raw) refl (parse_routing m) refl
      (λ rest q. Parsed-parse_routing m rest id q)
  where
    entry :
        (t : Target) (rest : Routing)
        → parse_target raw ≡ ok t
        → Parsed (lookup id m) (lookup id rest)
        → Parsed (lookup id ((j, raw) ∷ m)) (lookup id ((j, t) ∷ rest))
    entry t rest p h = elim (Bool-cases (j == id)) [
      | inl same ↦ rw same (t, p, refl)
      | inr other ↦ rw other h
    ]

    ok_inj : {a b : Routing} → ok a ≡ ok b → a ≡ b
    ok_inj q = cc

    target :
        (x : Result Target)
        → parse_target raw ≡ x
        → (y : Result Routing) → parse_routing m ≡ y
        → ((rest : Routing) → parse_routing m ≡ ok rest → Parsed (lookup id m) (lookup id rest))
        → Parsed (lookup id ((j, raw) ∷ m)) (lookup id routing)
    target (err f) p y q k = absurd (ground (arith, p, e))
    target (ok t) p (err f) q k = absurd (ground (arith, p, q, e))
    target (ok t) p (ok rest) q k =
        subst (λ (out : Routing). Parsed (lookup id ((j, raw) ∷ m)) (lookup id out))
          (ok_inj (rw (p, parse_routing, q) at e)) (entry t rest p (k rest q))

empty_target : parse_target [] ≡ ok consumer
unfolding parse_target
empty_target = ground arith

-- What a spec writes for a target.
abbrev pub name_of : Target → Text
name_of consumer = codes "consumer"
name_of provider = codes "provider"
name_of host = codes "host"

target_text-name_of : (t : Target) → target_text t ≡ name_of t
target_text-name_of consumer = refl
target_text-name_of provider = refl
target_text-name_of host = refl

-- The engine finds a resource under the target whose name is in its spec, or under the consumer if the
-- spec holds none.
abbrev pub IsRouted : Routing → Resource → Type 0
IsRouted routing r =
    (r.target ≡ name_of (target_for_node (id_of r) routing))
    ⊎ ((r.target ≡ []) × (target_for_node (id_of r) routing ≡ consumer))

parsed-IsRouted :
    (routing : Routing) (r : Resource)
    → parse_target r.target ≡ ok (target_for_node (id_of r) routing)
    → IsRouted routing r
parsed-IsRouted routing r e =
    let t = target_for_node (id_of r) routing in
    elim ((parse_target_iff r.target t).0 e) [
      | inl named ↦ inl (named ∙ target_text-name_of t)
      | inr bare ↦ inr bare
    ]

declared-IsRouted :
    (routing : Routing) (r : Resource)
    → Parsed (declared r) (lookup (id_of r) routing)
    → IsRouted routing r
unfolding declared target_for_node
declared-IsRouted routing r h = parsed-IsRouted routing r (elim (Bool-cases (r.target == [])) [
  | inl unset ↦
      let bare : r.target ≡ [] = ground (arith, unset) in
      let missing : lookup (id_of r) routing ≡ none = rw (unset, declared) at h in
      rw (bare, missing, target_for_node) empty_target
  | inr set ↦
      let (u, p, q) : Parsed (some r.target) (lookup (id_of r) routing) = rw (set, declared) at h in
      rw (q, target_for_node) p
])

-- When the registrar accepts the routing of a blueprint whose resources have ids of their own, the engine
-- routes each resource to the target that its spec names, and to the consumer if it names none.
pub to_kro-IsRouted :
    (s : BlueprintSpec) (routing : Routing)
    → NoRepeats (map id_of (present s.resources))
    → parse_routing (to_kro s).1 ≡ ok routing
    → All (IsRouted routing) (present s.resources)
unfolding to_kro
to_kro-IsRouted s routing distinct accepted =
    All-map (λ r. lookup (id_of r) (routing_of (present s.resources) []) ≡ declared r)
      (IsRouted routing) (present s.resources)
      (λ r h. declared-IsRouted routing r (
        subst (λ (o : Option Text). Parsed o (lookup (id_of r) routing))
          (ap (lookup (id_of r)) (routing-split_resources s.resources [] []) ∙ h)
          (Parsed-parse_routing _ routing (id_of r) accepted)))
      (lookup-routing_of (present s.resources) [] distinct
        (All_intro _ (present s.resources) (λ r. refl)))
