-- ===== src/Registrar/Claims/AnyOrder.antt =====
-- The claims do not depend on the order of the graph's nodes: "Deterministic order (sorted) so
-- publications are stable".
use mathlib.Core.Logic.{∥∥₁_elim}
use mathlib.Core.Bool.{Bool-set}
use mathlib.Core.List.{Perm, Permᴰ}
use krop_controller.Base.{
  Text, ◌==◌, text_eq, if◌then◌else◌, ◌≡◌, inl, inr, refl, sym, ap, subst, ◌∙◌, Bool, true, false,
  not, ◌&&◌, ◌||◌, Option, none, some, List, [], ◌∷◌, arith, Bool-cases,
}
use krop_controller.Base.Dict.{Dict}
use krop_controller.Api.Object.{Gr, gr_eq}
use krop_controller.Engine.Route.{target_eq, consumer, Routing, target_for_node}
use krop_controller.Engine.Graph.{Node, is_external}
use krop_controller.Registrar.Order.{gr_less, gr_less_irrefl, gr_less_asym, gr_less_trans}
use krop_controller.Registrar.Claims.{PermissionClaim, blueprint_claims}
use krop_controller.Registrar.Claims.Foreign.{needs}
use krop_controller.Registrar.Claims.Merged.{
  first_claim, IsAscending, wanted, IsComplete, blueprint_claims-IsComplete,
}

abbrev key : PermissionClaim → Gr
key c = c.group_resource

some_claim : (c d : PermissionClaim) → some c ≡ some d → c ≡ d
some_claim c d e = cc

-- What stands behind the first claim comes after it.
first_claim-behind :
    (c : PermissionClaim) (cs : List PermissionClaim) (gr : Gr) (d : PermissionClaim)
    → IsAscending (c ∷ cs)
    → first_claim gr cs ≡ some d
    → gr_less (key c) gr ≡ true
first_claim-behind c [] gr d a h = cc
first_claim-behind c (x ∷ xs) gr d a h = elim (Bool-cases (key x == gr)) [
  | inl same ↦ ground (arith, a.0, same)
  | inr other ↦
      gr_less_trans (key c) (key x) gr a.0
        (first_claim-behind x xs gr d a.1 (ground (arith, h, other)))
]

first_claim-itself :
    (c : PermissionClaim) (cs : List PermissionClaim) → first_claim (key c) (c ∷ cs) ≡ some c
first_claim-itself c cs = ground arith

-- Of two ascending lists with the same claims the first ones are equal.
same_head :
    (x y : PermissionClaim) (xs ys : List PermissionClaim)
    → IsAscending (x ∷ xs)
    → IsAscending (y ∷ ys)
    → ((gr : Gr) → first_claim gr (x ∷ xs) ≡ first_claim gr (y ∷ ys))
    → x ≡ y
same_head x y xs ys a b h = elim (Bool-cases (key y == key x)) [
  | inl same ↦ some_claim x y (ground (arith, same, h (key x)))
  | inr other ↦ absurd (
      ground (
        arith,
        gr_less_asym (key x) (key y),
        first_claim-behind y ys (key x) x b (ground (arith, other, h (key x))),
        first_claim-behind x xs (key y) y a (ground (arith, other, h (key y))),
      ))
]

-- No claim behind the first one is for its resource.
first_claim-absent :
    (x : PermissionClaim) (xs : List PermissionClaim) (gr : Gr)
    → IsAscending (x ∷ xs)
    → key x ≡ gr
    → first_claim gr xs ≡ none
first_claim-absent x xs gr a same = go (first_claim gr xs) refl
  where
    go : (o : Option PermissionClaim) → first_claim gr xs ≡ o → first_claim gr xs ≡ none
    go none e = e
    go (some d) e =
        absurd (ground (arith, same, first_claim-behind x xs gr d a e, gr_less_irrefl (key x)))

same_tail :
    (x : PermissionClaim) (xs ys : List PermissionClaim)
    → IsAscending (x ∷ xs)
    → IsAscending (x ∷ ys)
    → ((gr : Gr) → first_claim gr (x ∷ xs) ≡ first_claim gr (x ∷ ys))
    → (gr : Gr) → first_claim gr xs ≡ first_claim gr ys
same_tail x xs ys a b h gr = elim (Bool-cases (key x == gr)) [
  | inr other ↦ ground (arith, other, h gr)
  | inl same ↦
      first_claim-absent x xs gr a (ground (arith, same))
      ∙ sym (first_claim-absent x ys gr b (ground (arith, same)))
]

tail-IsAscending :
    (x : PermissionClaim) (xs : List PermissionClaim) → IsAscending (x ∷ xs) → IsAscending xs
tail-IsAscending x [] a = tt
tail-IsAscending x (y ∷ ys) a = a.1

IsAscending-unique :
    (xs ys : List PermissionClaim)
    → IsAscending xs
    → IsAscending ys
    → ((gr : Gr) → first_claim gr xs ≡ first_claim gr ys)
    → xs ≡ ys
IsAscending-unique [] [] a b h = refl
IsAscending-unique [] (y ∷ ys) a b h = cc (h (key y), first_claim-itself y ys)
IsAscending-unique (x ∷ xs) [] a b h = cc (h (key x), first_claim-itself x xs)
IsAscending-unique (x ∷ xs) (y ∷ ys) a b h =
    let head = same_head x y xs ys a b h in
    let b' = subst (λ (c : PermissionClaim). IsAscending (c ∷ ys)) (sym head) b in
    let h' : (gr : Gr) → first_claim gr (x ∷ xs) ≡ first_claim gr (x ∷ ys) =
      λ gr. h gr ∙ ap (λ (c : PermissionClaim). first_claim gr (c ∷ ys)) (sym head) in
    ap (λ (c : PermissionClaim). c ∷ xs) head
    ∙ ap (λ (cs : List PermissionClaim). y ∷ cs)
        (IsAscending-unique xs ys (tail-IsAscending x xs a) (tail-IsAscending y ys b)
          (same_tail x xs ys a b' h'))

or_swap : (a b c : Bool) → (a || (b || c)) ≡ (b || (a || c))
or_swap a b c = ground arith

module _ (instance_gr : Gr) (routing : Routing) (identity : Dict Gr Text) where
  IsComplete-unique :
      (nodes nodes' : List Node) (m m' : Option (List PermissionClaim))
      → ((gr : Gr)
          → wanted nodes instance_gr routing identity gr
            ≡ wanted nodes' instance_gr routing identity gr)
      → IsComplete nodes instance_gr routing identity m
      → IsComplete nodes' instance_gr routing identity m'
      → m ≡ m'
  IsComplete-unique nodes nodes' none none w a b = refl
  IsComplete-unique nodes nodes' none (some ys) w a b =
      let (gr, needed) = b.0 in absurd (needed (sym (w gr) ∙ a gr))
  IsComplete-unique nodes nodes' (some xs) none w a b =
      let (gr, needed) = a.0 in absurd (needed (w gr ∙ b gr))
  IsComplete-unique nodes nodes' (some xs) (some ys) w a b =
      ap some (IsAscending-unique xs ys a.1 b.1 (λ gr. a.2 gr ∙ w gr ∙ sym (b.2 gr)))

  -- One node's part in `needs`
  abbrev asks : Bool → Gr → Node → Bool
  asks ext gr n =
      target_for_node n.id routing == consumer
      && (not (n.gr == instance_gr)
          && ((if is_external n.type then ext else not ext) && n.gr == gr))

  needs-Permᴰ :
      {nodes nodes' : List Node} (ext : Bool) (gr : Gr)
      → Permᴰ nodes nodes'
      → needs ext instance_gr routing nodes gr ≡ needs ext instance_gr routing nodes' gr
  needs-Permᴰ ext gr Permᴰ.nil = refl
  needs-Permᴰ ext gr (Permᴰ.cons {b = b} {l₁ = l₁} e p) =
      ap (λ (n : Node). asks ext gr n || needs ext instance_gr routing l₁ gr) e
      ∙ ap (λ (x : Bool). asks ext gr b || x) (needs-Permᴰ ext gr p)
  needs-Permᴰ ext gr (Permᴰ.swap {b = b} {a' = a'} {b' = b'} {l = l} e e') =
      let rest = needs ext instance_gr routing l gr in
      ap (λ (n : Node). asks ext gr n || (asks ext gr b || rest)) e
      ∙ ap (λ (n : Node). asks ext gr b' || (asks ext gr n || rest)) e'
      ∙ or_swap (asks ext gr b') (asks ext gr a') rest
  needs-Permᴰ ext gr (Permᴰ.trans p q) = needs-Permᴰ ext gr p ∙ needs-Permᴰ ext gr q

  needs-Perm :
      (nodes nodes' : List Node) (ext : Bool) (gr : Gr)
      → Perm nodes nodes'
      → needs ext instance_gr routing nodes gr ≡ needs ext instance_gr routing nodes' gr
  needs-Perm nodes nodes' ext gr p = ∥∥₁_elim p (Bool-set _ _) (needs-Permᴰ ext gr)

  -- In whatever order a graph lists its nodes, the registrar derives the same claims in the same order,
  -- with the same verbs and the same identities.
  pub blueprint_claims-Perm :
      (nodes nodes' : List Node)
      → Perm nodes nodes'
      → blueprint_claims nodes instance_gr routing identity
        ≡ blueprint_claims nodes' instance_gr routing identity
  blueprint_claims-Perm nodes nodes' p =
      IsComplete-unique nodes nodes' _ _ same
        (blueprint_claims-IsComplete nodes instance_gr routing identity)
        (blueprint_claims-IsComplete nodes' instance_gr routing identity)
    where
      same :
          (gr : Gr)
          → wanted nodes instance_gr routing identity gr
            ≡ wanted nodes' instance_gr routing identity gr
      same gr = rw (needs-Perm nodes nodes' false gr p, needs-Perm nodes nodes' true gr p) refl
