-- ===== src/Registrar/Claims/Merged.antt =====
-- What `mergeClaims` and `validateClaims` make of the claims.
use krop_controller.Base.{
  Text, ◌==◌, text_eq, contains, if◌then◌else◌, ◌≡◌, ◌≢◌, ◌↔◌, refl, sym, ap, ◌∙◌, true, false, not,
  ◌&&◌, ◌||◌, Option, none, some, List, [], ◌∷◌, ◌++◌, All, arith, inl, inr, Bool-cases,
}
use krop_controller.Base.Dict.{Dict, get_or}
use krop_controller.Base.Result.{ok}
use krop_controller.Api.Object.{Gr, gr_eq}
use krop_controller.Engine.Route.{Routing}
use krop_controller.Engine.Graph.{Node}
use krop_controller.Registrar.Order.{
  gr_less, insert_sorted, sort_stable, gr_less_irrefl, gr_less_total, IsSorted,
  sort_stable-IsSorted,
}
use krop_controller.Registrar.Claims.{
  PermissionClaim, claim_verbs, read_only_verbs, to_claims, derive_claims, collapse, concat_claims,
  merge_sorted, merge_claims, validate_claims, foreign_consumer_grs, blueprint_claims,
}
use krop_controller.Registrar.Claims.Foreign.{needs, foreign_consumer_grs_exact}

abbrev key : PermissionClaim → Gr
key c = c.group_resource

abbrev pub first_claim : Gr → List PermissionClaim → Option PermissionClaim
first_claim gr [] = none
first_claim gr (c ∷ cs) = if key c == gr then some c else first_claim gr cs

first_claim-insert_sorted :
    (gr : Gr) (c : PermissionClaim) (cs : List PermissionClaim)
    → first_claim gr (insert_sorted key c cs) ≡ first_claim gr (c ∷ cs)
unfolding insert_sorted
first_claim-insert_sorted gr c [] = refl
first_claim-insert_sorted gr c (x ∷ xs) =
    ground (arith, first_claim-insert_sorted gr c xs, gr_less_irrefl (key x))

first_claim-sort_stable :
    (gr : Gr) (cs : List PermissionClaim) → first_claim gr (sort_stable key cs) ≡ first_claim gr cs
unfolding sort_stable
first_claim-sort_stable gr [] = refl
first_claim-sort_stable gr (c ∷ cs) =
    ground
      (arith, first_claim-insert_sorted gr c (sort_stable key cs), first_claim-sort_stable gr cs)

first_claim-collapse :
    (gr : Gr) (last : PermissionClaim) (cs : List PermissionClaim)
    → first_claim gr (last ∷ collapse last cs) ≡ first_claim gr (last ∷ cs)
unfolding collapse
first_claim-collapse gr last [] = refl
first_claim-collapse gr last (c ∷ cs) =
    ground (arith, first_claim-collapse gr last cs, first_claim-collapse gr c cs)

-- Each claim's resource comes before the next one's.
abbrev pub IsAscending : List PermissionClaim → Type 0
IsAscending [] = Unit
IsAscending (c ∷ []) = Unit
IsAscending (c ∷ d ∷ ds) = (gr_less (key c) (key d) ≡ true) × IsAscending (d ∷ ds)

drop-second :
    (a b : PermissionClaim) (cs : List PermissionClaim)
    → key a ≡ key b
    → IsSorted key (b ∷ cs)
    → IsSorted key (a ∷ cs)
drop-second a b [] e h = tt
drop-second a b (d ∷ ds) e h = (rw e h.0, h.1)

collapse-IsAscending :
    (last : PermissionClaim) (cs : List PermissionClaim)
    → IsSorted key (last ∷ cs)
    → IsAscending (last ∷ collapse last cs)
unfolding collapse
collapse-IsAscending last [] h = tt
collapse-IsAscending last (c ∷ cs) h = elim (Bool-cases (key last == key c)) [
  | inl same ↦ rw same (collapse-IsAscending last cs (drop-second last c cs (ground arith) h.1))
  | inr other ↦ rw other (ascends other, collapse-IsAscending c cs h.1)
]
  where
    ascends : (key last == key c) ≡ false → gr_less (key last) (key c) ≡ true
    ascends other = elim (Bool-cases (gr_less (key last) (key c))) [
      | inl before ↦ before
      | inr behind ↦ absurd (ground (arith, gr_less_total (key last) (key c) behind h.0))
    ]

abbrev pub IsMerged : List PermissionClaim → Option (List PermissionClaim) → Type 0
IsMerged all none = all ≡ []
IsMerged all (some merged) =
    (all ≢ []) × IsAscending merged × ((gr : Gr) → first_claim gr merged ≡ first_claim gr all)

first_claim-itself :
    (c : PermissionClaim) (cs : List PermissionClaim) → first_claim (key c) (c ∷ cs) ≡ some c
first_claim-itself c cs = ground arith

all_unclaimed : (all : List PermissionClaim) → ((gr : Gr) → none ≡ first_claim gr all) → all ≡ []
all_unclaimed [] f = refl
all_unclaimed (c ∷ cs) f = cc (f (key c), first_claim-itself c cs)

claimed-not_empty :
    (all : List PermissionClaim) (c : PermissionClaim) (cs : List PermissionClaim)
    → ((gr : Gr) → first_claim gr (c ∷ cs) ≡ first_claim gr all)
    → all ≢ []
claimed-not_empty [] c cs f e = cc (f (key c), first_claim-itself c cs)
claimed-not_empty (x ∷ xs) c cs f e = cc

merge_sorted-IsMerged :
    (all sorted : List PermissionClaim)
    → IsSorted key sorted
    → ((gr : Gr) → first_claim gr sorted ≡ first_claim gr all)
    → IsMerged all (merge_sorted sorted)
unfolding merge_sorted
merge_sorted-IsMerged all [] h f = all_unclaimed all f
merge_sorted-IsMerged all (c ∷ cs) h f = (
  claimed-not_empty all c cs f,
  collapse-IsAscending c (c ∷ cs) (gr_less_irrefl (key c), h),
  λ gr. first_claim-collapse gr c (c ∷ cs) ∙ ground (arith, f gr),
)

-- A merge panics if and only if the inputs hold no claim at all. Any other merge keeps one claim per
-- resource, the first one of the inputs that has the resource with its verbs as they are, in
-- ascending order.
pub merge_claims-IsMerged :
    (inputs : List (List PermissionClaim)) → IsMerged (concat_claims inputs) (merge_claims inputs)
unfolding merge_claims
merge_claims-IsMerged inputs =
    merge_sorted-IsMerged (concat_claims inputs) _ (sort_stable-IsSorted key (concat_claims inputs))
      (λ gr. first_claim-sort_stable gr (concat_claims inputs))

contains-insert_sorted :
    (a x : Gr) (xs : List Gr)
    → contains (insert_sorted (λ gr. gr) x xs) a ≡ (x == a || contains xs a)
unfolding insert_sorted
contains-insert_sorted a x [] = refl
contains-insert_sorted a x (y ∷ ys) = ground (arith, contains-insert_sorted a x ys)

contains-sort_stable :
    (a : Gr) (xs : List Gr) → contains (sort_stable (λ gr. gr) xs) a ≡ contains xs a
unfolding sort_stable
contains-sort_stable a [] = refl
contains-sort_stable a (x ∷ xs) =
    ground
      (arith, contains-insert_sorted a x (sort_stable (λ gr. gr) xs), contains-sort_stable a xs)

abbrev pub claim_of : Gr → List Text → Dict Gr Text → PermissionClaim
claim_of gr verbs identity = record {
  group_resource = gr;
  verbs = verbs;
  identity_hash = get_or [] gr identity;
}

first_claim-to_claims :
    (gr : Gr) (verbs : List Text) (identity : Dict Gr Text) (grs : List Gr)
    → first_claim gr (to_claims verbs identity grs)
      ≡ (if contains grs gr then some (claim_of gr verbs identity) else none)
unfolding to_claims
first_claim-to_claims gr verbs identity [] = refl
first_claim-to_claims gr verbs identity (x ∷ xs) = elim (Bool-cases (x == gr)) [
  | inl same ↦
      let eq : x ≡ gr = ground arith in
      rw same (ap (λ (a : Gr). some (claim_of a verbs identity)) eq)
  | inr other ↦ ground (arith, first_claim-to_claims gr verbs identity xs)
]

first_claim-append :
    (gr : Gr) (xs ys : List PermissionClaim)
    → first_claim gr (xs ++ ys)
      ≡ (elim (first_claim gr xs) [ none ↦ first_claim gr ys | some c ↦ some c ])
first_claim-append gr [] ys = refl
first_claim-append gr (x ∷ xs) ys = ground (arith, first_claim-append gr xs ys)

-- The claim for a resource, by what the blueprint's nodes need.
abbrev pub wanted : List Node → Gr → Routing → Dict Gr Text → Gr → Option PermissionClaim
wanted nodes instance_gr routing identity gr =
    if needs false instance_gr routing nodes gr
    then some (claim_of gr claim_verbs identity)
    else if needs true instance_gr routing nodes gr
    then some (claim_of gr read_only_verbs identity)
    else none

first_claim-derived :
    (gr : Gr) (writable external : List Gr) (identity : Dict Gr Text)
    → first_claim gr (
        concat_claims (
          derive_claims writable claim_verbs identity
          ∷ derive_claims external read_only_verbs identity
          ∷ []))
      ≡ (if contains writable gr
          then some (claim_of gr claim_verbs identity)
          else if contains external gr
          then some (claim_of gr read_only_verbs identity)
          else none)
unfolding concat_claims derive_claims
first_claim-derived gr writable external identity =
    let w = sort_stable (λ gr. gr) writable in
    let e = sort_stable (λ gr. gr) external in
    ground (
      arith,
      first_claim-append gr (to_claims claim_verbs identity w)
          (to_claims read_only_verbs identity e ++ []),
      first_claim-append gr (to_claims read_only_verbs identity e) [],
      first_claim-to_claims gr claim_verbs identity w,
      first_claim-to_claims gr read_only_verbs identity e,
      contains-sort_stable gr writable,
      contains-sort_stable gr external,
    )

abbrev pub IsComplete :
    List Node → Gr → Routing → Dict Gr Text → Option (List PermissionClaim) → Type 0
IsComplete nodes instance_gr routing identity none =
    (gr : Gr) → wanted nodes instance_gr routing identity gr ≡ none
IsComplete nodes instance_gr routing identity (some claims) =
    ((gr : Gr) × (wanted nodes instance_gr routing identity gr ≢ none))
    × IsAscending claims
    × ((gr : Gr) → first_claim gr claims ≡ wanted nodes instance_gr routing identity gr)

merged-IsComplete :
    (nodes : List Node) (instance_gr : Gr) (routing : Routing) (identity : Dict Gr Text)
    (all : List PermissionClaim) (merged : Option (List PermissionClaim))
    → ((gr : Gr) → first_claim gr all ≡ wanted nodes instance_gr routing identity gr)
    → IsMerged all merged
    → IsComplete nodes instance_gr routing identity merged
merged-IsComplete nodes instance_gr routing identity all none f m =
    λ gr. sym (f gr) ∙ ap (first_claim gr) m
merged-IsComplete nodes instance_gr routing identity [] (some claims) f m = absurd (m.0 refl)
merged-IsComplete nodes instance_gr routing identity (c ∷ cs) (some claims) f m = (
  (
    key c,
    λ (e : wanted nodes instance_gr routing identity (key c) ≡ none).
        cc (first_claim-itself c cs, f (key c), e),
  ),
  m.1,
  λ gr. m.2 gr ∙ f gr,
)

-- The claims panic if and only if none of the blueprint's consumer-target nodes needs a foreign
-- resource. For any other blueprint the claims are in ascending order of their resources, each claimed once: with all
-- verbs if a template node has the resource, even if an external reference has it too, else for reading
-- only if an external reference has it, else not at all. The identity hash is the one that was found.
pub blueprint_claims-IsComplete :
    (nodes : List Node) (instance_gr : Gr) (routing : Routing) (identity : Dict Gr Text)
    → IsComplete nodes instance_gr routing identity
        (blueprint_claims nodes instance_gr routing identity)
unfolding blueprint_claims
blueprint_claims-IsComplete nodes instance_gr routing identity =
    let (writable, external) = foreign_consumer_grs nodes instance_gr routing in
    let (exact, _, _) = foreign_consumer_grs_exact nodes instance_gr routing in
    merged-IsComplete nodes instance_gr routing identity _ _
      (λ gr.
        first_claim-derived gr writable external identity
        ∙ ground (arith, (exact gr).0, (exact gr).1))
      (merge_claims-IsMerged (
        derive_claims writable claim_verbs identity
        ∷ derive_claims external read_only_verbs identity
        ∷ []))

-- A claim that would authorize nothing: a foreign resource with no identity.
abbrev pub IsResolved : PermissionClaim → Type 0
IsResolved c = c.identity_hash ≡ [] → (key c).group ≡ []

-- The claims are accepted exactly if every claim on a resource outside the core group has an identity.
pub validate_claims_iff :
    (cs : List PermissionClaim) → (validate_claims cs ≡ ok tt) ↔ All IsResolved cs
unfolding validate_claims
validate_claims_iff [] = ((λ _. tt), (λ _. refl))
validate_claims_iff (c ∷ cs) =
    elim (Bool-cases (not ((key c).group == []) && c.identity_hash == [])) [
      | inl broken ↦ rw broken ((λ accepted. cc), (λ h. absurd (unresolved broken h.0)))
      | inr sound ↦ rw sound (
        (λ accepted. ((λ bare. ground (arith, sound)), (validate_claims_iff cs).0 accepted)),
        (λ h. (validate_claims_iff cs).1 h.1),
      )
    ]
  where
    unresolved : (not ((key c).group == []) && c.identity_hash == []) ≡ true → ¬ IsResolved c
    unresolved broken h = ground (arith, h)
