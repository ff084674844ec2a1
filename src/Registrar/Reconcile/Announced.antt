-- ===== src/Registrar/Reconcile/Announced.antt =====
-- The calls of the hooks that a reconcile makes, and the graph that they carry.
use krop_controller.Base.{
  Text, text_eq, ◌==◌, if◌then◌else◌, ◌≡◌, refl, sym, ap, ◌∙◌, Bool, true, not, Option, none, some,
  List, [], ◌∷◌, ◌++◌, arith,
}
use krop_controller.Base.Dict.{Dict}
use krop_controller.Base.Result.{Error, Result, ok, err, continue, Prog, pure}
use krop_controller.Api.Object.{Condition, Gvk}
use krop_controller.Api.Blueprint.{Blueprint, BlueprintSpec, KroSpec}
use krop_controller.Engine.Route.{Routing}
use krop_controller.Registrar.Claims.{PermissionClaim, validate_claims}
use krop_controller.Registrar.Publish.{
  Schema, Crd, build_ars, apply_ars, identity_by_group_resource, upsert_api_export,
}
use krop_controller.Registrar.Reconcile.{
  Graph, Call, published, Site, Registrar, parse_routing, at_site, returned, fail_with, or_fail,
  go_on_or_fail, report_published, publish_claims, publish_schema, publish_graph,
}

abbrev pub instance_gvk : Graph → Schema → Gvk
instance_gvk g ars = record {
  group = ars.group;
  version = elim g.crd [ none ↦ [] | some crd ↦ crd.version ];
  kind = ars.kind;
}

-- The call of `OnPublished` for a graph and its schema.
abbrev pub announcement : Blueprint → Text → Graph → Routing → Schema → Call
announcement bp hash g routing ars =
    published (ars.plural ++ (b'.' ∷ ars.group)) (instance_gvk g ars) g routing
      (not (bp.status.observed_spec_hash == hash))

pub site_of_continue :
    {W A B : Type 0} (x : Result A) (b : B) (t : Site W) → (continue x (λ _. pure b) t).1 ≡ t
site_of_continue (ok a) b t = refl
site_of_continue (err e) b t = refl

module _ {W : Type 0} (digest : Text → Text) (marshal : BlueprintSpec → Result Text)
    (build : Text → KroSpec → W → Result Graph) (convert : Crd → Text → Result Schema)
    (set_condition : List Condition → Condition → List Condition) (error_text : Error → Text)
    (r : Registrar W) where
  -- A chain that reports no error has gone on at each step.
  pub or_fail-ok :
      {A B : Type 0} (bp : Blueprint) (reason : Text) (m : Prog (Site W) A)
      (f : A → Prog (Site W) B) (s : Site W) (b : B)
      → (or_fail digest marshal build convert set_condition error_text r bp reason m f s).0 ≡ ok b
      → (a : A) × ((m s).0 ≡ ok a)
        × (or_fail digest marshal build convert set_condition error_text r bp reason m f s
            ≡ f a (m s).1)
  unfolding or_fail go_on_or_fail fail_with
  or_fail-ok bp reason m f s b h = go (m s).0 refl h
    where
      go :
          (x : Result _)
          → (m s).0 ≡ x
          → (or_fail digest marshal build convert set_condition error_text r bp reason m f s).0
            ≡ ok b
          → (a : _) × ((m s).0 ≡ ok a)
            × (or_fail digest marshal build convert set_condition error_text r bp reason m f s
                ≡ f a (m s).1)
      go (ok a) e h = (a, e, rw (e, or_fail))
      go (err x) e h = absurd (ground (arith, e, h))

  module _ (hooked : r.has_on_published ≡ true) where
    -- Whether the status update succeeds or not.
    pub report_published-announces :
        (bp : Blueprint) (hash : Text) (g : Graph) (routing : Routing) (ars : Schema) (s : Site W)
        → let end =
            (report_published digest marshal build convert set_condition error_text r bp hash g
              routing ars s).1 in
          (end.calls ≡ s.calls ++ (announcement bp hash g routing ars ∷ [])) × (end.cache ≡ s.cache)
    unfolding report_published
    report_published-announces bp hash g routing ars s = (
      ap (λ (t : Site W). t.calls) (site_of_continue _ true _)
          ∙ ap
              (λ (b : Bool).
                if b then s.calls ++ (announcement bp hash g routing ars ∷ []) else s.calls)
              hooked,
      ap (λ (t : Site W). t.cache) (site_of_continue _ true _),
    )

    -- A pass that asks for a resync has announced the graph, with a routing and a schema of which `P`
    -- is known, and the cache is as it was.
    abbrev pub Announces :
        (Routing → Schema → Type 0)
        → Blueprint
        → Text
        → Graph
        → Site W
        → Result Bool × Site W
        → Type 0
    Announces P bp hash g s (x, end) =
        x ≡ ok true
        → (routing : Routing) × (ars : Schema) × P routing ars
          × (end.calls ≡ s.calls ++ (announcement bp hash g routing ars ∷ []))
          × (end.cache ≡ s.cache)

    abbrev Keeps : {A : Type 0} → Prog (Site W) A → Type 0
    Keeps m = (s : Site W) → ((m s).1.calls ≡ s.calls) × ((m s).1.cache ≡ s.cache)

    or_fail-Announces :
        {A : Type 0} (P : Routing → Schema → Type 0) (bp : Blueprint) (hash : Text) (g : Graph)
        (reason : Text) (m : Prog (Site W) A) (f : A → Prog (Site W) Bool)
        → Keeps m
        → ((a : A) (s : Site W) → (m s).0 ≡ ok a → Announces P bp hash g (m s).1 (f a (m s).1))
        → (s : Site W)
        → Announces P bp hash g s
            (or_fail digest marshal build convert set_condition error_text r bp reason m f s)
    or_fail-Announces P bp hash g reason m f keeps goes s h =
        let (a, e, q) = or_fail-ok bp reason m f s true h in
        let (calls_kept, cache_kept) = keeps s in
        let (routing, ars, known, announced, cached) =
          goes a s e (ap (λ (t : Result Bool × Site W). t.0) (sym q) ∙ h) in
        (
          routing,
          ars,
          known,
          ap (λ (t : Result Bool × Site W). t.1.calls) q
              ∙ announced
              ∙ ap (λ (cs : List Call). cs ++ (announcement bp hash g routing ars ∷ [])) calls_kept,
          ap (λ (t : Result Bool × Site W). t.1.cache) q ∙ cached ∙ cache_kept,
        )

    kept : {A : Type 0} (m : Prog W A) → Keeps (at_site m)
    kept m s = (refl, refl)

    kept_value :
        {A : Type 0} (x : Result A)
        → Keeps (returned digest marshal build convert set_condition error_text r x)
    kept_value x s = (refl, refl)

    module _ (P : Routing → Schema → Type 0) (bp : Blueprint) (hash : Text) (g : Graph)
        (routing : Routing) (ars : Schema) (known : P routing ars) where
      publish_claims-Announces :
          (claims : Option (List PermissionClaim)) (s : Site W)
          → Announces P bp hash g s (
              publish_claims digest marshal build convert set_condition error_text r bp hash g
                routing ars claims s)
      unfolding publish_claims
      publish_claims-Announces none = λ s h. cc
      publish_claims-Announces (some claims) =
          or_fail-Announces P bp hash g _ _ _ (kept_value (validate_claims claims)) λ _ _ _.
            or_fail-Announces P bp hash g _ _ _
              (kept (upsert_api_export r.client (ars.plural ++ (b'.' ∷ ars.group)) ars claims))
              (λ _ s _ _.
                let (announced, cached) = report_published-announces bp hash g routing ars _ in
                (routing, ars, known, announced, cached))
              _

      publish_schema-Announces :
          (s : Site W)
          → Announces P bp hash g s (
              publish_schema digest marshal build convert set_condition error_text r bp hash g
                routing ars s)
      unfolding publish_schema
      publish_schema-Announces =
          or_fail-Announces P bp hash g _ _ _ (kept (apply_ars r.client ars)) λ _ _ _.
            or_fail-Announces P bp hash g _ _ _ (kept (identity_by_group_resource r.client))
              (λ identity _ _. publish_claims-Announces _ _) _

    -- The routing is the one that the blueprint's targets are converted to, and the schema is the one
    -- that is made of the graph's definition.
    abbrev pub IsMadeOf : Dict Text Text → Graph → Text → Routing → Schema → Type 0
    IsMadeOf raw g hash routing ars =
        (parse_routing raw ≡ ok routing) × (build_ars convert g.crd hash ≡ ok ars)

    pub publish_graph-Announces :
        (bp : Blueprint) (hash : Text) (raw : Dict Text Text) (g : Graph) (s : Site W)
        → Announces
            (IsMadeOf raw g hash)
            bp
            hash
            g
            s
            (publish_graph digest marshal build convert set_condition error_text r bp hash raw g s)
    unfolding publish_graph
    publish_graph-Announces bp hash raw g =
        let P = IsMadeOf raw g hash in
        or_fail-Announces P bp hash g _ _ _ (kept_value (parse_routing raw)) λ routing _ parsed.
          or_fail-Announces P bp hash g _ _ _ (kept_value (build_ars convert g.crd hash))
            (λ ars _ built. publish_schema-Announces P bp hash g routing ars (parsed, built) _) _
