-- ===== src/Registrar/Reconcile/Resolved.antt =====
-- Which exports the registrar writes.
use krop_controller.Base.{
  ℕ, Text, text_eq, ◌==◌, contains, ◌≡◌, refl, true, false, Option, none, some, List, [], ◌∷◌, ◌++◌,
  All, arith, Bool-cases, inl, inr,
}
use krop_controller.Base.Bytes.{codes}
use krop_controller.Base.Dict.{Dict}
use krop_controller.Base.Result.{
  Error, is_not_found, Result, ok, err, continue, context_of, Prog, pure, context, ignore_not_found,
  for_each,
}
use krop_controller.Base.Stable.{Stable, bind-Stable, for_each-Stable}
use krop_controller.Api.Object.{Condition}
use krop_controller.Api.Blueprint.{Blueprint, BlueprintSpec, KroSpec}
use krop_controller.Engine.Route.{Routing}
use krop_controller.Registrar.Claims.{PermissionClaim, validate_claims}
use krop_controller.Registrar.Claims.Merged.{IsResolved, validate_claims_iff}
use krop_controller.Registrar.Publish.{
  BoundResource, add_bindings, Schema, Export, ExportedResource, Crd, apply_ars, after_get_schema,
  identity_by_group_resource, delete_export_schema, after_get_export, delete_published_api,
  upsert_api_export,
}
use krop_controller.Registrar.Reconcile.{
  Graph, Site, Registrar, blueprint_finalizer, at_site, returned, fail_with, or_fail, go_on_or_fail,
  withdraw, release_blueprint, tear_down, report_published, publish_claims, publish_schema,
  publish_graph, build_graph, publish, add_finalizer, reconcile_blueprint, register,
}

module _ {W : Type 0} (digest : Text → Text) (marshal : BlueprintSpec → Result Text)
    (build : Text → KroSpec → W → Result Graph) (convert : Crd → Text → Result Schema)
    (set_condition : List Condition → Condition → List Condition) (error_text : Error → Text)
    (r : Registrar W) (P : W → Type 0)
    (resolved_exports : (x : Export)
      → All IsResolved x.permission_claims
      → Stable P (r.client.apply_export x))
    (blueprints : (bp : Blueprint) → Stable P (r.client.update_blueprint bp))
    (statuses : (bp : Blueprint) → Stable P (r.client.update_blueprint_status bp))
    (schemas : (x : Schema) → Stable P (r.client.create_schema x))
    (schema_deletions : (n : Text) → Stable P (r.client.delete_schema n))
    (export_deletions : (n : Text) → Stable P (r.client.delete_export n)) where
  abbrev Here : Site W → Type 0
  Here s = P s.world

  fail_with-Stable :
      (A : Type 0) (bp : Blueprint) (reason : Text) (e : Error)
      → Stable Here
          (fail_with digest marshal build convert set_condition error_text r {A = A} bp reason e)
  unfolding fail_with
  fail_with-Stable A bp reason e s p = statuses _ s.world p

  or_fail-Stable :
      {A B : Type 0} (bp : Blueprint) (reason : Text) (m : Prog (Site W) A)
      (f : A → Prog (Site W) B)
      → Stable Here m
      → ((a : A) (s : Site W) → (m s).0 ≡ ok a → Here (m s).1 → Here (f a (m s).1).1)
      → Stable Here (or_fail digest marshal build convert set_condition error_text r bp reason m f)
  unfolding or_fail go_on_or_fail
  or_fail-Stable bp reason m f hm hf s p = go (m s).0 refl
    where
      go :
          (x : Result _)
          → (m s).0 ≡ x
          → Here
              (go_on_or_fail digest marshal build convert set_condition error_text r bp reason f x
                (m s).1).1
      go (ok a) q = hf a s q (hm s p)
      go (err e) q = fail_with-Stable _ bp reason e (m s).1 (hm s p)

  at_site-Stable : {A : Type 0} (m : Prog W A) → Stable P m → Stable Here (at_site m)
  at_site-Stable m k s p = k s.world p

  then-pure :
      {A B : Type 0} (x : Result A) (b : B) (t : Site W)
      → Here t
      → Here (continue x (λ _. pure b) t).1
  then-pure (ok a) b t p = p
  then-pure (err e) b t p = p

  report_published-Stable :
      (bp : Blueprint) (hash : Text) (g : Graph) (routing : Routing) (ars : Schema)
      → Stable Here (
          report_published digest marshal build convert set_condition error_text r bp hash g routing
            ars)
  unfolding report_published
  report_published-Stable bp hash g routing ars s p = then-pure _ true _ (statuses _ s.world p)

  upsert_api_export-Stable :
      (name : Text) (ars : Schema) (claims : List PermissionClaim)
      → All IsResolved claims
      → Stable P (upsert_api_export r.client name ars claims)
  unfolding upsert_api_export
  upsert_api_export-Stable name ars claims resolved w p = resolved_exports _ resolved w p

  publish_claims-Stable :
      (bp : Blueprint) (hash : Text) (g : Graph) (routing : Routing) (ars : Schema)
      (claims : Option (List PermissionClaim))
      → Stable Here (
          publish_claims digest marshal build convert set_condition error_text r bp hash g routing
            ars claims)
  unfolding publish_claims
  publish_claims-Stable bp hash g routing ars none = λ s p. p
  publish_claims-Stable bp hash g routing ars (some claims) =
      or_fail-Stable bp _
        (returned digest marshal build convert set_condition error_text r (validate_claims claims))
        _ (λ s p. p)
        (λ _ s valid.
          or_fail-Stable bp _ _ _
            (at_site-Stable
              (upsert_api_export r.client (ars.plural ++ (b'.' ∷ ars.group)) ars claims)
              (upsert_api_export-Stable _ ars claims ((validate_claims_iff claims).0 valid)))
            (λ _ s' _ p. report_published-Stable bp hash g routing ars _ p) s)

  apply_ars-Stable : (ars : Schema) → Stable P (apply_ars r.client ars)
  unfolding apply_ars after_get_schema
  apply_ars-Stable ars w p = go (r.client.get_schema ars.name w)
    where
      go : (x : Result Schema) → P (after_get_schema r.client ars x w).1
      go (ok x) = p
      go (err e) = elim (Bool-cases (is_not_found e)) [
        | inl missing ↦ rw missing (schemas ars w p)
        | inr broken ↦ rw broken p
      ]

  identity-Stable : Stable P (identity_by_group_resource r.client)
  unfolding identity_by_group_resource
  identity-Stable w p = go (r.client.list_bindings w)
    where
      go :
          (x : Result (List (List BoundResource)))
          → P
              (continue
                (context_of (codes "listing APIBindings") x)
                (λ b. pure (add_bindings b []))
                w).1
      go (ok x) = p
      go (err e) = p

  publish_schema-Stable :
      (bp : Blueprint) (hash : Text) (g : Graph) (routing : Routing) (ars : Schema)
      → Stable Here (
          publish_schema digest marshal build convert set_condition error_text r bp hash g routing
            ars)
  unfolding publish_schema
  publish_schema-Stable bp hash g routing ars =
      or_fail-Stable bp _ _ _ (at_site-Stable (apply_ars r.client ars) (apply_ars-Stable ars))
        (λ _ s _.
          or_fail-Stable bp _ _ _
            (at_site-Stable (identity_by_group_resource r.client) identity-Stable)
            (λ identity s' _ p. publish_claims-Stable bp hash g routing ars _ _ p) _)

  publish_graph-Stable :
      (bp : Blueprint) (hash : Text) (raw : Dict Text Text) (g : Graph)
      → Stable Here
          (publish_graph digest marshal build convert set_condition error_text r bp hash raw g)
  unfolding publish_graph
  publish_graph-Stable bp hash raw g =
      or_fail-Stable bp _ (returned digest marshal build convert set_condition error_text r _) _
        (λ s p. p)
        (λ routing s _.
          or_fail-Stable bp _ (returned digest marshal build convert set_condition error_text r _) _
            (λ s p. p) (λ ars s' _ p. publish_schema-Stable bp hash g routing ars _ p) _)

  build_graph-Stable :
      (bp : Blueprint) (hash : Text) (spec : KroSpec)
      → Stable Here
          (build_graph digest marshal build convert set_condition error_text r bp hash spec)
  unfolding build_graph
  build_graph-Stable bp hash spec s p = ground (arith, p)

  publish-Stable :
      (bp : Blueprint)
      → Stable Here (publish digest marshal build convert set_condition error_text r bp)
  unfolding publish
  publish-Stable bp =
      or_fail-Stable bp _ (returned digest marshal build convert set_condition error_text r _) _
        (λ s p. p)
        (λ hash s _.
          or_fail-Stable bp _ _ _ (build_graph-Stable bp hash _)
            (λ g s' _ p. publish_graph-Stable bp hash _ g _ p) _)

  delete_published_api-Stable : (name : Text) → Stable P (delete_published_api r.client name)
  unfolding delete_published_api after_get_export delete_export_schema
  delete_published_api-Stable name w p = go (r.client.get_export name w)
    where
      deletes : (x : ExportedResource) → Stable P (delete_export_schema r.client x)
      deletes x v q = schema_deletions x.schema v q

      go : (x : Result Export) → P (after_get_export r.client name x w).1
      go (err e) = ground (arith, p)
      go (ok x) =
          bind-Stable P (for_each x.resources (delete_export_schema r.client))
            (λ _.
              context (codes "deleting APIExport")
                (ignore_not_found (r.client.delete_export x.name)))
            (for_each-Stable P (delete_export_schema r.client) x.resources deletes)
            (λ _ v q. export_deletions x.name v q) w p

  withdraw-Stable :
      (bp : Blueprint)
      → Stable Here (withdraw digest marshal build convert set_condition error_text r bp)
  unfolding withdraw
  withdraw-Stable bp s p = elim (Bool-cases (bp.status.exported_api == [])) [
    | inl none_there ↦ rw none_there p
    | inr there ↦ rw there (delete_published_api-Stable bp.status.exported_api s.world p)
  ]

  release_blueprint-Stable :
      (bp : Blueprint)
      → Stable Here (release_blueprint digest marshal build convert set_condition error_text r bp)
  unfolding release_blueprint
  release_blueprint-Stable bp s p = blueprints _ s.world p

  tear_down-Stable :
      (bp : Blueprint)
      → Stable Here (tear_down digest marshal build convert set_condition error_text r bp)
  unfolding tear_down
  tear_down-Stable bp s p = elim (Bool-cases (contains bp.finalizers blueprint_finalizer)) [
    | inr free ↦ rw free p
    | inl held ↦ rw held (
        bind-Stable Here (withdraw digest marshal build convert set_condition error_text r bp)
          (λ _. release_blueprint digest marshal build convert set_condition error_text r bp)
          (withdraw-Stable bp) (λ _. release_blueprint-Stable bp) s p)
  ]

  add_finalizer-Stable :
      (bp : Blueprint)
      → Stable Here (add_finalizer digest marshal build convert set_condition error_text r bp)
  unfolding add_finalizer
  add_finalizer-Stable bp s p = elim (Bool-cases (contains bp.finalizers blueprint_finalizer)) [
    | inl held ↦ rw held p
    | inr free ↦ rw free (then-pure _ _ _ (blueprints _ s.world p))
  ]

  reconcile_blueprint-Stable :
      (bp : Blueprint)
      → Stable Here (reconcile_blueprint digest marshal build convert set_condition error_text r bp)
  unfolding reconcile_blueprint
  reconcile_blueprint-Stable bp = go bp.deletion_timestamp refl
    where
      go :
          (d : Option ℕ)
          → bp.deletion_timestamp ≡ d
          → Stable Here
              (reconcile_blueprint digest marshal build convert set_condition error_text r bp)
      go none e s p =
          rw (e, reconcile_blueprint)
            (bind-Stable Here
              (add_finalizer digest marshal build convert set_condition error_text r bp)
              (publish digest marshal build convert set_condition error_text r)
              (add_finalizer-Stable bp) publish-Stable s p)
      go (some d) e s p =
          rw (e, reconcile_blueprint) (then-pure _ false _ (tear_down-Stable bp s p))

  -- The registrar never writes an export with a claim that would not authorize: what all its other writes
  -- keep, and what the applying of an export keeps if each foreign claim of it has an identity, a
  -- reconcile keeps, on every branch. That holds for a new blueprint, an edited one, a withdrawn one, and
  -- for a reconcile that fails at any stage.
  pub register-resolved :
      (name : Text) (s : Site W)
      → P s.world
      → P (register digest marshal build convert set_condition error_text r name s).1.world
  unfolding register
  register-resolved name s p = go (r.client.get_blueprint name s.world) refl
    where
      go :
          (x : Result Blueprint)
          → r.client.get_blueprint name s.world ≡ x
          → P (register digest marshal build convert set_condition error_text r name s).1.world
      go (err e) q = rw (q, register) p
      go (ok bp) q = rw (q, register) (reconcile_blueprint-Stable bp s p)
