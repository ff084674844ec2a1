-- ===== src/Process/Passes/Announces.antt =====
-- A publish ends with its status unmoved, or with a call of `OnPublished` and a new status.
use krop_controller.Base.{
  Text, text_eq, ◌≡◌, inl, inr, refl, ap, ◌∙◌, subst, sym, Bool, true, Option, none, some, List, [],
  ◌∷◌, ◌++◌,
}
use krop_controller.Base.Result.{Error, Result, ok, err, continue, context_of, Prog, pure}
use krop_controller.Base.Stable.{Stable}
use krop_controller.Api.Object.{Condition}
use krop_controller.Api.Blueprint.{Blueprint, BlueprintSpec, KroSpec, to_kro}
use krop_controller.Engine.Route.{Routing}
use krop_controller.Registrar.Claims.{PermissionClaim, validate_claims}
use krop_controller.Registrar.Publish.{
  Schema, Crd, spec_hash, build_ars, apply_ars, identity_by_group_resource, upsert_api_export,
}
use krop_controller.Registrar.Reconcile.{
  Graph, Call, Site, Registrar, parse_routing, at_site, returned, or_fail, report_published,
  publish_claims, publish_schema, publish_graph, build_graph, publish,
}
use krop_controller.Registrar.Reconcile.Announced.{
  announcement, report_published-announces, site_of_continue,
}
use krop_controller.Process.Passes.{Mark, mark_of, IsUnmoved, IsMarked, Offers}
use krop_controller.Process.Passes.Calls.{
  upsert_api_export-IsUnmoved, apply_ars-IsUnmoved, identity-IsUnmoved,
}
use krop_controller.Process.Passes.Publishes.{
  or_fail-Ends, build_graph-Quiet, build_graph-built, quiet-at_site,
}
use krop_controller.Process.Passes.Outcome.{
  IsBuilt, Quiet, quiet, announces, Ends, offer_of, new_mark,
}

ok_of_context :
    {W : Type 0} (t : Text) (x : Result (Unit {0})) (b b' : Bool) (s : W)
    → (continue (context_of t x) (λ _. pure b) s).0 ≡ ok b'
    → x ≡ ok tt
ok_of_context t (ok tt) b b' s h = refl
ok_of_context t (err e) b b' s h = cc

module _ {W : Type 0} (digest : Text → Text) (marshal : BlueprintSpec → Result Text)
    (build : Text → KroSpec → W → Result Graph) (convert : Crd → Text → Result Schema)
    (set_condition : List Condition → Condition → List Condition) (error_text : Error → Text)
    (r : Registrar W) (marks : Text → W → Option Mark) (Known : Text → BlueprintSpec → Type 0)
    (marked : IsMarked marks r.client) (hooked : r.has_on_published ≡ true)
    (one_spec : (n hash : Text) (spec spec' : BlueprintSpec)
      → Known n spec
      → Known n spec'
      → spec_hash digest marshal spec ≡ ok hash
      → spec_hash digest marshal spec' ≡ ok hash
      → spec ≡ spec') where
  module _ (s0 : Site W) (bp : Blueprint) (read : marks bp.name s0.world ≡ some (mark_of bp))
      (known : Known bp.name bp.spec) where
    abbrev Still : Site W → Type 0
    Still = Quiet digest marshal build convert r marks Known s0

    abbrev End : Result Bool × Site W → Type 0
    End = Ends digest marshal build convert r marks Known s0

    -- The last write of a publish is an update of the status that leaves the new mark.
    report_published-writes :
        (hash : Text) (g : Graph) (routing : Routing) (ars : Schema) (s : Site W)
        → let run =
            report_published digest marshal build convert set_condition error_text r bp hash g
              routing ars s in
          (bp' : Blueprint) × (bp'.name ≡ bp.name)
          × (mark_of bp' ≡ new_mark hash ars)
          × (run.1.world ≡ (r.client.update_blueprint_status bp' s.world).1)
          × ((b : Bool) → run.0 ≡ ok b → (r.client.update_blueprint_status bp' s.world).0 ≡ ok tt)
    unfolding report_published
    report_published-writes hash g routing ars s = (
      _,
      refl,
      refl,
      ap (λ (t : Site W). t.world) (site_of_continue _ true _),
      λ b h. ok_of_context _ _ _ b _ h,
    )

    report_published-Ends :
        (hash : Text) (g : Graph) (routing : Routing) (ars : Schema)
        → Offers digest marshal build convert Known bp.name bp.spec hash
            (ars.plural ++ (b'.' ∷ ars.group))
            (offer_of g routing ars)
        → (s : Site W) → Still s
        → End (
            report_published digest marshal build convert set_condition error_text r bp hash g
              routing ars s)
    report_published-Ends hash g routing ars o s q =
        let (bp', named, new, world, done) = report_published-writes hash g routing ars s in
        let (announced, cache) =
          report_published-announces digest marshal build convert set_condition error_text r hooked
            bp hash g routing ars s in
        announces (record {
          bp = bp;
          hash = hash;
          g = g;
          routing = routing;
          ars = ars;
          offers = o;
          read = read;
          announced =
              announced
              ∙ ap (λ (cs : List Call). cs ++ (announcement bp hash g routing ars ∷ [])) q.silent;
          cached =
              subst (IsBuilt digest marshal build convert r marks Known) (sym cache) q.kept.cached;
          moved = λ n x h.
              elim (marked.status_written bp' n x s.world (ap (marks n) (sym world) ∙ h)) [
                | inl before ↦ inl (q.kept.unmoved n x before)
                | inr (there, same) ↦ inr (there ∙ named, same ∙ new)
              ];
          written = λ b x ok_there h.
              marked.status_succeeded bp' x s.world (done b ok_there) (
                ap (λ (k : Text). marks k (r.client.update_blueprint_status bp' s.world).1) named
                ∙ ap (marks bp.name) (sym world)
                ∙ h)
              ∙ new;
        })

    step :
        {A : Type 0} (reason : Text) (m : Prog (Site W) A) (f : A → Prog (Site W) Bool)
        → Stable Still m
        → ((a : A) (s : Site W) → (m s).0 ≡ ok a → Still s → Still (m s).1 → End (f a (m s).1))
        → (s : Site W) → Still s
        → End (or_fail digest marshal build convert set_condition error_text r bp reason m f s)
    step =
        or_fail-Ends digest marshal build convert set_condition error_text r marks Known marked
          hooked one_spec s0 bp read known

    quiet_call : {A : Type 0} (m : Prog W A) → IsUnmoved marks m → Stable Still (at_site m)
    quiet_call =
        quiet-at_site digest marshal build convert set_condition error_text r marks Known marked
          hooked one_spec s0

    publish_claims-Ends :
        (hash : Text) (g : Graph) (routing : Routing) (ars : Schema)
        (claims : Option (List PermissionClaim))
        → Offers digest marshal build convert Known bp.name bp.spec hash
            (ars.plural ++ (b'.' ∷ ars.group))
            (offer_of g routing ars)
        → (s : Site W) → Still s
        → End (
            publish_claims digest marshal build convert set_condition error_text r bp hash g routing
              ars claims s)
    unfolding publish_claims
    publish_claims-Ends hash g routing ars none o s q = quiet q
    publish_claims-Ends hash g routing ars (some claims) o s q =
        step _
          (returned digest marshal build convert set_condition error_text r
            (validate_claims claims))
          _ (λ s q. q)
          (λ _ s _ q _.
            step _
              (at_site (upsert_api_export r.client (ars.plural ++ (b'.' ∷ ars.group)) ars claims)) _
              (quiet_call (upsert_api_export r.client (ars.plural ++ (b'.' ∷ ars.group)) ars claims)
                (upsert_api_export-IsUnmoved r marks marked _ ars claims))
              (λ _ s _ _ q. report_published-Ends hash g routing ars o _ q) s q)
          s q

    publish_schema-Ends :
        (hash : Text) (g : Graph) (routing : Routing) (ars : Schema)
        → Offers digest marshal build convert Known bp.name bp.spec hash
            (ars.plural ++ (b'.' ∷ ars.group))
            (offer_of g routing ars)
        → (s : Site W) → Still s
        → End (
            publish_schema digest marshal build convert set_condition error_text r bp hash g routing
              ars s)
    unfolding publish_schema
    publish_schema-Ends hash g routing ars o s q =
        step _ (at_site (apply_ars r.client ars)) _
          (quiet_call (apply_ars r.client ars) (apply_ars-IsUnmoved r marks marked ars))
          (λ _ s _ _ q.
            step _ (at_site (identity_by_group_resource r.client)) _
              (quiet_call (identity_by_group_resource r.client) (identity-IsUnmoved r marks marked))
              (λ identity s _ _ q. publish_claims-Ends hash g routing ars _ o _ q) _ q)
          s q

    publish_graph-Ends :
        (hash : Text) (g : Graph) (v : W)
        → spec_hash digest marshal bp.spec ≡ ok hash
        → build bp.name (to_kro bp.spec).0 v ≡ ok g
        → (s : Site W) → Still s
        → End (
            publish_graph digest marshal build convert set_condition error_text r bp hash
              (to_kro bp.spec).1
              g
              s)
    unfolding publish_graph
    publish_graph-Ends hash g v hashed built s q =
        step _
          (returned digest marshal build convert set_condition error_text r
            (parse_routing (to_kro bp.spec).1))
          _ (λ s q. q)
          (λ routing s routed _ q.
            step _
              (returned digest marshal build convert set_condition error_text r
                (build_ars convert g.crd hash))
              _ (λ s q. q)
              (λ ars s schema _ q.
                publish_schema-Ends hash g routing ars
                  (record {
                    known = known;
                    hashed = hashed;
                    world = v;
                    built = built;
                    routed = routed;
                    ars = ars;
                    schema = schema;
                    exported = refl;
                    kind = refl;
                  })
                  _ q)
              s q)
          s q

    pub publish-Ends :
        (s : Site W)
        → Still s
        → End (publish digest marshal build convert set_condition error_text r bp s)
    unfolding publish
    publish-Ends s q =
        step _
          (returned digest marshal build convert set_condition error_text r
            (spec_hash digest marshal bp.spec))
          _ (λ s q. q)
          (λ hash s hashed _ q.
            step _
              (build_graph digest marshal build convert set_condition error_text r bp hash
                (to_kro bp.spec).0)
              _
              (build_graph-Quiet digest marshal build convert set_condition error_text r marks Known
                marked hooked one_spec s0 bp read known hash hashed)
              (λ g s built q q'.
                let (v, there) =
                  build_graph-built digest marshal build convert set_condition error_text r marks
                    Known marked hooked one_spec s0 bp read known hash g s hashed q.kept.cached
                    built in
                publish_graph-Ends hash g v hashed there _ q')
              s q)
          s q
