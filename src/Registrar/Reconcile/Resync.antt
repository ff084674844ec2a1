-- ===== src/Registrar/Reconcile/Resync.antt =====
-- A whole reconcile that asks for the resync: the graph that it has cached, and the call that it has made.
use krop_controller.Base.{
  ℕ, Text, text_eq, contains, ◌≡◌, refl, sym, ap, subst, ◌∙◌, Bool, true, false, Option, none, some,
  List, [], ◌∷◌, ◌++◌, arith, Bool-cases, inl, inr,
}
use krop_controller.Base.Result.{Error, Result, ok, err, continue, pure, ◌>>=◌}
use krop_controller.Base.Stable.{bind-ok}
use krop_controller.Api.Object.{Condition}
use krop_controller.Api.Blueprint.{Blueprint, BlueprintSpec, BlueprintStatus, KroSpec, to_kro}
use krop_controller.Engine.Route.{Routing}
use krop_controller.Registrar.Cache.{get_graph}
use krop_controller.Registrar.Cache.Laws.{get_graph-put_self}
use krop_controller.Registrar.Publish.{Schema, Crd, build_ars, spec_hash}
use krop_controller.Registrar.Reconcile.{
  Graph, Call, Site, Registrar, blueprint_finalizer, parse_routing, build_graph, publish,
  add_finalizer, reconcile_blueprint,
}
use krop_controller.Registrar.Reconcile.Announced.{
  announcement, site_of_continue, or_fail-ok, publish_graph-Announces,
}

value_of_continue :
    {W A B : Type 0} (x : Result A) (b b' : B) (t : Site W)
    → (continue x (λ _. pure b) t).0 ≡ ok b'
    → b ≡ b'
value_of_continue (ok a) b b' t h = cc
value_of_continue (err e) b b' t h = cc

-- What a publish reads of a blueprint.
abbrev pub SameSpec : Blueprint → Blueprint → Type 0
SameSpec bp bp' = (bp.name ≡ bp'.name) × (bp.spec ≡ bp'.spec) × (bp.status ≡ bp'.status)

module _ {W : Type 0} (digest : Text → Text) (marshal : BlueprintSpec → Result Text)
    (build : Text → KroSpec → W → Result Graph) (convert : Crd → Text → Result Schema)
    (set_condition : List Condition → Condition → List Condition) (error_text : Error → Text)
    (r : Registrar W) where
  module _ (hooked : r.has_on_published ≡ true) where
    -- The graph is cached for the hash, whether it was there or is built.
    build_graph-caches :
        (bp : Blueprint) (hash : Text) (spec : KroSpec) (g : Graph) (s : Site W)
        → let run =
            build_graph digest marshal build convert set_condition error_text r bp hash spec s in
          run.0 ≡ ok g
          → (get_graph r.workspace bp.name hash run.1.cache ≡ some g) × (run.1.calls ≡ s.calls)
    unfolding build_graph
    build_graph-caches bp hash spec g s h = go (get_graph r.workspace bp.name hash s.cache) refl
      where
        run : Result Graph × Site W
        run = build_graph digest marshal build convert set_condition error_text r bp hash spec s

        go :
            (o : Option Graph)
            → get_graph r.workspace bp.name hash s.cache ≡ o
            → (get_graph r.workspace bp.name hash run.1.cache ≡ some g) × (run.1.calls ≡ s.calls)
        go (some cached) q = ground (arith, q, h)
        go none q = ground (arith, q, h, get_graph-put_self r.workspace bp.name hash g s.cache)

    -- What a reconcile of `bp` that asks for a resync has announced.
    abbrev pub HasAnnounced : Blueprint → Site W → Site W → Type 0
    HasAnnounced bp s end =
        (hash : Text) × (g : Graph) × (routing : Routing) × (ars : Schema) × (spec_hash digest
            marshal bp.spec
          ≡ ok hash)
        × (parse_routing (to_kro bp.spec).1 ≡ ok routing)
        × (build_ars convert g.crd hash ≡ ok ars)
        × (get_graph r.workspace bp.name hash end.cache ≡ some g)
        × (end.calls ≡ s.calls ++ (announcement bp hash g routing ars ∷ []))

    publish-HasAnnounced :
        (bp : Blueprint) (s : Site W)
        → let run = publish digest marshal build convert set_condition error_text r bp s in
          run.0 ≡ ok true → HasAnnounced bp s run.1
    unfolding publish
    publish-HasAnnounced bp s h =
        let (hash, hashed, q) =
          or_fail-ok digest marshal build convert set_condition error_text r bp _ _ _ s true h in
        let h' = ap (λ (t : Result Bool × Site W). t.0) (sym q) ∙ h in
        let (g, built, q') =
          or_fail-ok digest marshal build convert set_condition error_text r bp _ _ _ s true h' in
        let (cached, kept_calls) = build_graph-caches bp hash (to_kro bp.spec).0 g s built in
        let (routing, ars, (parsed, converted), announced, kept_cache) =
          publish_graph-Announces digest marshal build convert set_condition error_text r hooked bp
            hash (to_kro bp.spec).1 g _ (ap (λ (t : Result Bool × Site W). t.0) (sym q') ∙ h') in
        subst (λ (t : Result Bool × Site W). HasAnnounced bp s t.1) (sym (q ∙ q'))
          (
            hash,
            g,
            routing,
            ars,
            hashed,
            parsed,
            converted,
            ap (get_graph r.workspace bp.name hash) kept_cache ∙ cached,
            announced
                ∙ ap (λ (cs : List Call). cs ++ (announcement bp hash g routing ars ∷ []))
                    kept_calls,
          )

    -- A new finalizer changes nothing that a publish reads.
    pub add_finalizer-keeps :
        (bp : Blueprint) (s : Site W) (bp' : Blueprint)
        → let run = add_finalizer digest marshal build convert set_condition error_text r bp s in
          run.0 ≡ ok bp' → SameSpec bp bp' × (run.1.calls ≡ s.calls)
    unfolding add_finalizer
    add_finalizer-keeps bp s bp' = elim (Bool-cases (contains bp.finalizers blueprint_finalizer)) [
      | inl held ↦ rw held λ h. ((cc, cc, cc), refl)
      | inr free ↦ rw free λ h.
          let e = value_of_continue _ _ bp' _ h in
          (
            (
              ap (λ (b : Blueprint). b.name) e,
              ap (λ (b : Blueprint). b.spec) e,
              ap (λ (b : Blueprint). b.status) e,
            ),
            ap (λ (t : Site W). t.calls) (site_of_continue _ _ _),
          )
    ]

    HasAnnounced-same :
        (bp bp' : Blueprint) (s s' end : Site W)
        → SameSpec bp bp'
        → s'.calls ≡ s.calls
        → HasAnnounced bp' s' end
        → HasAnnounced bp s end
    HasAnnounced-same bp bp' s s' end same e
          (hash, g, routing, ars, hashed, parsed, converted, cached, announced) =
        (
          hash,
          g,
          routing,
          ars,
          ap (spec_hash digest marshal) same.1 ∙ hashed,
          ap (λ (spec : BlueprintSpec). parse_routing (to_kro spec).1) same.1 ∙ parsed,
          converted,
          ap (λ (n : Text). get_graph r.workspace n hash end.cache) same.0 ∙ cached,
          announced
              ∙ ap (λ (cs : List Call). cs ++ (announcement bp' hash g routing ars ∷ [])) e
              ∙ ap
                  (λ (st : BlueprintStatus).
                    s.calls ++ (announcement (record bp' { status = st }) hash g routing ars ∷ []))
                  (sym same.2),
        )

    finalized_publish-HasAnnounced :
        (bp : Blueprint) (s : Site W)
        → let add = add_finalizer digest marshal build convert set_condition error_text r bp in
          let go_on = publish digest marshal build convert set_condition error_text r in
          ((add >>= go_on) s).0 ≡ ok true → HasAnnounced bp s ((add >>= go_on) s).1
    finalized_publish-HasAnnounced bp s h =
        let add = add_finalizer digest marshal build convert set_condition error_text r bp in
        let go_on = publish digest marshal build convert set_condition error_text r in
        let (bp', added, q) = bind-ok add go_on s h in
        let (same, kept_calls) = add_finalizer-keeps bp s bp' added in
        HasAnnounced-same bp bp' s (add s).1 ((add >>= go_on) s).1 same kept_calls (
          subst (λ (t : Result Bool × Site W). HasAnnounced bp' (add s).1 t.1) (sym q)
            (publish-HasAnnounced bp' (add s).1
              (ap (λ (t : Result Bool × Site W). t.0) (sym q) ∙ h)))

    -- A reconcile that asks for a resync is that of a live blueprint. It has called `OnPublished` once and
    -- no other hook, with a graph that the cache has for the hash of the blueprint's spec, the routing of
    -- that spec and the schema of that graph.
    pub reconcile_blueprint-HasAnnounced :
        (bp : Blueprint) (s : Site W)
        → let run =
            reconcile_blueprint digest marshal build convert set_condition error_text r bp s in
          run.0 ≡ ok true → HasAnnounced bp s run.1
    unfolding reconcile_blueprint
    reconcile_blueprint-HasAnnounced bp s = go bp.deletion_timestamp refl
      where
        go :
            (d : Option ℕ)
            → bp.deletion_timestamp ≡ d
            → let run =
                reconcile_blueprint digest marshal build convert set_condition error_text r bp s in
              run.0 ≡ ok true → HasAnnounced bp s run.1
        go (some t) q =
            rw (q, reconcile_blueprint) λ h. absurd (cc (value_of_continue _ false true _ h))
        go none q = rw (q, reconcile_blueprint) (finalized_publish-HasAnnounced bp s)
