-- ===== src/Process/Passes/Whole.antt =====
-- A whole pass of the registrar, for a blueprint that is found or not, live or being deleted.
use krop_controller.Base.{
  ℕ, Text, text_eq, ◌==◌, if◌then◌else◌, contains, ◌≡◌, inl, inr, refl, ap, ◌∙◌, subst, sym, Bool,
  true, false, Option, none, some, List, [], ◌∷◌, ◌++◌, arith, Bool-cases,
}
use krop_controller.Base.Result.{Error, Result, ok, err, continue, Prog, pure, ◌>>=◌}
use krop_controller.Base.Stable.{Stable}
use krop_controller.Api.Object.{Condition}
use krop_controller.Api.Blueprint.{Blueprint, BlueprintSpec, BlueprintStatus, KroSpec}
use krop_controller.Registrar.Cache.{GraphCache, delete_graph}
use krop_controller.Registrar.Cache.Laws.{get_graph-delete_here}
use krop_controller.Registrar.Publish.{Schema, Crd, spec_hash, delete_published_api}
use krop_controller.Registrar.Reconcile.{
  Graph, Call, withdrawn, Site, Registrar, blueprint_finalizer, withdraw, release_blueprint,
  tear_down, publish, add_finalizer, reconcile_blueprint, register,
}
use krop_controller.Registrar.Reconcile.Resync.{add_finalizer-keeps}
use krop_controller.Process.Passes.{Mark, mark_of, IsMarked}
use krop_controller.Process.Passes.Announces.{publish-Ends}
use krop_controller.Process.Passes.Calls.{delete_published_api-IsUnmoved}
use krop_controller.Process.Passes.Publishes.{quiet-at_site, quiet-world}
use krop_controller.Process.Passes.Outcome.{IsBuilt, Kept, Quiet, Outcome, quiet, withdrew, Ends}

module _ {W : Type 0} (digest : Text → Text) (marshal : BlueprintSpec → Result Text)
    (build : Text → KroSpec → W → Result Graph) (convert : Crd → Text → Result Schema)
    (set_condition : List Condition → Condition → List Condition) (error_text : Error → Text)
    (r : Registrar W) (marks : Text → W → Option Mark) (Known : Text → BlueprintSpec → Type 0)
    (marked : IsMarked marks r.client) (hooked : r.has_on_published ≡ true)
    (one_spec : (n hash : Text) (spec spec' : BlueprintSpec)
      → Known n spec
      → Known n spec'
      → spec_hash digest marshal spec ≡ ok hash
      → spec_hash digest marshal spec' ≡ ok hash
      → spec ≡ spec') where
  module _ (s0 : Site W) where
    abbrev Still : Site W → Type 0
    Still = Quiet digest marshal build convert r marks Known s0

    abbrev Over : Site W → Type 0
    Over s = (x : Result Bool) → Outcome digest marshal build convert r marks Known s0 x s

    abbrev End : Result Bool × Site W → Type 0
    End = Ends digest marshal build convert r marks Known s0

    withdraw-Quiet :
        (bp : Blueprint)
        → Stable Still (withdraw digest marshal build convert set_condition error_text r bp)
    unfolding withdraw
    withdraw-Quiet bp s q = elim (Bool-cases (bp.status.exported_api == [])) [
      | inl none_there ↦ rw none_there q
      | inr there ↦ rw there (
          quiet-at_site digest marshal build convert set_condition error_text r marks Known marked
            hooked one_spec s0 (delete_published_api r.client bp.status.exported_api)
            (delete_published_api-IsUnmoved r marks marked _) s q)
    ]

    delete_graph-IsBuilt :
        (n : Text) (cache : GraphCache Graph)
        → IsBuilt digest marshal build convert r marks Known cache
        → IsBuilt digest marshal build convert r marks Known (delete_graph r.workspace n cache)
    delete_graph-IsBuilt n cache built n' h g there =
        built n' h g (ground (arith, there, get_graph-delete_here r.workspace n n' h cache))

    -- Whether the hook is called or not.
    released-Over :
        (bp : Blueprint) (s : Site W) (w : W) (called : Bool)
        → ((n : Text) (x : Mark) → marks n w ≡ some x → marks n s.world ≡ some x)
        → Still s
        → Over (record {
          world = w;
          cache = delete_graph r.workspace bp.name s.cache;
          calls = if called then s.calls ++ (withdrawn bp.status.exported_api ∷ []) else s.calls;
        })
    released-Over bp s w called u q x = go called
      where
        kept :
            (calls : List Call)
            → Kept digest marshal build convert r marks Known s0 (record {
              world = w;
              cache = delete_graph r.workspace bp.name s.cache;
              calls = calls;
            })
        kept calls = record {
          unmoved = λ n y h. q.kept.unmoved n y (u n y h);
          cached = delete_graph-IsBuilt bp.name s.cache q.kept.cached;
        }

        go :
            (b : Bool)
            → Outcome digest marshal build convert r marks Known s0 x (record {
              world = w;
              cache = delete_graph r.workspace bp.name s.cache;
              calls = if b then s.calls ++ (withdrawn bp.status.exported_api ∷ []) else s.calls;
            })
        go true =
            withdrew bp.status.exported_api (kept _)
              (ap (λ (cs : List Call). cs ++ (withdrawn bp.status.exported_api ∷ [])) q.silent)
        go false = quiet (record { kept = kept _; silent = q.silent })

    release_blueprint-Over :
        (bp : Blueprint) (s : Site W)
        → Still s
        → Over (release_blueprint digest marshal build convert set_condition error_text r bp s).1
    unfolding release_blueprint
    release_blueprint-Over bp s q =
        released-Over bp s _ _ (λ n y h. marked.blueprint_updated _ n y s.world h) q

    tear_down-Over :
        (bp : Blueprint) (s : Site W)
        → Still s
        → Over (tear_down digest marshal build convert set_condition error_text r bp s).1
    unfolding tear_down
    tear_down-Over bp s q = elim (Bool-cases (contains bp.finalizers blueprint_finalizer)) [
      | inr free ↦ rw free λ x. quiet q
      | inl held ↦ rw held (go (first s).0 (first s).1 (withdraw-Quiet bp s q))
    ]
      where
        first : Prog (Site W) (Unit {0})
        first = withdraw digest marshal build convert set_condition error_text r bp

        go :
            (y : Result (Unit {0})) (t : Site W)
            → Still t
            → Over
                (continue y
                  (λ _.
                    release_blueprint digest marshal build convert set_condition error_text r bp)
                  t).1
        go (ok u) t q x = release_blueprint-Over bp t q x
        go (err e) t q x = quiet q

    then_pure :
        {A B : Type 0} (x : Result A) (b : B) (t : Site W)
        → Still t
        → Still (continue x (λ _. pure b) t).1
    then_pure (ok a) b t q = q
    then_pure (err e) b t q = q

    then_false :
        {A : Type 0} (x : Result A) (t : Site W) → Over t → End (continue x (λ _. pure false) t)
    then_false (ok a) t o = o (ok false)
    then_false (err e) t o = o (err e)

    add_finalizer-Quiet :
        (bp : Blueprint)
        → Stable Still (add_finalizer digest marshal build convert set_condition error_text r bp)
    unfolding add_finalizer
    add_finalizer-Quiet bp s q = elim (Bool-cases (contains bp.finalizers blueprint_finalizer)) [
      | inl held ↦ rw held q
      | inr free ↦ rw free (
          then_pure _ bp' _ (
            quiet-world digest marshal build convert set_condition error_text r marks Known marked
              hooked one_spec s0 s (r.client.update_blueprint bp' s.world).1
              (λ n y h. marked.blueprint_updated bp' n y s.world h) q))
    ]
      where
        bp' : Blueprint
        bp' = record bp { finalizers = bp.finalizers ++ (blueprint_finalizer ∷ []) }

    finalized_publish-Ends :
        (bp : Blueprint) (s : Site W)
        → marks bp.name s0.world ≡ some (mark_of bp)
        → Known bp.name bp.spec
        → Still s
        → let add = add_finalizer digest marshal build convert set_condition error_text r bp in
          let go_on = publish digest marshal build convert set_condition error_text r in
          End ((add >>= go_on) s)
    finalized_publish-Ends bp s read known q = go (add s).0 refl
      where
        add : Prog (Site W) Blueprint
        add = add_finalizer digest marshal build convert set_condition error_text r bp

        go :
            (x : Result Blueprint)
            → (add s).0 ≡ x
            → End (
                continue x
                  (publish digest marshal build convert set_condition error_text r)
                  (add s).1)
        go (err e) h = quiet (add_finalizer-Quiet bp s q)
        go (ok bp') h =
            let ((named, spec, status), _) =
              add_finalizer-keeps digest marshal build convert set_condition error_text r hooked bp
                s bp' h in
            publish-Ends digest marshal build convert set_condition error_text r marks Known marked
              hooked one_spec s0 bp'
              (ap (λ (k : Text). marks k s0.world) (sym named)
                ∙ read
                ∙ ap (λ (k : BlueprintStatus). some (mark_of (record bp { status = k }))) status)
              (subst (λ (k : Text). Known k bp'.spec) named
                (subst (λ (k : BlueprintSpec). Known bp.name k) spec known))
              (add s).1 (add_finalizer-Quiet bp s q)

    reconcile_blueprint-Ends :
        (bp : Blueprint) (s : Site W)
        → marks bp.name s0.world ≡ some (mark_of bp)
        → Known bp.name bp.spec
        → Still s
        → End (reconcile_blueprint digest marshal build convert set_condition error_text r bp s)
    unfolding reconcile_blueprint
    reconcile_blueprint-Ends bp s read known q = go bp.deletion_timestamp refl
      where
        go :
            (d : Option ℕ)
            → bp.deletion_timestamp ≡ d
            → End (reconcile_blueprint digest marshal build convert set_condition error_text r bp s)
        go none e = rw (e, reconcile_blueprint) (finalized_publish-Ends bp s read known q)
        go (some d) e = rw (e, reconcile_blueprint) (then_false _ _ (tear_down-Over bp s q))

  -- A pass from `s` ends in one of three ways, whether it succeeds or fails.
  pub register-Ends :
      (name : Text) (s : Site W)
      → IsBuilt digest marshal build convert r marks Known s.cache
      → ((bp : Blueprint) → r.client.get_blueprint name s.world ≡ ok bp → Known name bp.spec)
      → Ends digest marshal build convert r marks Known s
          (register digest marshal build convert set_condition error_text r name s)
  unfolding register
  register-Ends name s built known = go (r.client.get_blueprint name s.world) refl
    where
      start : Quiet digest marshal build convert r marks Known s s
      start = record { kept = record { unmoved = λ n x h. h; cached = built }; silent = refl }

      go :
          (x : Result Blueprint)
          → r.client.get_blueprint name s.world ≡ x
          → Ends digest marshal build convert r marks Known s
              (register digest marshal build convert set_condition error_text r name s)
      go (err e) q = rw (q, register) (quiet start)
      go (ok bp) q =
          let (named, read) = marked.found name bp s.world q in
          rw (q, register)
            (reconcile_blueprint-Ends s bp s (ap (λ (k : Text). marks k s.world) named ∙ read)
              (subst (λ (k : Text). Known k bp.spec) (sym named) (known bp q)) start)
