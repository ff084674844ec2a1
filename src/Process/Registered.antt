-- ===== src/Process/Registered.antt =====
-- The registrar (internal/registrar/registrar.go), its hooks and the supervisor (cmd/controller/main.go)
-- together.
use krop_controller.Base.{
  Text, text_eq, ◌==◌, contains, ◌≡◌, ◌≢◌, refl, ap, ◌∙◌, true, false, not, none, some, List, [],
  ◌∷◌, ◌++◌, arith, Bool-cases, inl, inr,
}
use krop_controller.Base.Result.{Error, Result, ok, ◌>>◌}
use krop_controller.Base.Stable.{bind-ok}
use krop_controller.Api.Object.{Condition}
use krop_controller.Api.Blueprint.{Blueprint, BlueprintSpec, KroSpec, to_kro}
use krop_controller.Registrar.Cache.{get_graph}
use krop_controller.Registrar.Publish.{Schema, Crd, build_ars, spec_hash}
use krop_controller.Registrar.Reconcile.{
  Graph, Call, withdrawn, Site, Registrar, blueprint_finalizer, parse_routing, withdraw,
  release_blueprint, tear_down, register,
}
use krop_controller.Registrar.Reconcile.Announced.{announcement, instance_gvk}
use krop_controller.Registrar.Reconcile.Resync.{reconcile_blueprint-HasAnnounced}
use krop_controller.Supervisor.{is_running}
use krop_controller.Process.{ServedBlueprint, get_served, idle, Process, Run}
use krop_controller.Process.Hook.{after, offer, Run-after, after-published, after-withdrawn}

module _ {W : Type 0} (digest : Text → Text) (marshal : BlueprintSpec → Result Text)
    (build : Text → KroSpec → W → Result Graph) (convert : Crd → Text → Result Schema)
    (set_condition : List Condition → Condition → List Condition) (error_text : Error → Text)
    (r : Registrar W) where
  -- A reconcile of a blueprint that asks for the resync has called one hook. Once that call has ended,
  -- in whatever state of the process it began, the export is running whose name is the plural and the
  -- group, joined by a dot, of the schema that the graph's definition is converted to. What the registry
  -- has for it is the graph that the cache has for the hash of the blueprint's spec, the routing that the
  -- targets in the spec are converted to, and the group and kind of that schema with the version of the
  -- graph's definition.
  pub register-serves :
      (name : Text) (s : Site W) (bp : Blueprint) (h : List Call) (p : Process)
      → r.has_on_published ≡ true
      → r.client.get_blueprint name s.world ≡ ok bp
      → let run = register digest marshal build convert set_condition error_text r name s in
        run.0 ≡ ok true
        → Run h p
        → p.pc ≡ idle
        → (c : Call) × (export : Text) × (sb : ServedBlueprint) × (hash : Text) × (ars : Schema)
          × (run.1.calls ≡ s.calls ++ (c ∷ []))
          × Run (c ∷ h) (after c p)
          × ((after c p).pc ≡ idle)
          × (is_running export (after c p).supervisor ≡ true)
          × (get_served export (after c p).registry ≡ some sb)
          × (spec_hash digest marshal bp.spec ≡ ok hash)
          × (get_graph r.workspace bp.name hash run.1.cache ≡ some sb.graph)
          × (build_ars convert sb.graph.crd hash ≡ ok ars)
          × (export ≡ ars.plural ++ (b'.' ∷ ars.group))
          × (parse_routing (to_kro bp.spec).1 ≡ ok sb.routing)
          × (sb.gvk ≡ instance_gvk sb.graph ars)
  unfolding register
  register-serves name s bp h p hooked found =
      rw (found, register)
        λ done reach quiet.
          let (hash, g, routing, ars, hashed, parsed, converted, cached, announced) =
            reconcile_blueprint-HasAnnounced digest marshal build convert set_condition error_text r
              hooked bp s done in
          let export = ars.plural ++ (b'.' ∷ ars.group) in
          let changed = not (bp.status.observed_spec_hash == hash) in
          let (ended, running, offered) =
            after-published export (instance_gvk g ars) g routing p changed in
          (
            announcement bp hash g routing ars,
            export,
            offer export (instance_gvk g ars) g routing p,
            hash,
            ars,
            announced,
            Run-after _ h p reach quiet,
            ended,
            running,
            offered,
            hashed,
            cached,
            converted,
            refl,
            parsed,
            refl,
          )

  withdraw-calls :
      (bp : Blueprint) (s : Site W)
      → (withdraw digest marshal build convert set_condition error_text r bp s).1.calls ≡ s.calls
  unfolding withdraw
  withdraw-calls bp s = elim (Bool-cases (bp.status.exported_api == [])) [
    | inl unpublished ↦ rw unpublished refl
    | inr there ↦ rw there refl
  ]

  release_blueprint-calls :
      (bp : Blueprint) (s : Site W)
      → r.has_on_deleted ≡ true
      → bp.status.exported_api ≢ []
      → (release_blueprint digest marshal build convert set_condition error_text r bp s).1.calls
        ≡ s.calls ++ (withdrawn bp.status.exported_api ∷ [])
  unfolding release_blueprint
  release_blueprint-calls bp s hooked named =
      let there : (bp.status.exported_api == []) ≡ false = ground (arith, named) in
      rw (hooked, there) refl

  withdraw_release-calls :
      (s : Site W) (bp : Blueprint)
      → r.has_on_deleted ≡ true
      → bp.status.exported_api ≢ []
      → let both =
          withdraw digest marshal build convert set_condition error_text r bp
          >> release_blueprint digest marshal build convert set_condition error_text r bp in
        (both s).0 ≡ ok tt → (both s).1.calls ≡ s.calls ++ (withdrawn bp.status.exported_api ∷ [])
  withdraw_release-calls s bp hooked named done =
      let first = withdraw digest marshal build convert set_condition error_text r bp in
      let (_, _, q) =
        bind-ok first
          (λ _. release_blueprint digest marshal build convert set_condition error_text r bp) s
          done in
      ap (λ (t : Result (Unit {0}) × Site W). t.1.calls) q
      ∙ release_blueprint-calls bp (first s).1 hooked named
      ∙ ap (λ (cs : List Call). cs ++ (withdrawn bp.status.exported_api ∷ [])) (withdraw-calls bp s)

  -- The teardown of a published blueprint that reports no error has called one hook. Once that call has
  -- ended, the export is not running and the registry has nothing for it.
  pub tear_down-stops :
      (s : Site W) (bp : Blueprint) (h : List Call) (p : Process)
      → r.has_on_deleted ≡ true
      → contains bp.finalizers blueprint_finalizer ≡ true
      → bp.status.exported_api ≢ []
      → let run = tear_down digest marshal build convert set_condition error_text r bp s in
        run.0 ≡ ok tt
        → Run h p
        → p.pc ≡ idle
        → (c : Call) × (run.1.calls ≡ s.calls ++ (c ∷ []))
          × Run (c ∷ h) (after c p)
          × ((after c p).pc ≡ idle)
          × (is_running bp.status.exported_api (after c p).supervisor ≡ false)
          × (get_served bp.status.exported_api (after c p).registry ≡ none)
  unfolding tear_down
  tear_down-stops s bp h p hooked held named = rw held λ done reach quiet.
      let (ended, stopped, dropped) = after-withdrawn bp.status.exported_api p named in
      (
        withdrawn bp.status.exported_api,
        withdraw_release-calls s bp hooked named done,
        Run-after _ h p reach quiet,
        ended,
        stopped,
        dropped,
      )
