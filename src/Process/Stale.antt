-- ===== src/Process/Stale.antt =====
-- What the status of a blueprint has to do with the blueprint that is served: the registrar's `changed`
-- (internal/registrar/registrar.go) and `OnPublished` (cmd/controller/main.go).
use krop_controller.Base.{
  ℕ, Text, text_eq, ◌==◌, ◌≡◌, refl, ap, ◌∙◌, Bool, true, false, not, some, List, [], ◌∷◌, ◌++◌,
  arith,
}
use krop_controller.Base.Bytes.{byte_eq}
use krop_controller.Base.Dict.{lookup}
use krop_controller.Base.Result.{Error, Result}
use krop_controller.Api.Object.{Condition}
use krop_controller.Api.Blueprint.{Blueprint, BlueprintSpec, KroSpec}
use krop_controller.Engine.Route.{Routing}
use krop_controller.Registrar.Publish.{Schema, Crd}
use krop_controller.Registrar.Reconcile.{Graph, Call, published, Site, Registrar, report_published}
use krop_controller.Registrar.Reconcile.Announced.{instance_gvk, report_published-announces}
use krop_controller.Supervisor.{Supervisor}
use krop_controller.Process.{ServedBlueprint, get_served, idle, Process, Run}
use krop_controller.Process.Recorded.{Run-IsRecorded}
use krop_controller.Process.Hook.{after, offer, Run-after, after-published, after-unchanged}

module _ {W : Type 0} (digest : Text → Text) (marshal : BlueprintSpec → Result Text)
    (build : Text → KroSpec → W → Result Graph) (convert : Crd → Text → Result Schema)
    (set_condition : List Condition → Condition → List Condition) (error_text : Error → Text)
    (r : Registrar W) where
  -- Where the status of a blueprint names the hash that its spec has, as after an edit that was taken back
  -- and whose pass could not update the status, the pass calls `OnPublished` as unchanged, whether its own
  -- status update succeeds or not: the registry gets the new graph, and a running manager goes on with
  -- whatever it serves.
  pub report_published-keeps_stale :
      (bp : Blueprint) (hash : Text) (g : Graph) (routing : Routing) (ars : Schema) (s : Site W)
      (h : List Call) (p : Process) (e : ℕ) (x : ServedBlueprint)
      → r.has_on_published ≡ true
      → bp.status.observed_spec_hash ≡ hash
      → Run h p
      → p.pc ≡ idle
      → let export = ars.plural ++ (b'.' ∷ ars.group) in
        lookup e p.supervisor.managers ≡ some (record { export = export; cancelled = false })
        → lookup e p.serving ≡ some x
        → (c : Call) × ((report_published digest marshal build convert set_condition error_text r bp
              hash g routing ars s).1.calls
            ≡ s.calls ++ (c ∷ []))
          × Run (c ∷ h) (after c p)
          × (lookup e (after c p).supervisor.managers
              ≡ some (record { export = export; cancelled = false }))
          × (lookup e (after c p).serving ≡ some x)
          × (sb : ServedBlueprint) × (get_served export (after c p).registry ≡ some sb)
          × (sb.graph ≡ g)
  report_published-keeps_stale bp hash g routing ars s h p e x hooked same run quiet there serves =
      let export = ars.plural ++ (b'.' ∷ ars.group) in
      let kind = instance_gvk g ars in
      let entered = (Run-IsRecorded run).tidy.live_entered e _ there refl in
      let (announced, _) =
        report_published-announces digest marshal build convert set_condition error_text r hooked bp
          hash g routing ars s in
      let unchanged : not (bp.status.observed_spec_hash == hash) ≡ false = ground (arith, same) in
      let (supervised, served) = after-unchanged export kind g routing p e entered in
      let (_, _, offered) = after-published export kind g routing p false in
      (
        published export kind g routing false,
        announced
            ∙ ap (λ (b : Bool). s.calls ++ (published export kind g routing b ∷ [])) unchanged,
        Run-after _ h p run quiet,
        ap (λ (t : Supervisor). lookup e t.managers) supervised ∙ there,
        ap (lookup e) served ∙ serves,
        offer export kind g routing p,
        offered,
        refl,
      )
