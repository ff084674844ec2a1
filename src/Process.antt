-- ===== src/Process.antt =====
-- cmd/controller/main.go: the process that the hooks of the registrar and the goroutines of the managers
-- share. A hook's body is cut at each call that takes a lock, and the goroutines run in between; one
-- hook runs at a time, since the registrar's controller has one worker.
pub mod Recorded
pub mod Offered
pub mod Latest
pub mod Hook
pub mod Stale
pub mod Registered
pub mod Workspace
pub mod Passes
pub mod Serve
pub mod Setup
use krop_controller.Base.{
  ℕ, Text, text_eq, ◌==◌, if◌then◌else◌, ◌≡◌, Bool, Option, none, some, List, [], ◌∷◌, ◌++◌,
}
use krop_controller.Base.Bytes.{codes, byte_eq}
use krop_controller.Base.Dict.{Dict, lookup, insert, erase}
use krop_controller.Base.Result.{Result, ok, err, failure}
use krop_controller.Api.Object.{Gvk}
use krop_controller.Engine.Route.{Routing}
use krop_controller.Registrar.Reconcile.{Graph, Call, published, withdrawn}
use krop_controller.Supervisor.{Manager, Supervisor, new, ensure, stop, return_manager}

-- `servedBlueprint`
pub record ServedBlueprint : Type 0 where
  pub graph : Graph
  pub gvk : Gvk
  pub routing : Routing

-- `published`, without its lock, and its `Get`, `Set` and `Delete`
abbrev pub Published : Type 0
Published = Dict Text ServedBlueprint

abbrev pub get_served : Text → Published → Option ServedBlueprint
get_served export p = lookup export p

abbrev pub set_served : Text → ServedBlueprint → Published → Published
set_served export sb p = insert export sb p

abbrev pub delete_served : Text → Published → Published
delete_served export p = erase export p

-- Where the running hook stands: at `registry.Set`, `sup.Stop` and `sup.Ensure` of `OnPublished`, or at
-- `sup.Stop` and `registry.Delete` of `OnDeleted`.
pub data Pc : Type 0 where
  idle : Pc
  setting : Text → ServedBlueprint → Bool → Pc
  stopping ensuring withdrawing deleting : Text → Pc

-- `serving` is what each goroutine has read of the registry.
pub record Process : Type 0 where
  pub registry : Published
  pub supervisor : Supervisor
  pub serving : Dict ℕ ServedBlueprint
  pub pc : Pc

abbrev pub booted : Process
booted = record { registry = []; supervisor = new; serving = []; pc = idle }

-- The entry of a hook: the parameters of `OnPublished`, and the test of `OnDeleted`.
abbrev pub enter : Call → Pc
enter (published export gvk g routing changed) =
    setting export (record { graph = g; gvk = gvk; routing = routing }) changed
enter (withdrawn export) = if export == [] then idle else withdrawing export

-- The next call of the running hook.
abbrev pub advance_at : Pc → Process → Process
advance_at idle p = p
advance_at (setting export sb changed) p = record p {
  registry = set_served export sb p.registry;
  pc = if changed then stopping export else ensuring export;
}
advance_at (stopping export) p = record p {
  supervisor = stop export p.supervisor;
  pc = ensuring export;
}
advance_at (ensuring export) p = record p { supervisor = ensure export p.supervisor; pc = idle }
advance_at (withdrawing export) p = record p {
  supervisor = stop export p.supervisor;
  pc = deleting export;
}
advance_at (deleting export) p = record p { registry = delete_served export p.registry; pc = idle }

unfoldable pub advance : Process → Process
advance p = advance_at p.pc p

-- The hook runs to its end, with no goroutine in between.
unfoldable pub finish_hook : Process → Process
finish_hook p = advance (advance (advance p))

-- The head of `startFn`
unfoldable pub recorded_blueprint : Text → Published → Result ServedBlueprint
recorded_blueprint export registry = elim (get_served export registry) [
  | none ↦ err (failure (codes "no served blueprint recorded for export " ++ export))
  | some sb ↦ ok sb
]

abbrev pub read_by : ℕ → ServedBlueprint → Process → Process
read_by e sb p = record p { serving = insert e sb p.serving }

abbrev pub returned_by : ℕ → Manager → Process → Process
returned_by e m p = record p {
  supervisor = return_manager e m p.supervisor;
  serving = erase e p.serving;
}

-- The states that the hooks' calls, the newest first, and the goroutines lead to. A goroutine reads the
-- registry once, and returns at any time, for any reason.
pub data Run : List Call → Process → Type 0 where
  boots : Run [] booted
  calls :
      (c : Call) (h : List Call) (p : Process)
      → Run h p
      → p.pc ≡ idle
      → Run (c ∷ h) (record p { pc = enter c })
  advances : (h : List Call) (p : Process) → Run h p → Run h (advance p)
  reads :
      (e : ℕ) (m : Manager) (sb : ServedBlueprint) (h : List Call) (p : Process)
      → Run h p
      → lookup e p.supervisor.managers ≡ some m
      → lookup e p.serving ≡ none
      → recorded_blueprint m.export p.registry ≡ ok sb
      → Run h (read_by e sb p)
  returns :
      (e : ℕ) (m : Manager) (h : List Call) (p : Process)
      → Run h p
      → lookup e p.supervisor.managers ≡ some m
      → Run h (returned_by e m p)
