-- ===== src/Tests/Process.antt =====
-- The process of cmd/controller at concrete inputs.
use krop_controller.Base.{
  ℕ, Text, text_eq, ◌==◌, if◌then◌else◌, ◌≡◌, ◌≢◌, refl, true, false, none, some, List, [], ◌∷◌,
  ◌++◌, All, length, ◌≤◌, arith,
}
use krop_controller.Base.Bytes.{codes, byte_eq, cut, strip_prefix, has}
use krop_controller.Base.Dict.{lookup}
use krop_controller.Base.Result.{ok}
use krop_controller.Kcp.{clusters_path, validate_kubeconfig}
use krop_controller.Registrar.Reconcile.{Graph, Call, published}
use krop_controller.Supervisor.{Manager, ensure, stop, is_running}
use krop_controller.Process.{
  ServedBlueprint, get_served, idle, Process, booted, advance, finish_hook, recorded_blueprint,
  read_by, Run, boots, reads,
}
use krop_controller.Process.Hook.{after, Run-after}
use krop_controller.Process.Latest.{serving-latest}
use krop_controller.Process.Offered.{latest, IsHonest}
use krop_controller.Process.Recorded.{recorded_blueprint-Run}
use krop_controller.Process.Workspace.{
  provider_workspace_name, IsPath, provider_workspace_name-IsSegment,
}
use krop_controller.Tests.Sample.{agent_node, database_gvk, database_gr}

abbrev pub name : Text
name = codes "databases.db"

abbrev pub a_graph : Graph
a_graph = record { nodes = agent_node ∷ []; instance_gr = database_gr; crd = none }

abbrev pub first_call : Call
first_call = published name database_gvk a_graph [] true

abbrev pub history : List Call
history = first_call ∷ []

abbrev pub a_served : ServedBlueprint
a_served = record { graph = a_graph; gvk = database_gvk; routing = [] }

abbrev pub ensured : Process
ensured = after first_call booted

abbrev pub served : Process
served = read_by 0 a_served ensured

abbrev pub live : Manager
live = record { export = name; cancelled = false }

manager_there : lookup 0 ensured.supervisor.managers ≡ some live
unfolding finish_hook advance ensure stop text_eq byte_eq
manager_there = refl

not_yet : lookup 0 ensured.serving ≡ none
unfolding finish_hook advance
not_yet = refl

finds_it : recorded_blueprint name ensured.registry ≡ ok a_served
unfolding recorded_blueprint finish_hook advance text_eq
finds_it = refl

pub ended : served.pc ≡ idle
unfolding finish_hook advance
ended = refl

pub ensured-Run : Run history ensured
ensured-Run = Run-after first_call [] booted boots refl

pub served-Run : Run history served
served-Run = reads 0 live a_served history ensured ensured-Run manager_there not_yet finds_it

honest : IsHonest history
honest = ((λ e sb h. cc), tt)

serving-latest_example :
    (get_served name served.registry ≡ latest history name)
    × (is_running name served.supervisor ≡ true
        → (sb : ServedBlueprint) × (latest history name ≡ some sb))
    × ((e : ℕ) (x : ServedBlueprint)
        → lookup e served.supervisor.managers ≡ some (record { export = name; cancelled = false })
        → lookup e served.serving ≡ some x
        → latest history name ≡ some x)
serving-latest_example = serving-latest history served name served-Run honest ended

recorded_blueprint-Run_example :
    (sb : ServedBlueprint) × (recorded_blueprint name ensured.registry ≡ ok sb)
recorded_blueprint-Run_example =
    recorded_blueprint-Run history ensured 0 live ensured-Run manager_there refl

abbrev host : Text
host = codes "https://kcp/clusters/root:db/x"

abbrev IsByte : ℕ → Type 0
IsByte x = x ≤ 255

scoped : validate_kubeconfig host ≡ ok tt
unfolding validate_kubeconfig has cut strip_prefix byte_eq
scoped = refl

host_bytes : All IsByte host
host_bytes = omega arith

provider_workspace_name-IsSegment_example :
    All IsByte (provider_workspace_name host)
    × (before : Text) × (n : Text) × (rest : Text) × (host
        ≡ before ++ (clusters_path ++ (n ++ rest)))
    × All (λ x. x ≢ b'/') n
    × IsPath rest
    × ((a b : Text) → host ≡ a ++ (clusters_path ++ b) → length before ≤ length a)
    × (provider_workspace_name host ≡ (if n == [] then host else n))
provider_workspace_name-IsSegment_example =
    provider_workspace_name-IsSegment host IsByte scoped host_bytes
