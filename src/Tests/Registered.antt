-- ===== src/Tests/Registered.antt =====
-- The registrar, its hooks and the supervisor together, at concrete inputs.
use krop_controller.Base.{Text, text_eq, ◌≡◌, refl, true, false, none, some, List, [], ◌∷◌, ◌++◌}
use krop_controller.Base.Bytes.{codes, byte_eq}
use krop_controller.Base.Dict.{lookup}
use krop_controller.Base.Result.{Result, ok}
use krop_controller.Api.Object.{Condition, gr_eq}
use krop_controller.Api.Blueprint.{Blueprint, KroSpec, to_kro, split_resources}
use krop_controller.Engine.Route.{parse_target, target_for_node, target_eq}
use krop_controller.Registrar.Cache.{get_graph, put_graph}
use krop_controller.Registrar.Publish.{
  Schema, delete_published_api, after_get_export, delete_export_schema, spec_hash, build_ars,
  apply_ars, after_get_schema, identity_by_group_resource, upsert_api_export,
}
use krop_controller.Registrar.Reconcile.{
  Graph, Call, Site, parse_routing, report_published, go_on_or_fail, or_fail, withdraw,
  release_blueprint, tear_down, publish_claims, publish_schema, publish_graph, build_graph, publish,
  add_finalizer, reconcile_blueprint, register,
}
use krop_controller.Registrar.Reconcile.Announced.{instance_gvk}
use krop_controller.Registrar.Order.{insert_sorted, sort_stable}
use krop_controller.Registrar.Claims.{
  to_claims, collapse, concat_claims, merge_sorted, collect_foreign, foreign_consumer_grs,
  derive_claims, merge_claims, blueprint_claims, validate_claims,
}
use krop_controller.Controller.Reconcile.{remove_string}
use krop_controller.Supervisor.{is_running, ensure, stop}
use krop_controller.Process.{ServedBlueprint, get_served, idle, Run, finish_hook, advance}
use krop_controller.Process.Hook.{after}
use krop_controller.Process.Stale.{report_published-keeps_stale}
use krop_controller.Process.Registered.{register-serves, tear_down-stops}
use krop_controller.Tests.Sample.{twelve, agent_node, config_node, database_gr}
use krop_controller.Tests.Process.{name, a_served, live, history, served, ended, served-Run}
use krop_controller.Tests.Workspace.{
  Workspace, memory_provider, registrar, marshal, convert, no_text, the_blueprint, start,
  the_schema, held, exported_there,
}

abbrev in_front : List Condition → Condition → List Condition
in_front cs c = c ∷ cs

-- A graph with a child for the consumer.
abbrev another_graph : Graph
another_graph = record {
  nodes = agent_node ∷ config_node ∷ [];
  instance_gr = database_gr;
  crd = some (record { version = codes "v1"; body = [] });
}

abbrev build : Text → KroSpec → Workspace → Result Graph
build _ _ _ = ok another_graph

abbrev an_edited : Blueprint
an_edited = record the_blueprint { deletion_timestamp = none }

manager_there : lookup 0 served.supervisor.managers ≡ some live
unfolding finish_hook advance ensure stop text_eq byte_eq
manager_there = refl

serving_it : lookup 0 served.serving ≡ some a_served
unfolding finish_hook advance byte_eq
serving_it = refl

report_published-keeps_stale_example :
    (c : Call) × ((report_published twelve marshal build convert in_front no_text registrar
        an_edited [] another_graph [] the_schema start).1.calls
      ≡ c ∷ [])
    × Run (c ∷ history) (after c served)
    × (lookup 0 (after c served).supervisor.managers ≡ some live)
    × (lookup 0 (after c served).serving ≡ some a_served)
    × (sb : ServedBlueprint) × (get_served name (after c served).registry ≡ some sb)
    × (sb.graph ≡ another_graph)
report_published-keeps_stale_example =
    report_published-keeps_stale twelve marshal build convert in_front no_text registrar an_edited
      [] another_graph [] the_schema start history served 0 a_served refl refl served-Run ended
      manager_there serving_it

torn_down :
    (tear_down twelve marshal build convert in_front no_text registrar the_blueprint start).0
    ≡ ok tt
unfolding tear_down withdraw release_blueprint delete_published_api after_get_export
    delete_export_schema remove_string memory_provider text_eq
torn_down = refl

tear_down-stops_example :
    (c : Call) × ((tear_down twelve marshal build convert in_front no_text registrar the_blueprint
        start).1.calls
      ≡ c ∷ [])
    × Run (c ∷ history) (after c served)
    × ((after c served).pc ≡ idle)
    × (is_running (codes "databases.db") (after c served).supervisor ≡ false)
    × (get_served (codes "databases.db") (after c served).registry ≡ none)
tear_down-stops_example =
    tear_down-stops twelve marshal build convert in_front no_text registrar start the_blueprint
      history served refl held exported_there torn_down served-Run ended

abbrev publishing : Site Workspace
publishing = record {
  world = record {
    blueprints = (codes "databases", an_edited) ∷ [];
    schemas = [];
    exports = [];
    doomed = [];
  };
  cache = [];
  calls = [];
}

there : memory_provider.get_blueprint (codes "databases") publishing.world ≡ ok an_edited
unfolding memory_provider text_eq
there = refl

published_ok :
    (register twelve marshal build convert in_front no_text registrar
      (codes "databases")
      publishing).0
    ≡ ok true
unfolding register reconcile_blueprint add_finalizer publish spec_hash to_kro split_resources
    build_graph get_graph put_graph publish_graph parse_routing parse_target build_ars
    publish_schema apply_ars after_get_schema identity_by_group_resource publish_claims
    blueprint_claims foreign_consumer_grs collect_foreign derive_claims merge_claims validate_claims
    upsert_api_export report_published or_fail go_on_or_fail target_for_node target_eq
    memory_provider text_eq gr_eq merge_sorted sort_stable concat_claims to_claims insert_sorted
    collapse
published_ok = refl

register-serves_example :
    let end =
      (register twelve marshal build convert in_front no_text registrar
        (codes "databases")
        publishing).1 in
    (c : Call) × (export : Text) × (sb : ServedBlueprint) × (hash : Text) × (ars : Schema)
    × (end.calls ≡ c ∷ [])
    × Run (c ∷ history) (after c served)
    × ((after c served).pc ≡ idle)
    × (is_running export (after c served).supervisor ≡ true)
    × (get_served export (after c served).registry ≡ some sb)
    × (spec_hash twelve marshal an_edited.spec ≡ ok hash)
    × (get_graph (codes "root") (codes "databases") hash end.cache ≡ some sb.graph)
    × (build_ars convert sb.graph.crd hash ≡ ok ars)
    × (export ≡ ars.plural ++ (b'.' ∷ ars.group))
    × (parse_routing (to_kro an_edited.spec).1 ≡ ok sb.routing)
    × (sb.gvk ≡ instance_gvk sb.graph ars)
register-serves_example =
    register-serves twelve marshal build convert in_front no_text registrar (codes "databases")
      publishing an_edited history served refl there published_ok served-Run ended
