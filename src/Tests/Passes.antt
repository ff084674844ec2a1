-- ===== src/Tests/Passes.antt =====
-- A new blueprint, a pass, an edit of its spec and another pass, with the goroutine that follows.
use mathlib.Core.List.{reverse}
use krop_controller.Base.{
  Text, text_eq, ◌==◌, if◌then◌else◌, ◌≡◌, ◌≢◌, ◌⊎◌, inl, inr, refl, ap, subst, ◌∙◌, sym, Bool,
  true, false, Option, none, some, List, [], ◌∷◌,
}
use krop_controller.Base.Bytes.{codes, byte_eq}
use krop_controller.Base.Dict.{lookup}
use krop_controller.Base.Result.{Error, Result, ok, err}
use krop_controller.Api.Object.{Condition, gr_eq}
use krop_controller.Api.Blueprint.{Blueprint, BlueprintSpec, KroSpec, to_kro, split_resources}
use krop_controller.Engine.Route.{parse_target, target_for_node, target_eq}
use krop_controller.Registrar.Cache.{get_graph, put_graph}
use krop_controller.Registrar.Publish.{
  spec_hash, build_ars, apply_ars, after_get_schema, identity_by_group_resource, upsert_api_export,
}
use krop_controller.Registrar.Reconcile.{
  Graph, Call, published, Site, Registrar, parse_routing, report_published, go_on_or_fail, or_fail,
  publish_claims, publish_schema, publish_graph, build_graph, publish, add_finalizer,
  reconcile_blueprint, register,
}
use krop_controller.Registrar.Order.{insert_sorted, sort_stable}
use krop_controller.Registrar.Claims.{
  to_claims, collapse, concat_claims, merge_sorted, collect_foreign, foreign_consumer_grs,
  derive_claims, merge_claims, blueprint_claims, validate_claims,
}
use krop_controller.Supervisor.{Manager, ensure, stop, cancel}
use krop_controller.Process.{
  ServedBlueprint, get_served, idle, Process, booted, advance, finish_hook, recorded_blueprint,
  read_by, Run, boots, reads,
}
use krop_controller.Process.Hook.{after, Run-after}
use krop_controller.Process.Offered.{latest}
use krop_controller.Process.Passes.{
  Mark, no_mark, Offers, IsGenuine, Passes, starts, edits, passes, pass,
}
use krop_controller.Process.Passes.Origin.{Origin}
use krop_controller.Process.Passes.Served.{serving-published}
use krop_controller.Tests.Sample.{config_node, database_gr}
use krop_controller.Tests.Workspace.{
  Workspace, memory_provider, registrar, marshal, convert, no_text, found,
}
use krop_controller.Tests.Server.{
  db, marked_with, marks, stored, under_name, server, stored-cases, server-IsMarked,
}

abbrev spec_of : Text → BlueprintSpec
spec_of schema = record { schema = schema; resources = [] }

-- The two specs that the blueprint has in turn.
abbrev Known : Text → BlueprintSpec → Type 0
Known n spec = (n ≡ db) × ((spec ≡ spec_of (codes "a")) ⊎ (spec ≡ spec_of (codes "b")))

abbrev hex : Text → Text
hex t = t

abbrev build : Text → KroSpec → Workspace → Result Graph
build _ spec _ = ok (record {
  nodes = if spec.schema == codes "a" then config_node ∷ [] else config_node ∷ config_node ∷ [];
  instance_gr = database_gr;
  crd = some (record { version = codes "v1"; body = [] });
})

abbrev in_front : List Condition → Condition → List Condition
in_front cs c = c ∷ cs

hash_of :
    (spec : BlueprintSpec) (n : Text)
    → Known n spec
    → (spec ≡ spec_of spec.schema)
      × (spec_hash hex marshal spec ≡ ok spec.schema)
      × (spec.schema ≢ [])
unfolding spec_hash
hash_of spec n (named, inl same) = subst Short (sym same) (refl, refl, λ e. cc)
  where
    Short : BlueprintSpec → Type 0
    Short t = (t ≡ spec_of t.schema) × (spec_hash hex marshal t ≡ ok t.schema) × (t.schema ≢ [])
hash_of spec n (named, inr same) = subst Short (sym same) (refl, refl, λ e. cc)
  where
    Short : BlueprintSpec → Type 0
    Short t = (t ≡ spec_of t.schema) × (spec_hash hex marshal t ≡ ok t.schema) × (t.schema ≢ [])

ok_inj : {A : Type 0} (a b : A) → ok a ≡ ok b → a ≡ b
ok_inj a b e = cc

ok_err : {A : Type 0} {x : Result A} {a : A} {e : Error} → x ≡ ok a → x ≡ err e → ⊥
ok_err p q = cc

one_spec :
    (n hash : Text) (spec spec' : BlueprintSpec)
    → Known n spec
    → Known n spec'
    → spec_hash hex marshal spec ≡ ok hash
    → spec_hash hex marshal spec' ≡ ok hash
    → spec ≡ spec'
one_spec n hash spec spec' k k' h h' =
    let (e, q, _) = hash_of spec n k in
    let (e', q', _) = hash_of spec' n k' in
    e ∙ ap spec_of (ok_inj _ _ (sym q ∙ h ∙ sym h' ∙ q')) ∙ sym e'

steady :
    (n : Text) (spec : BlueprintSpec) (w w' : Workspace) (g g' : Graph)
    → Known n spec
    → build n (to_kro spec).0 w ≡ ok g
    → build n (to_kro spec).0 w' ≡ ok g'
    → g ≡ g'
steady n spec w w' g g' k h h' = ok_inj g g' (sym h ∙ h')

nonempty : (n : Text) (spec : BlueprintSpec) → Known n spec → spec_hash hex marshal spec ≢ ok []
nonempty n spec k e = let (_, q, full) = hash_of spec n k in full (ok_inj _ _ (sym q ∙ e))

distinct :
    (n n' h h' e : Text) (spec spec' : BlueprintSpec) (sb sb' : ServedBlueprint)
    → Offers hex marshal build convert Known n spec h e sb
    → Offers hex marshal build convert Known n' spec' h' e sb'
    → n ≡ n'
distinct n n' h h' e spec spec' sb sb' o o' = o.known.0 ∙ sym o'.known.0

abbrev new_blueprint : Blueprint
new_blueprint = record {
  name = db;
  deletion_timestamp = none;
  finalizers = [];
  spec = spec_of (codes "a");
  status = record {
    exported_api = [];
    identity_hash = [];
    observed_spec_hash = [];
    conditions = [];
  };
}

abbrev at_first : Workspace
at_first = record { blueprints = (db, new_blueprint) ∷ []; schemas = []; exports = []; doomed = [] }

abbrev server_registrar : Registrar Workspace
server_registrar = record registrar { client = server }

abbrev run : Site Workspace → Result Bool × Site Workspace
run = pass hex marshal build convert in_front no_text server_registrar marks Known db

abbrev site_0 : Site Workspace
site_0 = record { world = at_first; cache = []; calls = [] }

abbrev edited : Option Blueprint → Workspace → Workspace
edited none w = w
edited (some bp) w = stored db (record bp { spec = spec_of (codes "b") }) w

abbrev site_1 : Site Workspace
site_1 =
    let s = (run site_0).1 in record s { world = edited (lookup db s.world.blueprints) s.world }

abbrev site_2 : Site Workspace
site_2 = (run site_1).1

succeeded : (run site_0).0 ≡ ok true
unfolding register reconcile_blueprint add_finalizer publish spec_hash to_kro split_resources
    build_graph get_graph put_graph publish_graph parse_routing parse_target build_ars
    publish_schema apply_ars after_get_schema identity_by_group_resource publish_claims
    blueprint_claims foreign_consumer_grs collect_foreign derive_claims merge_claims validate_claims
    upsert_api_export report_published or_fail go_on_or_fail target_for_node target_eq
    memory_provider server text_eq gr_eq merge_sorted sort_stable concat_claims to_claims
    insert_sorted collapse byte_eq
succeeded = refl

succeeded_again : (run site_1).0 ≡ ok true
unfolding register reconcile_blueprint add_finalizer publish spec_hash to_kro split_resources
    build_graph get_graph put_graph publish_graph parse_routing parse_target build_ars
    publish_schema apply_ars after_get_schema identity_by_group_resource publish_claims
    blueprint_claims foreign_consumer_grs collect_foreign derive_claims merge_claims validate_claims
    upsert_api_export report_published or_fail go_on_or_fail target_for_node target_eq
    memory_provider server text_eq gr_eq merge_sorted sort_stable concat_claims to_claims
    insert_sorted collapse byte_eq
succeeded_again = refl

abbrev graph_of : Text → Graph
graph_of schema = record {
  nodes = if schema == codes "a" then config_node ∷ [] else config_node ∷ config_node ∷ [];
  instance_gr = database_gr;
  crd = some (record { version = codes "v1"; body = [] });
}

abbrev offer : Text → ServedBlueprint
offer schema = record {
  graph = graph_of schema;
  gvk = record { group = codes "db"; version = codes "v1"; kind = codes "Database" };
  routing = [];
}

abbrev call : Text → Call
call schema = published (codes "databases.db") (offer schema).gvk (graph_of schema) [] true

history_is : reverse site_2.calls ≡ call (codes "b") ∷ call (codes "a") ∷ []
unfolding register reconcile_blueprint add_finalizer publish spec_hash to_kro split_resources
    build_graph get_graph put_graph publish_graph parse_routing parse_target build_ars
    publish_schema apply_ars after_get_schema identity_by_group_resource publish_claims
    blueprint_claims foreign_consumer_grs collect_foreign derive_claims merge_claims validate_claims
    upsert_api_export report_published or_fail go_on_or_fail target_for_node target_eq
    memory_provider server text_eq gr_eq merge_sorted sort_stable concat_claims to_claims
    insert_sorted collapse byte_eq
history_is = refl

abbrev specs : Option Blueprint → Option BlueprintSpec
specs none = none
specs (some bp) = some bp.spec

specs_under :
    (o : Option Blueprint) (bp : Blueprint)
    → found (under_name db o) ≡ ok bp
    → specs o ≡ some bp.spec
specs_under none bp e = cc
specs_under (some old) bp e = ap (λ (b : Blueprint). some b.spec) (ok_inj _ bp e)

some_spec : (s s' : BlueprintSpec) → some s ≡ some s' → s ≡ s'
some_spec s s' e = cc

spec_found :
    (w : Workspace) (spec : BlueprintSpec) (bp : Blueprint)
    → specs (lookup db w.blueprints) ≡ some spec
    → server.get_blueprint db w ≡ ok bp
    → bp.spec ≡ spec
unfolding server
spec_found w spec bp e q = some_spec _ _ (sym (specs_under _ bp q) ∙ e)

first_spec : specs (lookup db at_first.blueprints) ≡ some (spec_of (codes "a"))
unfolding text_eq byte_eq
first_spec = refl

second_spec : specs (lookup db site_1.world.blueprints) ≡ some (spec_of (codes "b"))
unfolding register reconcile_blueprint add_finalizer publish spec_hash to_kro split_resources
    build_graph get_graph put_graph publish_graph parse_routing parse_target build_ars
    publish_schema apply_ars after_get_schema identity_by_group_resource publish_claims
    blueprint_claims foreign_consumer_grs collect_foreign derive_claims merge_claims validate_claims
    upsert_api_export report_published or_fail go_on_or_fail target_for_node target_eq
    memory_provider server text_eq gr_eq merge_sorted sort_stable concat_claims to_claims
    insert_sorted collapse byte_eq
second_spec = refl

edit_moves :
    (o : Option Blueprint) (w : Workspace) (n : Text) (x : Mark)
    → lookup db w.blueprints ≡ o
    → marks n (edited o w) ≡ some x
    → (marks n w ≡ some x) ⊎ (x ≡ no_mark)
edit_moves none w n x e h = inl h
edit_moves (some bp) w n x e h = elim (stored-cases n db _ x w h) [
  | inl (named, same) ↦
      inl (ap (λ (k : Text). marks k w) (sym named) ∙ ap marked_with e ∙ ap some (sym same))
  | inr before ↦ inl before
]

new-IsGenuine :
    (n : Text) (x : Mark)
    → marks n at_first ≡ some x
    → IsGenuine hex marshal build convert Known n x
new-IsGenuine n x h =
    elim (stored-cases n db new_blueprint x (record at_first { blueprints = [] }) h) [
      | inl (_, same) ↦ inl same
      | inr before ↦ absurd (none_there before)
    ]
  where
    none_there : none ≡ some x → ⊥
    none_there e = cc

Passes-there : Passes hex marshal build convert in_front no_text server_registrar marks Known site_2
Passes-there =
    passes db site_1
      (edits (edited (lookup db (run site_0).1.world.blueprints) (run site_0).1.world)
        (run site_0).1
        (passes db site_0 (starts at_first new-IsGenuine)
          (λ bp q. (refl, inl (spec_found at_first _ bp first_spec q)))
          (λ e c failed _. absurd (ok_err succeeded failed)))
        (λ n x h. edit_moves _ _ n x refl h))
      (λ bp q. (refl, inr (spec_found site_1.world _ bp second_spec q)))
      (λ e c failed _. absurd (ok_err succeeded_again failed))

abbrev history : List Call
history = call (codes "b") ∷ call (codes "a") ∷ []

abbrev both : Process
both = after (call (codes "b")) (after (call (codes "a")) booted)

abbrev name : Text
name = codes "databases.db"

abbrev second : Manager
second = record { export = name; cancelled = false }

abbrev reading : Process
reading = read_by 1 (offer (codes "b")) both

first_ended : (after (call (codes "a")) booted).pc ≡ idle
unfolding finish_hook advance
first_ended = refl

both-Run : Run history both
both-Run = Run-after _ _ _ (Run-after _ [] booted boots refl) first_ended

second_there : lookup 1 both.supervisor.managers ≡ some second
unfolding finish_hook advance ensure stop cancel text_eq byte_eq
second_there = refl

second_waits : lookup 1 both.serving ≡ none
unfolding finish_hook advance
second_waits = refl

second_finds : recorded_blueprint name both.registry ≡ ok (offer (codes "b"))
unfolding recorded_blueprint finish_hook advance text_eq
second_finds = refl

reading-Run : Run (reverse site_2.calls) reading
reading-Run =
    subst (λ (h : List Call). Run h reading) (sym history_is)
      (reads 1 second (offer (codes "b")) history both both-Run second_there second_waits
        second_finds)

reading_ended : reading.pc ≡ idle
unfolding finish_hook advance
reading_ended = refl

second_serves : lookup 1 reading.serving ≡ some (offer (codes "b"))
unfolding finish_hook advance byte_eq
second_serves = refl

second_lives : lookup 1 reading.supervisor.managers ≡ some second
unfolding finish_hook advance ensure stop cancel text_eq byte_eq
second_lives = refl

serving-published_example :
    (get_served name reading.registry ≡ some (offer (codes "b")))
    × (latest (reverse site_2.calls) name ≡ some (offer (codes "b")))
    × Origin hex marshal build convert marks Known one_spec steady site_2.world name
        (offer (codes "b"))
serving-published_example =
    serving-published hex marshal build convert marks Known one_spec steady nonempty distinct
      in_front no_text server_registrar server-IsMarked refl site_2 reading name 1
      (offer (codes "b")) Passes-there reading-Run reading_ended second_lives second_serves
