-- ===== src/Tests/Workspace.antt =====
-- A provider workspace held in memory, and the properties of the registrar at concrete inputs.
use krop_controller.Base.{
  ℕ, Text, text_eq, ◌==◌, contains, NoRepeats, if◌then◌else◌, ◌≡◌, ◌≢◌, refl, ◌⊎◌, ◌&&◌, inl, inr,
  Bool, true, false, Option, none, some, List, [], ◌∷◌, not, map, All, arith, Bool-cases, subst,
}
use krop_controller.Base.Bytes.{codes}
use krop_controller.Base.Dict.{Dict, lookup, insert, erase, lookup-insert, lookup-erase}
use krop_controller.Base.Result.{Error, not_found, Result, ok, err}
use krop_controller.Api.Object.{Condition}
use krop_controller.Api.Blueprint.{
  Blueprint, BlueprintSpec, KroSpec, Resource, to_kro, split_resources,
}
use krop_controller.Engine.Route.{provider, Routing, parse_target}
use krop_controller.Registrar.Cache.{GraphCache, get_graph, put_graph, delete_graph}
use krop_controller.Registrar.Cache.Laws.{get_graph-put_graph}
use krop_controller.Registrar.Claims.Merged.{IsResolved}
use krop_controller.Registrar.Publish.{
  Schema, Export, Provider, Crd, after_get_export, delete_export_schema, delete_published_api,
}
use krop_controller.Registrar.Publish.Withdrawn.{IsWorkspace}
use krop_controller.Registrar.Reconcile.{
  Graph, Site, Registrar, blueprint_finalizer, parse_routing, tear_down, register,
}
use krop_controller.Registrar.Reconcile.Resolved.{register-resolved}
use krop_controller.Registrar.Reconcile.Teardown.{IsWithdrawn, IsHeldBack, tear_down-IsWithdrawn}
use krop_controller.Registrar.Reconcile.Routed.{present, id_of, IsRouted, to_kro-IsRouted}
use krop_controller.Tests.Sample.{some_inj, twelve, agent_node, database_gr}

abbrev pub is_there : {A : Type 0} → Option A → Bool
is_there none = false
is_there (some _) = true

abbrev pub found : {A : Type 0} → Option A → Result A
found none = err not_found
found (some a) = ok a

pub record Workspace : Type 0 where
  pub blueprints : Dict Text Blueprint
  pub schemas : Dict Text Schema
  pub exports : Dict Text Export
  -- the schemas that are marked for deletion
  pub doomed : List Text

unfoldable pub memory_provider : Provider Workspace
memory_provider = record {
  get_blueprint = λ n w. found (lookup n w.blueprints);
  update_blueprint = λ bp w. (ok tt, record w { blueprints = insert bp.name bp w.blueprints });
  update_blueprint_status =
      λ bp w. (ok tt, record w { blueprints = insert bp.name bp w.blueprints });
  get_schema = λ n w. found (lookup n w.schemas);
  create_schema = λ x w. (ok tt, record w { schemas = insert x.name x w.schemas });
  delete_schema = λ n w. (ok tt, record w { doomed = n ∷ w.doomed });
  get_export = λ n w.
      found (elim (lookup n w.exports) [ none ↦ none | some x ↦ some (record x { name = n }) ]);
  apply_export = λ x w. (ok tt, record w { exports = insert x.name x w.exports });
  delete_export = λ n w. (ok tt, record w { exports = erase n w.exports });
  list_bindings = λ w. ok [];
}

abbrev pub live_schema : Text → Workspace → Bool
live_schema n w = is_there (lookup n w.schemas) && not (contains w.doomed n)

abbrev pub live_export : Text → Workspace → Bool
live_export n w = is_there (lookup n w.exports)

memory-IsWorkspace : IsWorkspace live_schema live_export memory_provider
unfolding memory_provider
memory-IsWorkspace = record {
  export_named = λ n w x e. named n (lookup n w.exports) x e;
  schema_deleted = λ n w a. ground arith;
  export_deleted = λ n w a. ground (arith, lookup-erase n n w.exports);
  schema_kept_away = λ n m w h. ground (arith, h);
  schema_kept_away_by_export = λ n m w h. h;
}
  where
    named :
        (n : Text) (o : Option Export) (x : Export)
        → found
            (elim o as (λ _. Option Export) [ none ↦ none | some y ↦ some (record y { name = n }) ])
          ≡ ok x
        → x.name ≡ n
    named n none x e = cc
    named n (some y) x e = ap_name _ x e
      where
        ap_name : (a b : Export) → ok a ≡ ok b → b.name ≡ a.name
        ap_name a b q = cc

abbrev no_graphs : GraphCache ℕ
no_graphs = []

get_graph-put_graph_example :
    (get_graph
        (codes "root")
        (codes "db")
        (codes "h2")
        (put_graph (codes "root") (codes "db") (codes "h1") 1 no_graphs)
      ≡ (if codes "root" == codes "root" && codes "db" == codes "db"
          then (if codes "h1" == codes "h2" then some 1 else none)
          else get_graph (codes "root") (codes "db") (codes "h2") no_graphs))
    × (get_graph
          (codes "root")
          (codes "db")
          (codes "h2")
          (delete_graph (codes "root") (codes "db") no_graphs)
        ≡ (if codes "root" == codes "root" && codes "db" == codes "db"
            then none
            else get_graph (codes "root") (codes "db") (codes "h2") no_graphs))
get_graph-put_graph_example =
    get_graph-put_graph (codes "root") (codes "root") (codes "db") (codes "db") (codes "h1")
      (codes "h2") 1 no_graphs (ground arith) (ground arith)

abbrev pub the_export : Export
the_export = record {
  name = codes "databases.db";
  resources =
      record { name = codes "databases"; group = codes "db"; schema = codes "v1.databases.db" }
      ∷ [];
  permission_claims = [];
  identity_hash = codes "i";
}

abbrev pub the_schema : Schema
the_schema = record {
  name = codes "v1.databases.db";
  group = codes "db";
  plural = codes "databases";
  kind = codes "Database";
  body = [];
}

abbrev pub a_resource : Text → Text → Resource
a_resource id target = record { kro = record { id = id; body = [] }; target = target }

abbrev pub the_spec : BlueprintSpec
the_spec = record {
  schema = [];
  resources =
      some (a_resource (codes "agent") (codes "provider"))
      ∷ none
      ∷ some (a_resource (codes "config") [])
      ∷ [];
}

abbrev pub the_blueprint : Blueprint
the_blueprint = record {
  name = codes "databases";
  deletion_timestamp = some 4;
  finalizers = blueprint_finalizer ∷ [];
  spec = the_spec;
  status = record {
    exported_api = codes "databases.db";
    identity_hash = [];
    observed_spec_hash = [];
    conditions = [];
  };
}

abbrev pub holding : Workspace
holding = record {
  blueprints = (codes "databases", the_blueprint) ∷ [];
  schemas = (codes "v1.databases.db", the_schema) ∷ [];
  exports = (codes "databases.db", the_export) ∷ [];
  doomed = [];
}

export_found : memory_provider.get_export (codes "databases.db") holding ≡ ok the_export
unfolding memory_provider text_eq
export_found = refl

withdrawn_ok : (delete_published_api memory_provider (codes "databases.db") holding).0 ≡ ok tt
unfolding memory_provider text_eq delete_published_api after_get_export delete_export_schema
withdrawn_ok = refl

abbrev pub registrar : Registrar Workspace
registrar = record {
  client = memory_provider;
  workspace = codes "root";
  has_on_published = true;
  has_on_deleted = true;
}

abbrev pub marshal : BlueprintSpec → Result Text
marshal s = ok s.schema

abbrev build : Text → KroSpec → Workspace → Result Graph
build _ _ _ = ok (record {
  nodes = agent_node ∷ [];
  instance_gr = database_gr;
  crd = some (record { version = codes "v1"; body = [] });
})

abbrev pub convert : Crd → Text → Result Schema
convert _ prefix = ok (record the_schema { name = prefix })

abbrev pub no_text : Error → Text
no_text _ = []

abbrev pub start : Site Workspace
start = record { world = holding; cache = []; calls = [] }

pub exported_there : codes "databases.db" ≢ []
exported_there e = cc

pub held : contains the_blueprint.finalizers blueprint_finalizer ≡ true
held = ground arith

abbrev in_front : List Condition → Condition → List Condition
in_front cs c = c ∷ cs

tear_down-IsWithdrawn_example :
    let end =
      tear_down twelve marshal build convert in_front no_text registrar the_blueprint start in
    IsWithdrawn live_schema live_export twelve marshal build convert in_front no_text registrar
      memory-IsWorkspace the_blueprint the_export start end
    ⊎ IsHeldBack live_schema live_export twelve marshal build convert in_front no_text registrar
        memory-IsWorkspace the_blueprint start end
tear_down-IsWithdrawn_example =
    tear_down-IsWithdrawn live_schema live_export twelve marshal build convert in_front no_text
      registrar memory-IsWorkspace the_blueprint start the_export held exported_there export_found

-- Every export that the workspace holds has resolved claims.
abbrev AllResolved : Workspace → Type 0
AllResolved w =
    (n : Text) (x : Export) → lookup n w.exports ≡ some x → All IsResolved x.permission_claims

insert-AllResolved :
    (m : Dict Text Export) (y : Export)
    → All IsResolved y.permission_claims
    → ((n : Text) (x : Export) → lookup n m ≡ some x → All IsResolved x.permission_claims)
    → (n : Text) (x : Export) → lookup n (insert y.name y m) ≡ some x
    → All IsResolved x.permission_claims
insert-AllResolved m y r h n x e = elim (Bool-cases (y.name == n)) [
  | inl same ↦
      subst (λ (z : Export). All IsResolved z.permission_claims)
        (some_inj y x (ground (arith, lookup-insert y.name n y m))) r
  | inr other ↦ h n x (ground (arith, lookup-insert y.name n y m))
]

erase-AllResolved :
    (m : Dict Text Export) (k : Text)
    → ((n : Text) (x : Export) → lookup n m ≡ some x → All IsResolved x.permission_claims)
    → (n : Text) (x : Export) → lookup n (erase k m) ≡ some x
    → All IsResolved x.permission_claims
erase-AllResolved m k h n x e = h n x (ground (arith, lookup-erase k n m))

holding-AllResolved : AllResolved holding
unfolding text_eq
holding-AllResolved n x e =
    insert-AllResolved [] the_export tt (λ k z q. absurd (ground arith)) n x e

register-resolved_example :
    AllResolved
      (register twelve marshal build convert
        (λ cs c. c ∷ cs)
        no_text
        registrar
        (codes "databases")
        start).1.world
unfolding memory_provider
register-resolved_example =
    register-resolved twelve marshal build convert (λ cs c. c ∷ cs) no_text registrar AllResolved
      (λ x r w h. insert-AllResolved w.exports x r h) (λ bp w h. h) (λ bp w h. h) (λ x w h. h)
      (λ n w h. h) (λ n w h. erase-AllResolved w.exports n h) (codes "databases") start
      holding-AllResolved

abbrev routing : Routing
routing = (codes "agent", provider) ∷ []

distinct : NoRepeats (map id_of (present the_spec.resources))
unfolding text_eq
distinct = (refl, (refl, tt))

accepted_routing : parse_routing (to_kro the_spec).1 ≡ ok routing
unfolding parse_routing parse_target to_kro split_resources text_eq
accepted_routing = refl

to_kro-IsRouted_example : All (IsRouted routing) (present the_spec.resources)
to_kro-IsRouted_example = to_kro-IsRouted the_spec routing distinct accepted_routing
