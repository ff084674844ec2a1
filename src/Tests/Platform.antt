-- ===== src/Tests/Platform.antt =====
-- The libraries that cmd/controller calls, over a log of the controllers that were built, and what it
-- builds with them.
use krop_controller.Base.{
  Text, text_eq, ◌≡◌, ◌⊎◌, refl, ap, sym, ◌∙◌, some, Bool, true, false, none, List, [], ◌∷◌, ◌++◌,
  All,
}
use krop_controller.Base.Bytes.{codes, byte_eq, cut, cut_byte, strip_prefix}
use krop_controller.Base.Result.{Error, not_found, Result, ok, err, Prog}
use krop_controller.Api.Client.{Client}
use krop_controller.Engine.Graph.{Node}
use krop_controller.Kcp.{EndpointSlice}
use krop_controller.Registrar.Publish.{Provider}
use krop_controller.Process.{ServedBlueprint, Published, get_served}
use krop_controller.Process.Serve.{Platform, start_manager}
use krop_controller.Process.Serve.Built.{IsPoll, start_manager-builds}
use krop_controller.Process.Setup.{Flags, Machine, run}
use krop_controller.Process.Setup.Started.{HasStarted, run-HasStarted}
use krop_controller.Process.Workspace.{up_to_slash, provider_workspace_name}
use krop_controller.Tests.Process.{name, a_served}
use krop_controller.Tests.Sample.{some_inj}

-- The state: the names and the graphs of the controllers built, the newest first.
abbrev Log : Type 0
Log = List (Text × List Node)

-- The state: the workspaces of the registrars, the newest first.
abbrev Workspaces : Type 0
Workspaces = List Text

abbrev slices : List EndpointSlice
slices = (record { name = codes "s"; export = name }) ∷ []

-- A poll that calls the condition once.
abbrev poll_once : Prog (Log × Text) Bool → Prog (Log × Text) (Unit {0})
poll_once condition s =
    let (r, t) = condition s in
    (elim r [ ok b ↦ elim b [ true ↦ ok tt | false ↦ err not_found ] | err _ ↦ err not_found ], t)

unfoldable platform : Platform Log Text Text
platform = record {
  poll = poll_once;
  list_slices = λ _. ok slices;
  registrations = ok tt ∷ [];
  new_provider = λ n w. (ok n, w);
  new_manager = λ n w. (ok n, w);
  complete = λ m n g r w. (ok tt, (n, r.graph) ∷ w);
  start = λ m w. (ok tt, w);
}

true_of_ok :
    (r : Result Bool)
    → elim r as (λ _. Result (Unit {0})) [
      | ok b ↦ elim b [ true ↦ ok tt | false ↦ err not_found ]
      | err _ ↦ err not_found
    ]
      ≡ ok tt
    → r ≡ ok true
true_of_ok (ok true) h = refl
true_of_ok (ok false) h = cc
true_of_ok (err e) h = cc

poll_once-IsPoll : IsPoll poll_once
poll_once-IsPoll = record {
  polled = λ condition s h.
      (s, ap (λ (r : Result Bool). (r, (condition s).1)) (true_of_ok (condition s).0 h));
}

abbrev no_client : {W : Type 0} → Client W
no_client = record {
  get = λ _ _ _ _. err not_found;
  list = λ _ _ _ _. ok [];
  create = λ _ w. (ok tt, w);
  update = λ _ w. (ok tt, w);
  update_status = λ _ w. (ok tt, w);
  apply = λ _ w. (ok tt, w);
  delete = λ _ w. (ok tt, w);
}

abbrev IsOurs : Text × List Node → Type 0
IsOurs (n, nodes) = (n ≡ codes "krop-instance-" ++ name) × (nodes ≡ a_served.graph.nodes)

abbrev registry : Published
registry = (name, a_served) ∷ []

nodes_of :
    (sb : ServedBlueprint)
    → get_served name registry ≡ some sb
    → sb.graph.nodes ≡ a_served.graph.nodes
unfolding text_eq byte_eq
nodes_of sb e = ap (λ (x : ServedBlueprint). x.graph.nodes) (sym (some_inj a_served sb e))

start_manager-builds_example :
    let end = start_manager platform no_client none name registry [] in
    All IsOurs end.1 × (get_served name registry ≡ none → end.1 ≡ [])
unfolding platform
start_manager-builds_example =
    start_manager-builds platform poll_once-IsPoll no_client none (All IsOurs) name registry
      (λ c k s h. k s h) (λ p w h. h) (λ m w h. h) (λ n w s e f v h. h)
      (λ m sb r e q w h. ((refl, q.0 ∙ nodes_of sb e), h)) [] tt

abbrev flags : Flags
flags = record {
  health_probe_address = codes ":8081";
  metrics_address = codes ":8080";
  leader_elect = false;
  leader_election_namespace = codes "default";
  host_kubeconfig = [];
}

abbrev no_provider : {W : Type 0} → Provider W
no_provider = record {
  get_blueprint = λ _ _. err not_found;
  update_blueprint = λ _ w. (ok tt, w);
  update_blueprint_status = λ _ w. (ok tt, w);
  get_schema = λ _ _. err not_found;
  create_schema = λ _ w. (ok tt, w);
  delete_schema = λ _ w. (ok tt, w);
  get_export = λ _ _. err not_found;
  apply_export = λ _ w. (ok tt, w);
  delete_export = λ _ w. (ok tt, w);
  list_bindings = λ _. ok [];
}

-- A configuration is its host.
abbrev machine : Machine Workspaces Text (Unit {0}) (Unit {0}) (Unit {0}) (Unit {0}) Text Text
machine = record {
  host_of = λ h. h;
  provider_registrations = ok tt ∷ [];
  host_registration = ok tt;
  new_manager = λ _ _ w. (ok tt, w);
  add_healthz_check = λ _ w. (ok tt, w);
  add_readyz_check = λ _ w. (ok tt, w);
  new_client = λ _ w. (ok tt, w);
  as_client = λ _. no_client;
  as_provider = λ _. no_provider;
  build_config_from_flags = λ _ _. err not_found;
  in_cluster_config = λ _. err not_found;
  builders = record {
    http_client_for = λ _. ok tt;
    new_builder = λ _ _. ok tt;
    new_definition = λ _ d _ _. ok d;
  };
  add_registrar = λ _ r _ w. (ok tt, r.workspace ∷ w);
  add_sweeper = λ _ _ w. (ok tt, w);
  start = λ _ w. (ok tt, w);
}

abbrev host : Text
host = codes "https://kcp/clusters/root:db"

abbrev OnlyDb : Workspaces → Type 0
OnlyDb w = All (λ n. n ≡ codes "root:db") w

workspace_named : provider_workspace_name host ≡ codes "root:db"
unfolding provider_workspace_name up_to_slash cut cut_byte strip_prefix byte_eq text_eq
workspace_named = refl

run-HasStarted_example :
    ((e : Error) × ((run machine flags host []).0 ≡ err e) × OnlyDb (run machine flags host []).1)
    ⊎ HasStarted machine flags host OnlyDb
        (λ w h. h)
        (λ _ w h. h)
        (λ _ w h. h)
        (λ _ w h. h)
        (λ _ _ _ w h. (workspace_named, h))
        (λ _ _ _ w h. h)
        (run machine flags host [])
run-HasStarted_example =
    run-HasStarted machine flags host OnlyDb (λ w h. h) (λ _ w h. h) (λ _ w h. h) (λ _ w h. h)
      (λ _ _ _ w h. (workspace_named, h)) (λ _ _ _ w h. h) [] tt
