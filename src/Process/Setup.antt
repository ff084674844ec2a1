-- ===== src/Process/Setup.antt =====
-- cmd/controller/main.go: `run` after its flags are parsed, and internal/engine/graphsource.go. The calls
-- of controller-runtime, client-go and kro's graph builder are the parameters.
pub mod Started
use krop_controller.Base.{
  ℕ, Text, text_eq, ◌==◌, if◌then◌else◌, Bool, true, false, not, Option, none, some, List, [], ◌∷◌,
}
use krop_controller.Base.Bytes.{codes}
use krop_controller.Base.Result.{
  Error, failure, wrap, Result, ok, err, Prog, pure, raise, reads, context, context_of, for_each,
  ◌>>=◌, ◌>>◌,
}
use krop_controller.Api.Client.{Client}
use krop_controller.Kcp.{validate_kubeconfig}
use krop_controller.Registrar.Publish.{Provider}
use krop_controller.Registrar.Reconcile.{Registrar}
use krop_controller.Controller.Sweeper.{Sweeper}
use krop_controller.Process.Workspace.{provider_workspace_name}
use krop_controller.Process.Serve.{orphan_sweeper}

-- The flags, and the options of the provider's manager.
pub record Flags : Type 0 where
  pub health_probe_address : Text
  pub metrics_address : Text
  pub leader_elect : Bool
  pub leader_election_namespace : Text
  pub host_kubeconfig : Text

pub record ManagerOptions : Type 0 where
  pub health_probe_address : Text
  pub metrics_address : Text
  pub leader_election : Bool
  pub leader_election_id : Text
  pub leader_election_namespace : Text

-- `rest.HTTPClientFor` and `graph.NewBuilder`, of a configuration `K`; `B` is a builder. A graph is built
-- from a definition `D`, within a size of collections and a size of their dimensions.
pub record Builders (K H B D G : Type 0) : Type 0 where
  pub http_client_for : K → Result H
  pub new_builder : K → H → Result B
  pub new_definition : B → D → ℕ → ℕ → Result G

module _ {K H B D G : Type 0} (builders : Builders K H B D G) where
  -- `NewEndpointGraphSource`
  unfoldable pub new_endpoint_graph_source : Option K → Result B
  new_endpoint_graph_source none = err (failure (codes "EndpointGraphSource: nil rest.Config"))
  new_endpoint_graph_source (some cfg) = elim (builders.http_client_for cfg) [
    | err e ↦ err (wrap (codes "EndpointGraphSource: http client") e)
    | ok client ↦ context_of (codes "EndpointGraphSource") (builders.new_builder cfg client)
  ]

  -- `EndpointGraphSource.Build`
  unfoldable pub build_from_endpoint : B → D → Result G
  build_from_endpoint b rgd = builders.new_definition b rgd 1000 1000

-- `C` is a client of the provider workspace, by the calls of the reconciler and the sweeper and by those
-- of the registrar.
pub record Machine (W K C M H B D G : Type 0) : Type 0 where
  pub host_of : K → Text
  pub provider_registrations : List (Result (Unit {0}))
  pub host_registration : Result (Unit {0})
  pub new_manager : K → ManagerOptions → Prog W M
  pub add_healthz_check : M → Prog W (Unit {0})
  pub add_readyz_check : M → Prog W (Unit {0})
  pub new_client : K → Prog W C
  pub as_client : C → Client W
  pub as_provider : C → Provider W
  pub build_config_from_flags : Text → W → Result K
  pub in_cluster_config : W → Result K
  pub builders : Builders K H B D G
  pub add_registrar : M → Registrar W → B → Prog W (Unit {0})
  pub add_sweeper : M → Sweeper W → Prog W (Unit {0})
  pub start : M → Prog W (Unit {0})

module _ {W K C M H B D G : Type 0} (machine : Machine W K C M H B D G) (flags : Flags) where
  abbrev pub manager_options : ManagerOptions
  manager_options = record {
    health_probe_address = flags.health_probe_address;
    metrics_address = flags.metrics_address;
    leader_election = flags.leader_elect;
    leader_election_id = codes "krop-controller-leader";
    leader_election_namespace = flags.leader_election_namespace;
  }

  -- `hostCfg`: `none` disables the host target.
  unfoldable pub host_config : W → Result (Option K)
  host_config w =
      if not (flags.host_kubeconfig == [])
      then (elim (machine.build_config_from_flags flags.host_kubeconfig w) [
        | err e ↦ err (wrap (codes "loading host kubeconfig") e)
        | ok cfg ↦ ok (some cfg)
      ])
      else elim (machine.in_cluster_config w) [ err _ ↦ ok none | ok cfg ↦ ok (some cfg) ]

  -- `hostClient`
  unfoldable pub host_client_of : Option K → Prog W (Option C)
  host_client_of none = pure none
  host_client_of (some cfg) = do
    context (codes "registering host scheme") (reads (λ _. machine.host_registration))
    c ← context (codes "host client") (machine.new_client cfg)
    pure (some c)

  abbrev pub host_face : Option C → Option (Client W)
  host_face none = none
  host_face (some c) = some (machine.as_client c)

  -- The registrar that `run` builds; its hooks are set.
  abbrev pub the_registrar : K → C → Registrar W
  the_registrar cfg c = record {
    client = machine.as_provider c;
    workspace = provider_workspace_name (machine.host_of cfg);
    has_on_published = true;
    has_on_deleted = true;
  }

  -- `run` from the registrar's controller on
  unfoldable pub run_controllers : K → M → C → Option C → B → Prog W (Unit {0})
  run_controllers cfg m c h b = do
    context (codes "building registrar controller")
        (machine.add_registrar m (the_registrar cfg c) b)
    context (codes "adding orphan sweeper")
        (machine.add_sweeper m (orphan_sweeper (machine.as_client c) (host_face h)))
    context (codes "running provider manager") (machine.start m)

  -- `run` with the configuration of the process
  unfoldable pub run : K → Prog W (Unit {0})
  run cfg = do
    context (codes "kubeconfig must be workspace-scoped")
        (reads (λ _. validate_kubeconfig (machine.host_of cfg)))
    for_each machine.provider_registrations
        (λ added. context (codes "registering provider scheme") (reads (λ _. added)))
    m ← context (codes "setting up provider manager") (machine.new_manager cfg manager_options)
    context (codes "adding healthz check") (machine.add_healthz_check m)
    context (codes "adding readyz check") (machine.add_readyz_check m)
    c ← context (codes "provider client") (machine.new_client cfg)
    host_cfg ← reads host_config
    h ← host_client_of host_cfg
    b ←
        context (codes "graph source")
          (reads (λ _. new_endpoint_graph_source machine.builders (some cfg)))
    run_controllers cfg m c h b
