-- ===== src/Tests/Sample.antt =====
-- A blueprint with one provider-target node and one instance of it.
use krop_controller.Base.{ℕ, Text, text_eq, ◌≡◌, subst, true, false, none, some, List, [], ◌∷◌}
use krop_controller.Base.Bytes.{codes}
use krop_controller.Base.Result.{Result, ok, err, failure}
use krop_controller.Api.Object.{Gvk, Gr, Object}
use krop_controller.Api.Client.{Client, Selector}
use krop_controller.Api.Clusters.{IsCluster, IsSeparate}
use krop_controller.Engine.Route.{Target, consumer, provider, host, Routing}
use krop_controller.Engine.Labels.{finalizer, label_instance_uid}
use krop_controller.Engine.Graph.{Node, resource, Runtime}
use krop_controller.Controller.Config.{Reconciler, clients}
use krop_controller.Controller.Liveness.{named, config_map_gvk}
use krop_controller.Tests.Memory.{World, held, memory_client, memory-IsCluster, memory-IsSeparate}

abbrev pub twelve : Text → Text
twelve _ = codes "0123456789ab"

abbrev pub clock_text : ℕ → Text
clock_text n = n ∷ []

abbrev pub agent_gvk : Gvk
agent_gvk = record { group = codes "ai"; version = codes "v1"; kind = codes "Agent" }

abbrev pub agent_gr : Gr
agent_gr = record { group = codes "ai"; resource = codes "agents" }

abbrev pub database_gvk : Gvk
database_gvk = record { group = codes "db"; version = codes "v1"; kind = codes "Database" }

abbrev pub database_gr : Gr
database_gr = record { group = codes "db"; resource = codes "databases" }

abbrev pub agent_node : Node
agent_node = record {
  id = codes "agent";
  type = resource;
  namespaced = true;
  gr = agent_gr;
  template_gvk = agent_gvk;
}

abbrev pub config_node : Node
config_node = record {
  id = codes "config";
  type = resource;
  namespaced = true;
  gr = record { group = []; resource = codes "configmaps" };
  template_gvk = config_map_gvk;
}

abbrev pub to_provider : Routing
to_provider = (codes "agent", provider) ∷ (codes "config", provider) ∷ []

abbrev pub reconciler_of : List Node → Reconciler World
reconciler_of nodes = record {
  graph = nodes;
  provider_client = memory_client provider;
  host_client = none;
  instance_gvk = database_gvk;
  blueprint_name = codes "databases";
  record_namespace = [];
  routing = to_provider;
}

abbrev pub an_instance : Object
an_instance = record (named database_gvk (codes "default") (codes "main")) {
  uid = codes "u1";
  generation = 3;
  finalizers = finalizer ∷ [];
}

abbrev pub agent_template : Object
agent_template = named agent_gvk (codes "default") (codes "helper")

-- The runtime keeps what was observed last. A node is ready once something was observed.
abbrev pub runtime_of : List Node → Runtime (List Object)
runtime_of ns = record {
  nodes = ns;
  is_ignored = λ id r. (ok false, r);
  get_desired = λ id r. (ok (agent_template ∷ []), r);
  set_observed = λ id items r. items;
  check_readiness = λ id r. elim r [ [] ↦ false | _ ∷ _ ↦ true ];
  instance_desired = λ r. ok [];
}

abbrev pub started : List Node → Object → Result (Runtime (List Object) × List Object)
started ns _ = ok (runtime_of ns, [])

abbrev pub no_selector : Text → Result Selector
no_selector _ = err (failure [])

-- A child of the instance, and one of another instance.
abbrev pub own_child : Object
own_child = record (named agent_gvk (codes "default") (codes "old")) {
  labels = (label_instance_uid, codes "u1") ∷ [];
}

abbrev pub other_child : Object
other_child = record (named agent_gvk (codes "default") (codes "other")) {
  labels = (label_instance_uid, codes "u2") ∷ [];
}

abbrev pub inhabited : World
inhabited consumer = an_instance ∷ []
inhabited provider = own_child ∷ other_child ∷ []
inhabited host = []

pub some_inj : {A : Type 0} (a b : A) → some a ≡ some b → a ≡ b
some_inj a b e = cc

abbrev pub the_consumer : Client World
the_consumer = memory_client consumer

pub sample-IsCluster :
    (ns : List Node) (t : Target) (c : Client World)
    → clients (reconciler_of ns) the_consumer t ≡ some c
    → IsCluster held t c
sample-IsCluster ns consumer c e =
    subst (λ (d : Client World). IsCluster held consumer d) (some_inj _ c e)
      (memory-IsCluster consumer)
sample-IsCluster ns provider c e =
    subst (λ (d : Client World). IsCluster held provider d) (some_inj _ c e)
      (memory-IsCluster provider)
sample-IsCluster ns host c e = cc

pub sample-IsSeparate :
    (ns : List Node) (t : Target) (c : Client World)
    → clients (reconciler_of ns) the_consumer t ≡ some c
    → IsSeparate held t c
sample-IsSeparate ns consumer c e =
    subst (λ (d : Client World). IsSeparate held consumer d) (some_inj _ c e)
      (memory-IsSeparate consumer)
sample-IsSeparate ns provider c e =
    subst (λ (d : Client World). IsSeparate held provider d) (some_inj _ c e)
      (memory-IsSeparate provider)
sample-IsSeparate ns host c e = cc
