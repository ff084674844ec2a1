-- ===== src/Tests/Controller.antt =====
-- The properties of children, liveness records and the sweeper at concrete inputs.
use krop_controller.Base.{
  ◌+◌, ◌≤◌, ℕ, Text, text_eq, ◌≡◌, ◌≢◌, refl, subst, true, false, Option, none, some, List, [], ◌∷◌,
  contains, All, arith,
}
use krop_controller.Base.Bytes.{
  codes, byte_eq, trim_right, trim_suffix, join, split, split_in_three, cut_byte, trim_space,
  trim_left,
}
use krop_controller.Base.Dict.{get_or}
use krop_controller.Base.Result.{ok}
use krop_controller.Api.Object.{Object, gvk_eq, ChildId, child_id_eq, child_id}
use krop_controller.Api.Client.{Client}
use krop_controller.Api.Clusters.{item_gvk, object_at, IsCluster, IsSeparate}
use krop_controller.Engine.Route.{Target, target_eq, consumer, provider, host, target_for_node}
use krop_controller.Controller.Config.{Reconciler}
use krop_controller.Controller.Children.{
  has_label, collect_gvks, child_gvks, delete_kind, delete_target, delete_children, prune_one,
  prune_kind, prune_target, prune_children,
}
use krop_controller.Controller.Children.Reclaimed.{
  IsCleared, just_applied, delete_children-IsCleared, prune_children-IsCleared,
}
use krop_controller.Controller.Children.Kept.{IsOwn, object_at-prune_children}
use krop_controller.Engine.Labels.{label_instance_uid, label_liveness}
use krop_controller.Controller.Liveness.{
  named, config_map_gvk, last_reconciled, provider_child_gvks, host_child_gvks,
}
use krop_controller.Controller.Tokens.{gvk_token, parse_gvk_token, gvk_string, parse_gvk_string}
use krop_controller.Controller.Tokens.RoundTrip.{IsWritable, parse_gvk_string-gvk_string}
use krop_controller.Controller.Sweeper.{
  Sweeper, sweep_host, sweep_children_via, sweep_kind, uid_of, start, sweep_children, sweep_records,
}
use krop_controller.Controller.Sweeper.Reclaimed.{KindsSwept, sweep_children-KindsSwept}
use krop_controller.Controller.Sweeper.Fresh.{IsSafe, sweep_records-IsSafe}
use krop_controller.Controller.Sweeper.Grace.{start_grace}
use krop_controller.Tests.Memory.{World, held, memory_client, memory-IsCluster, memory-IsSeparate}
use krop_controller.Tests.Sample.{
  an_instance, agent_gvk, agent_node, reconciler_of, agent_template, own_child, other_child,
  inhabited, the_consumer, sample-IsCluster, sample-IsSeparate, some_inj,
}

abbrev r : Reconciler World
r = reconciler_of (agent_node ∷ [])

abbrev both : List Target
both = provider ∷ consumer ∷ []

deleted : (delete_children r both the_consumer (codes "u1") inhabited).0 ≡ ok tt
unfolding delete_children delete_target delete_kind child_gvks collect_gvks target_for_node
    target_eq text_eq gvk_eq child_id_eq memory_client item_gvk trim_suffix
deleted = refl

abbrev after_deletion : World
after_deletion = (delete_children r both the_consumer (codes "u1") inhabited).1

delete_children-IsCleared_example :
    All (λ t. IsCleared held r the_consumer (codes "u1") (λ _ _ _. false) t after_deletion) both
delete_children-IsCleared_example =
    delete_children-IsCleared held r the_consumer (sample-IsCluster (agent_node ∷ [])) (codes "u1")
      both inhabited deleted

-- The pass has applied a child that the cluster holds, and one that it does not hold.
abbrev applied_now : Target → List ChildId
applied_now _ = child_id agent_template ∷ child_id other_child ∷ []

pruned : (prune_children r both the_consumer (codes "u1") applied_now inhabited).0 ≡ ok tt
unfolding prune_children prune_target prune_kind prune_one child_gvks collect_gvks target_for_node
    target_eq text_eq gvk_eq child_id_eq memory_client item_gvk trim_suffix
pruned = refl

prune_children-IsCleared_example :
    All
      (λ t.
        IsCleared held r the_consumer
          (codes "u1")
          (just_applied applied_now)
          t
          (prune_children r both the_consumer (codes "u1") applied_now inhabited).1)
      both
prune_children-IsCleared_example =
    prune_children-IsCleared held r the_consumer (sample-IsCluster (agent_node ∷ [])) (codes "u1")
      both inhabited applied_now pruned

-- A child that the pass has applied, and one that it has not.
abbrev dropped_child : Object
dropped_child = record (named agent_gvk (codes "default") (codes "dropped")) {
  labels = (label_instance_uid, codes "u1") ∷ [];
}

abbrev crowded : World
crowded consumer = an_instance ∷ []
crowded provider = own_child ∷ dropped_child ∷ []
crowded host = []

abbrev applied_again : Target → List ChildId
applied_again _ = child_id own_child ∷ []

own_applied : contains (applied_again provider) (child_id own_child) ≡ true
unfolding child_id_eq
own_applied = refl

agents-IsOwn : All (IsOwn (child_id own_child)) (child_gvks r provider)
unfolding child_gvks collect_gvks target_for_node target_eq text_eq gvk_eq item_gvk trim_suffix
agents-IsOwn = ((λ g k. refl), tt)

-- The other child is deleted.
dropped_pruned :
    (prune_children r both the_consumer (codes "u1") applied_again crowded).1 provider
    ≡ own_child ∷ []
unfolding prune_children prune_target prune_kind prune_one child_gvks collect_gvks target_for_node
    target_eq text_eq gvk_eq child_id_eq memory_client item_gvk trim_suffix
dropped_pruned = refl

object_at-prune_children_example :
    object_at
      (child_id own_child)
      ((prune_children r both the_consumer (codes "u1") applied_again crowded).1 provider)
    ≡ object_at (child_id own_child) (crowded provider)
object_at-prune_children_example =
    object_at-prune_children held r the_consumer (sample-IsCluster (agent_node ∷ []))
      (sample-IsSeparate (agent_node ∷ [])) (codes "u1") applied_again both crowded provider
      (child_id own_child) own_applied agents-IsOwn

agent_IsWritable : IsWritable agent_gvk
unfolding byte_eq
agent_IsWritable = record {
  group_plain = ground arith;
  version_plain = ground arith;
  kind_plain = ground arith;
  group_slashes = ground arith;
  version_slashes = ground arith;
  has_version = λ e. cc;
  has_kind = λ e. cc;
}

parse_gvk_string-gvk_string_example :
    parse_gvk_string (gvk_string (agent_gvk ∷ agent_gvk ∷ [])) ≡ agent_gvk ∷ agent_gvk ∷ []
parse_gvk_string-gvk_string_example =
    parse_gvk_string-gvk_string (agent_gvk ∷ agent_gvk ∷ [])
      (agent_IsWritable, (agent_IsWritable, tt))

abbrev sweeper : Sweeper World
sweeper = record {
  provider_client = memory_client provider;
  host_client = some (memory_client host);
  record_namespace = [];
  stale_after = 10;
  started_at = none;
}

abbrev clock : Text → Option ℕ
clock [] = none
clock (n ∷ _) = some n

start_grace_example : start clock 5 (6 ∷ 14 ∷ []) sweeper inhabited ≡ inhabited
start_grace_example =
    start_grace clock 5 (6 ∷ 14 ∷ []) sweeper inhabited (omega arith, (omega arith, tt))

-- Liveness records of two instances, the first one stale.
abbrev record_of : Text → Text → ℕ → Object
record_of name uid time = record (named config_map_gvk (codes "default") name) {
  labels = (label_instance_uid, uid) ∷ (label_liveness, codes "true") ∷ [];
  config = (last_reconciled, time ∷ []) ∷ (provider_child_gvks, gvk_string (agent_gvk ∷ [])) ∷ [];
}

abbrev two_records : World
two_records consumer = []
two_records provider =
    own_child
    ∷ other_child
    ∷ record_of (codes "a") (codes "u1") 1
    ∷ record_of (codes "b") (codes "u2") 95
    ∷ []
two_records host = []

host-IsCluster : (c : Client World) → sweeper.host_client ≡ some c → IsCluster held host c
host-IsCluster c e =
    subst (λ (d : Client World). IsCluster held host d) (some_inj _ c e) (memory-IsCluster host)

host-IsSeparate : (c : Client World) → sweeper.host_client ≡ some c → IsSeparate held host c
host-IsSeparate c e =
    subst (λ (d : Client World). IsSeparate held host d) (some_inj _ c e) (memory-IsSeparate host)

swept :
    (sweep_children sweeper (record_of (codes "a") (codes "u1") 1) (codes "u1") two_records).0
    ≡ ok tt
unfolding sweep_children sweep_host sweep_children_via sweep_kind gvk_string gvk_token join
    parse_gvk_string parse_gvk_token split split_in_three cut_byte trim_space trim_left trim_right
    text_eq gvk_eq byte_eq child_id_eq target_eq memory_client item_gvk trim_suffix
swept = refl

sweep_children-KindsSwept_example :
    let run =
      sweep_children sweeper (record_of (codes "a") (codes "u1") 1) (codes "u1") two_records in
    (codes "u1" ≢ [])
    × KindsSwept held sweeper
        (memory-IsCluster provider)
        host-IsCluster
        (record_of (codes "a") (codes "u1") 1)
        (codes "u1")
        provider
        provider_child_gvks
        run.1
    × ((c : Client World)
        → sweeper.host_client ≡ some c
        → KindsSwept held sweeper
            (memory-IsCluster provider)
            host-IsCluster
            (record_of (codes "a") (codes "u1") 1)
            (codes "u1")
            host
            host_child_gvks
            run.1)
sweep_children-KindsSwept_example =
    sweep_children-KindsSwept held sweeper (memory-IsCluster provider) host-IsCluster
      (record_of (codes "a") (codes "u1") 1) (codes "u1") two_records swept

abbrev Safe : World → Type 0
Safe = IsSafe held provider (child_id other_child) (codes "u2") (some other_child)

two_records-Safe : Safe two_records
unfolding object_at child_id_eq text_eq
two_records-Safe = record {
  same = refl;
  owned = ((λ e. cc), ((λ e. refl), ((λ e. cc), ((λ e. cc), tt))));
}

apart : codes "u1" ≢ codes "u2"
apart e = ground arith

fresh_records :
    All
      (λ rec.
        has_label label_liveness (codes "true") rec.labels ≡ true
        → uid_of sweeper rec ≡ codes "u2"
        → (last : ℕ) → clock (get_or [] last_reconciled rec.config) ≡ some last
        → 100 ≤ last + 10)
      (two_records provider)
unfolding text_eq
fresh_records =
    ((λ l e. cc), ((λ l e. cc), ((λ l e. absurd (apart e)), ((λ l e last t. ground arith), tt))))

sweep_records-IsSafe_example : Safe (sweep_records sweeper clock 100 two_records).1
sweep_records-IsSafe_example =
    sweep_records-IsSafe held provider (child_id other_child) (codes "u2") (some other_child)
      sweeper (memory-IsCluster provider) (memory-IsSeparate provider) host-IsCluster
      host-IsSeparate clock 100 two_records two_records-Safe fresh_records
