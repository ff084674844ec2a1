-- ===== src/Process/Serve/Built.antt =====
-- What the manager of an export is built of (`startFn` of cmd/controller/main.go).
use krop_controller.Base.{
  Text, ◌≡◌, refl, ◌∙◌, subst, Bool, true, Option, none, some, List, [], ◌++◌, arith,
}
use krop_controller.Base.Bytes.{codes}
use krop_controller.Base.Result.{
  failure, Result, ok, err, Prog, context, reads, for_each, ◌>>=◌, ◌>>◌,
}
use krop_controller.Base.Stable.{Stable, bind-Stable, bind-Stable_ok, for_each-Stable}
use krop_controller.Api.Client.{Client}
use krop_controller.Controller.Config.{Reconciler}
use krop_controller.Kcp.{EndpointSlice, find_endpoint_slice}
use krop_controller.Kcp.First.{IsFirst, find_endpoint_slice_iff}
use krop_controller.Process.{ServedBlueprint, Published, get_served, recorded_blueprint}
use krop_controller.Process.Serve.{
  Platform, find_slice, await_slice, served_reconciler, controller_name, start_manager,
}

-- What the poll is assumed to do, as its documentation says: it reports no error only after a call of
-- the condition that returned true.
pub record IsPoll {W : Type 0} (poll : Prog (W × Text) Bool → Prog (W × Text) (Unit {0}))
    : Type 0 where
  pub polled :
      (condition : Prog (W × Text) Bool) (s : W × Text)
      → (poll condition s).0 ≡ ok tt
      → (t : W × Text) × (condition t ≡ (ok true, (poll condition s).1))

-- A reconciler for the instances of a published blueprint, with the clients of the process and records
-- in the namespace that is the default.
abbrev pub Serves :
    {W : Type 0} → Client W → Option (Client W) → Text → ServedBlueprint → Reconciler W → Type 0
Serves provider_client host_client export sb r =
    (r.graph ≡ sb.graph.nodes)
    × (r.routing ≡ sb.routing)
    × (r.instance_gvk ≡ sb.gvk)
    × (r.blueprint_name ≡ export)
    × (r.record_namespace ≡ [])
    × (r.provider_client ≡ provider_client)
    × (r.host_client ≡ host_client)

module _ {W P M : Type 0} (platform : Platform W P M) (is_poll : IsPoll platform.poll)
    (provider_client : Client W) (host_client : Option (Client W)) (Q : W → Type 0) (export : Text)
    (registry : Published)
    (polls : (condition : Prog (W × Text) Bool)
      → Stable (λ s. Q s.0) condition
      → Stable (λ s. Q s.0) (platform.poll condition))
    (managers : (p : P) → Stable Q (platform.new_manager p))
    (starts : (m : M) → Stable Q (platform.start m))
    (providers : (n : Text) (w : W) (slices : List EndpointSlice)
      → platform.list_slices w ≡ ok slices
      → IsFirst export slices n
      → Stable Q (platform.new_provider n))
    (controllers : (m : M) (sb : ServedBlueprint) (r : Reconciler W)
      → get_served export registry ≡ some sb
      → Serves provider_client host_client export sb r
      → Stable Q (platform.complete m (codes "krop-instance-" ++ export) sb.gvk r)) where
  -- The name that the poll has stored is that of a slice of the export.
  IsFound : Text → Type 0
  IsFound n =
      (w : W) × (slices : List EndpointSlice) × (platform.list_slices w ≡ ok slices)
      × IsFirst export slices n

  listed : (w : W) (n : Text) → find_endpoint_slice platform.list_slices export w ≡ ok n → IsFound n
  unfolding IsFound find_endpoint_slice
  listed w n h = go (platform.list_slices w) refl h
    where
      go :
          (r : Result (List EndpointSlice))
          → platform.list_slices w ≡ r
          → find_endpoint_slice platform.list_slices export w ≡ ok n
          → IsFound n
      go (err e) q h = absurd (ground (arith, q, h))
      go (ok slices) q h =
          (w, slices, q, (find_endpoint_slice_iff platform.list_slices export n w slices q).0 h)

  IsFound-by_condition :
      (t : W × Text) (u : W) (n : Text)
      → find_slice platform provider_client host_client export t ≡ (ok true, (u, n))
      → IsFound n
  unfolding find_slice
  IsFound-by_condition (w, m) u n = go (find_endpoint_slice platform.list_slices export w) refl
    where
      go :
          (r : Result Text)
          → find_endpoint_slice platform.list_slices export w ≡ r
          → find_slice platform provider_client host_client export (w, m) ≡ (ok true, (u, n))
          → IsFound n
      go (err e) q h = absurd (ground (arith, q, h))
      go (ok name) q h = listed w n (q ∙ ground (arith, q, h))

  await_slice-IsFound :
      (w : W) (n : Text)
      → (await_slice platform provider_client host_client export w).0 ≡ ok n
      → IsFound n
  unfolding await_slice
  await_slice-IsFound w n = go (platform.poll condition (w, [])).0 refl
    where
      condition : Prog (W × Text) Bool
      condition = find_slice platform provider_client host_client export

      go :
          (r : Result (Unit {0}))
          → (platform.poll condition (w, [])).0 ≡ r
          → (await_slice platform provider_client host_client export w).0 ≡ ok n
          → IsFound n
      go (err e) q h = absurd (ground (arith, q, h))
      go (ok _) q h =
          let (t, last) = is_poll.polled condition (w, []) q in
          subst IsFound (ground (arith, q, h))
            (IsFound-by_condition t _ (platform.poll condition (w, [])).1.1 last)

  find_slice-Stable : Stable (λ s. Q s.0) (find_slice platform provider_client host_client export)
  unfolding find_slice
  find_slice-Stable (w, n) q = ground (arith, q)

  await_slice-Stable : Stable Q (await_slice platform provider_client host_client export)
  unfolding await_slice
  await_slice-Stable w q =
      polls (find_slice platform provider_client host_client export) find_slice-Stable (w, []) q

  recorded_found :
      (sb : ServedBlueprint)
      → recorded_blueprint export registry ≡ ok sb
      → get_served export registry ≡ some sb
  unfolding recorded_blueprint
  recorded_found sb h = ground (arith, h)

  unrecorded :
      get_served export registry ≡ none
      → recorded_blueprint export registry
        ≡ err (failure (codes "no served blueprint recorded for export " ++ export))
  unfolding recorded_blueprint
  unrecorded h = rw (h, recorded_blueprint) refl

  -- `startFn` from the endpoint slice on.
  abbrev with_slice : ServedBlueprint → Text → Prog W (Unit {0})
  with_slice sb n = do
    for_each platform.registrations
        (λ added. context (codes "registering instance scheme") (reads (λ _. added)))
    p ← context (codes "constructing apiexport provider") (platform.new_provider n)
    m ← context (codes "setting up instance manager") (platform.new_manager p)
    context (codes "building krop-instance controller") (
        platform.complete m (controller_name platform provider_client host_client export) sb.gvk
          (served_reconciler platform provider_client host_client export sb))
    platform.start m

  built :
      (sb : ServedBlueprint) (n : Text)
      → get_served export registry ≡ some sb
      → IsFound n
      → Stable Q (with_slice sb n)
  unfolding IsFound
  built sb n found (w, slices, q, first) =
      bind-Stable Q (for_each platform.registrations _) _
        (for_each-Stable Q
          (λ added. context (codes "registering instance scheme") (reads (λ _. added)))
          platform.registrations (λ added v k. k))
        λ _.
          bind-Stable Q
            (context (codes "constructing apiexport provider") (platform.new_provider n)) _
            (providers n w slices q first)
            λ p.
              bind-Stable Q (context (codes "setting up instance manager") (platform.new_manager p))
                _ (managers p)
                λ m.
                  bind-Stable Q (context (codes "building krop-instance controller") _)
                    (λ _. platform.start m)
                    (controllers m sb _ found (refl, refl, refl, refl, refl, refl, refl))
                    (λ _. starts m)

  -- The manager of an export is built for that export. Whatever a poll keeps of what its condition keeps
  -- and the new managers and their runs keep, is kept, if two kinds of calls keep it too: that of a
  -- provider for an endpoint slice that is the export's first in some list, and that of a controller which
  -- is named after the export, watches the kind of the blueprint in the registry, and reconciles with that
  -- blueprint's graph, routing and kind, the export's name and the clients of the process. With no
  -- blueprint in the registry, nothing is called at all.
  pub start_manager-builds :
      (w : W)
      → Q w
      → let run = start_manager platform provider_client host_client export registry w in
        Q run.1 × (get_served export registry ≡ none → run.1 ≡ w)
  unfolding start_manager
  start_manager-builds w q = (
    bind-Stable_ok Q (reads (λ _. recorded_blueprint export registry)) _ (λ v k. k)
        (λ sb v recorded k.
          bind-Stable_ok Q (await_slice platform provider_client host_client export) _
            await_slice-Stable
            (λ n u awaited k'.
              built sb n (recorded_found sb recorded) (await_slice-IsFound u n awaited) _ k')
            v k)
        w q,
    λ missing. rw (unrecorded missing, start_manager) refl,
  )
