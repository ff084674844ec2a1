-- ===== src/Process/Setup/Started.antt =====
-- When the process starts (`run` of cmd/controller/main.go).
use krop_controller.Base.{text_eq, ◌≡◌, ◌↔◌, ◌⊎◌, refl, Option, none, some, [], arith, inl, inr}
use krop_controller.Base.Bytes.{codes}
use krop_controller.Base.Result.{
  Error, Result, ok, err, Prog, continue, context, for_each, reads, ◌>>=◌, ◌>>◌,
}
use krop_controller.Base.Stable.{Stable, bind-Stable, for_each-Stable}
use krop_controller.Process.Setup.{
  Machine, Flags, manager_options, host_config, host_client_of, host_face, the_registrar,
  run_controllers, run, new_endpoint_graph_source,
}
use krop_controller.Process.Serve.{orphan_sweeper}
use krop_controller.Controller.Deletion.{context_of_ok}
use krop_controller.Kcp.{validate_kubeconfig}

module _ {W K C M H B D G : Type 0} (machine : Machine W K C M H B D G) (flags : Flags) where
  -- The host target is disabled exactly if no host kubeconfig is named and there is no configuration of a
  -- cluster around the process. A host kubeconfig that cannot be loaded is an error.
  pub host_config-none_iff :
      (w : W)
      → (host_config machine flags w ≡ ok none)
        ↔ ((flags.host_kubeconfig ≡ []) × ((e : Error) × (machine.in_cluster_config w ≡ err e)))
  unfolding host_config
  host_config-none_iff w = (
    λ h. disabled (machine.in_cluster_config w) refl h,
    λ (unnamed, (e, outside)). ground (arith, unnamed, outside),
  )
    where
      disabled :
          (r : Result K)
          → machine.in_cluster_config w ≡ r
          → host_config machine flags w ≡ ok none
          → (flags.host_kubeconfig ≡ []) × ((e : Error) × (machine.in_cluster_config w ≡ err e))
      disabled (err e) q h = (ground (arith, h), (e, q))
      disabled (ok cfg) q h = absurd (ground (arith, q, h))

-- A chain of steps fails with `P` kept, or comes to its last step.
module _ {S : Type 0} (P : S → Type 0) (Last : Result (Unit {0}) × S → Type 0) where
  abbrev Ends : Result (Unit {0}) × S → Type 0
  Ends t = ((e : Error) × (t.0 ≡ err e) × P t.1) ⊎ Last t

  bind-Ends :
      {A : Type 0} (m : Prog S A) (f : A → Prog S (Unit {0})) (s : S)
      → Stable P m
      → P s
      → ((a : A) (v : S) → (m s).0 ≡ ok a → P v → Ends (f a v))
      → Ends ((m >>= f) s)
  bind-Ends m f s hm p goes = go (m s).0 refl
    where
      go : (r : Result _) → (m s).0 ≡ r → Ends (continue r f (m s).1)
      go (ok a) q = goes a (m s).1 q (hm s p)
      go (err e) q = inl (e, refl, hm s p)

module _ {W K C M H B D G : Type 0} (machine : Machine W K C M H B D G) (flags : Flags) (cfg : K)
    (P : W → Type 0) (managers : Stable P (machine.new_manager cfg (manager_options machine flags)))
    (health_checks : (m : M) → Stable P (machine.add_healthz_check m))
    (ready_checks : (m : M) → Stable P (machine.add_readyz_check m))
    (clients : (k : K) → Stable P (machine.new_client k))
    (registrars : (m : M) (c : C) (b : B)
      → Stable P (machine.add_registrar m (the_registrar machine flags cfg c) b))
    (sweepers : (m : M) (c : C) (h : Option C)
      → Stable P (
          machine.add_sweeper m
            (orphan_sweeper (machine.as_client c) (host_face machine flags h)))) where
  host_client_of-Stable : (k : Option K) → Stable P (host_client_of machine flags k)
  unfolding host_client_of
  host_client_of-Stable none = λ w p. p
  host_client_of-Stable (some k) =
      bind-Stable P
        (context (codes "registering host scheme") (reads (λ _. machine.host_registration))) _
        (λ w p. p)
        λ _.
          bind-Stable P (context (codes "host client") (machine.new_client k))
            (λ c s. (ok (some c), s)) (clients k) (λ c w p. p)

  abbrev pub HasStarted : Result (Unit {0}) × W → Type 0
  HasStarted t =
      (validate_kubeconfig (machine.host_of cfg) ≡ ok tt)
      × (m : M) × (v : W) × P v
      × (t ≡ context (codes "running provider manager") (machine.start m) v)

  abbrev added : Result (Unit {0}) → Prog W (Unit {0})
  added x = context (codes "registering provider scheme") (reads (λ _. x))

  run_controllers-Ends :
      validate_kubeconfig (machine.host_of cfg) ≡ ok tt
      → (m : M) (c : C) (h : Option C) (b : B) (w : W) → P w
      → Ends P HasStarted (run_controllers machine flags cfg m c h b w)
  unfolding run_controllers
  run_controllers-Ends scoped m c h b w p =
      let sweeper = orphan_sweeper (machine.as_client c) (host_face machine flags h) in
      bind-Ends P HasStarted
        (context (codes "building registrar controller")
          (machine.add_registrar m (the_registrar machine flags cfg c) b))
        (λ _.
          context (codes "adding orphan sweeper") (machine.add_sweeper m sweeper)
          >> context (codes "running provider manager") (machine.start m))
        w (registrars m c b) p
        λ _ w₁ _ p₁.
          bind-Ends P HasStarted
            (context (codes "adding orphan sweeper") (machine.add_sweeper m sweeper))
            (λ _. context (codes "running provider manager") (machine.start m)) w₁ (sweepers m c h)
            p₁ λ _ w₂ _ p₂. inr (scoped, m, w₂, p₂, refl)

  -- `run` from the provider's client on.
  abbrev with_client : M → Prog W (Unit {0})
  with_client m = do
    c ← context (codes "provider client") (machine.new_client cfg)
    host_cfg ← reads (host_config machine flags)
    h ← host_client_of machine flags host_cfg
    b ←
        context (codes "graph source")
          (reads (λ _. new_endpoint_graph_source machine.builders (some cfg)))
    run_controllers machine flags cfg m c h b

  with_client-Ends :
      validate_kubeconfig (machine.host_of cfg) ≡ ok tt
      → (m : M) (w : W) → P w
      → Ends P HasStarted (with_client m w)
  with_client-Ends scoped m w p =
      bind-Ends P HasStarted (context (codes "provider client") (machine.new_client cfg)) _ w
        (clients cfg) p
        λ c w₁ _ p₁.
          bind-Ends P HasStarted (reads (host_config machine flags)) _ w₁ (λ v k. k) p₁
            λ k w₂ _ p₂.
              bind-Ends P HasStarted (host_client_of machine flags k) _ w₂ (host_client_of-Stable k)
                p₂
                λ h w₃ _ p₃.
                  bind-Ends P HasStarted
                    (context (codes "graph source")
                      (reads (λ _. new_endpoint_graph_source machine.builders (some cfg))))
                    (run_controllers machine flags cfg m c h) w₃ (λ v k. k) p₃
                    λ b w₄ _ p₄. run_controllers-Ends scoped m c h b w₄ p₄

  -- `run` from the provider's manager on.
  abbrev with_manager : Prog W (Unit {0})
  with_manager = do
    m ←
        context (codes "setting up provider manager")
          (machine.new_manager cfg (manager_options machine flags))
    context (codes "adding healthz check") (machine.add_healthz_check m)
    context (codes "adding readyz check") (machine.add_readyz_check m)
    with_client m

  with_manager-Ends :
      validate_kubeconfig (machine.host_of cfg) ≡ ok tt
      → (w : W) → P w
      → Ends P HasStarted (with_manager w)
  with_manager-Ends scoped w p =
      bind-Ends P HasStarted
        (context (codes "setting up provider manager")
          (machine.new_manager cfg (manager_options machine flags)))
        _ w managers p
        λ m w₁ _ p₁.
          bind-Ends P HasStarted
            (context (codes "adding healthz check") (machine.add_healthz_check m)) _ w₁
            (health_checks m) p₁
            λ _ w₂ _ p₂.
              bind-Ends P HasStarted
                (context (codes "adding readyz check") (machine.add_readyz_check m))
                (λ _. with_client m) w₂ (ready_checks m) p₂
                λ _ w₃ _ p₃. with_client-Ends scoped m w₃ p₃

  -- The process fails before it has started anything, or it starts the provider's manager once, as its
  -- last step, and only for a host that is workspace-scoped. Up to there it keeps what the building of the
  -- manager and of clients keeps, and the adding of a registrar for the workspace that the host names and
  -- of a sweeper with the orphan limits over the same client.
  pub run-HasStarted :
      (w : W)
      → P w
      → ((e : Error) × ((run machine flags cfg w).0 ≡ err e) × P (run machine flags cfg w).1)
        ⊎ HasStarted (run machine flags cfg w)
  unfolding run
  run-HasStarted w p =
      bind-Ends P HasStarted
        (context (codes "kubeconfig must be workspace-scoped")
          (reads (λ _. validate_kubeconfig (machine.host_of cfg))))
        _ w (λ v k. k) p
        λ _ w₁ scoped p₁.
          bind-Ends P HasStarted (for_each machine.provider_registrations added) _ w₁
            (for_each-Stable P added machine.provider_registrations (λ x v k. k)) p₁
            λ _ w₂ _ p₂.
              with_manager-Ends
                (context_of_ok (codes "kubeconfig must be workspace-scoped") _ scoped) w₂ p₂
