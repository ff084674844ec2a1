-- ===== src/Controller/Sweeper/Reclaimed.antt =====
-- What a sweep of an orphan's children leaves behind.
use krop_controller.Base.{
  ℕ, Text, ◌==◌, text_eq, ◌≡◌, ◌≢◌, refl, ap, subst, sym, ◌∙◌, Bool-cases, inl, inr, false, Option,
  none, some, List, [], ◌∷◌, ◌++◌, All, All-map, length, length-append, arith,
}
use krop_controller.Base.Bytes.{codes, trim_suffix}
use krop_controller.Base.Dict.{get_or}
use krop_controller.Base.Result.{Result, ok, Prog, ◌>>◌}
use krop_controller.Base.Stable.{Stable, for_each-Stable, for_each-All, bind-ok}
use krop_controller.Api.Object.{Gvk, Object}
use krop_controller.Api.Client.{Client, list_gvk}
use krop_controller.Api.Clusters.{item_gvk, marked, IsCluster}
use krop_controller.Engine.Route.{Target, provider, host}
use krop_controller.Engine.Labels.{label_instance_uid}
use krop_controller.Controller.Deletion.{
  delete_one, IsReclaimed, reclaim_kind-IsReclaimed, reclaim_kind-Stable,
}
use krop_controller.Controller.Children.{has_label}
use krop_controller.Controller.Liveness.{provider_child_gvks, host_child_gvks}
use krop_controller.Controller.Tokens.{parse_gvk_string}
use krop_controller.Controller.Sweeper.{
  Sweeper, sweep_kind, sweep_children_via, sweep_host, sweep_children,
}

trim_suffix-append : (suffix s : Text) → suffix ≢ [] → trim_suffix suffix (s ++ suffix) ≡ s
unfolding trim_suffix
trim_suffix-append [] [] n = refl
trim_suffix-append (y ∷ suffix) [] n = ground arith
trim_suffix-append suffix (x ∷ s) n = elim (text_eq.dec (x ∷ (s ++ suffix)) suffix) [
  | yes e ↦ absurd (omega (arith, ap (λ (u : Text). length u) e, length-append s suffix))
  | no d ↦ ground (arith, trim_suffix-append suffix s)
]

-- The kind that a list call names brings the items' kind, whatever that is.
item_gvk-list_gvk : (g : Gvk) → item_gvk (list_gvk g) ≡ g
unfolding item_gvk
item_gvk-list_gvk g =
    ap (λ (k : Text). record g { kind = k }) (trim_suffix-append (codes "List") g.kind (λ e. cc))

module _ {W : Type 0} (objects : Target → W → List Object) (instance_uid : Text) (t : Target)
    (c : Client W) (cluster : IsCluster objects t c) where
  -- No object of the kind with the instance's uid label is left, but what waits for its finalizers.
  abbrev pub KindSwept : Gvk → W → Type 0
  KindSwept g = IsReclaimed objects t g (has_label label_instance_uid instance_uid) (λ _. false)

  sweep_kind-Stable :
      (u : Target) (P : Object → Type 0)
      → ((now : ℕ) (o : Object) → P o → P (marked now o))
      → (g : Gvk) → Stable (λ w. All P (objects u w)) (sweep_kind c instance_uid g)
  unfolding sweep_kind delete_one
  sweep_kind-Stable u P k g =
      reclaim_kind-Stable objects t c cluster u P k (list_gvk g)
        (has_label label_instance_uid instance_uid) (λ _. false) (codes "listing children")
        (λ o. codes "deleting " ++ o.name)

  sweep_kind-KindSwept :
      (g : Gvk) (w : W)
      → (sweep_kind c instance_uid g w).0 ≡ ok tt
      → KindSwept g (sweep_kind c instance_uid g w).1
  unfolding sweep_kind delete_one
  sweep_kind-KindSwept g w done =
      subst (λ (k : Gvk). KindSwept k (sweep_kind c instance_uid g w).1) (item_gvk-list_gvk g)
        (reclaim_kind-IsReclaimed objects t c cluster (list_gvk g)
          (has_label label_instance_uid instance_uid) (λ _. false) (codes "listing children")
          (λ o. codes "deleting " ++ o.name) w (λ _ _ _. refl) done)

  pub sweep_children_via-Stable :
      (u : Target) (P : Object → Type 0)
      → ((now : ℕ) (o : Object) → P o → P (marked now o))
      → (raw : Text) → Stable (λ w. All P (objects u w)) (sweep_children_via c raw instance_uid)
  unfolding sweep_children_via
  sweep_children_via-Stable u P k raw =
      for_each-Stable (λ w. All P (objects u w)) (sweep_kind c instance_uid) (parse_gvk_string raw)
        (sweep_kind-Stable u P k)

  pub sweep_children_via-KindSwept :
      (raw : Text) (w : W)
      → (sweep_children_via c raw instance_uid w).0 ≡ ok tt
      → All (λ g. KindSwept g (sweep_children_via c raw instance_uid w).1) (parse_gvk_string raw)
  unfolding sweep_children_via
  sweep_children_via-KindSwept raw w done =
      for_each-All KindSwept (sweep_kind c instance_uid) sweep_kind-KindSwept
        (λ h g. sweep_kind-Stable t _ (λ now o m eg es ek. ground arith) h) (parse_gvk_string raw) w
        done

module _ {W : Type 0} (objects : Target → W → List Object) (s : Sweeper W)
    (provider_cluster : IsCluster objects provider s.provider_client)
    (host_cluster : (c : Client W) → s.host_client ≡ some c → IsCluster objects host c)
    (rec : Object) (instance_uid : Text) where
  -- The kinds that a record names, and what sweeping them all leaves in a target's cluster.
  abbrev pub KindsSwept : Target → Text → W → Type 0
  KindsSwept t key w =
      All (λ g. IsReclaimed objects t g (has_label label_instance_uid instance_uid) (λ _. false) w)
        (parse_gvk_string (get_or [] key rec.config))

  sweep_host-KindsSwept :
      (c : Client W) (w : W)
      → s.host_client ≡ some c
      → (sweep_host s rec instance_uid w).0 ≡ ok tt
      → KindsSwept host host_child_gvks (sweep_host s rec instance_uid w).1
  unfolding sweep_host
  sweep_host-KindsSwept c w e done =
      rw (e, sweep_host)
        (sweep_children_via-KindSwept objects instance_uid host c (host_cluster c e)
          (get_or [] host_child_gvks rec.config) w (rw (e, sweep_host) at done))

  pub sweep_host-Stable :
      (u : Target) (P : Object → Type 0)
      → ((now : ℕ) (o : Object) → P o → P (marked now o))
      → Stable (λ w. All P (objects u w)) (sweep_host s rec instance_uid)
  unfolding sweep_host
  sweep_host-Stable u P k w p = go s.host_client refl
    where
      go :
          (o : Option (Client W))
          → s.host_client ≡ o
          → All P (objects u (sweep_host s rec instance_uid w).1)
      go none e = rw (e, sweep_host) p
      go (some c) e =
          rw (e, sweep_host)
            (sweep_children_via-Stable objects instance_uid host c (host_cluster c e) u P k _ w p)

  -- The two loops in turn.
  abbrev planes : Prog W (Unit {0})
  planes = do
    sweep_children_via s.provider_client (get_or [] provider_child_gvks rec.config) instance_uid
    sweep_host s rec instance_uid

  planes-KindsSwept :
      (w : W)
      → (planes w).0 ≡ ok tt
      → KindsSwept provider provider_child_gvks (planes w).1
        × ((c : Client W) → s.host_client ≡ some c → KindsSwept host host_child_gvks (planes w).1)
  planes-KindsSwept w done =
      let via =
        sweep_children_via s.provider_client (get_or [] provider_child_gvks rec.config)
          instance_uid in
      let (_, e, q) = bind-ok via (λ _. sweep_host s rec instance_uid) w done in
      let done' = ap (λ (r : Result (Unit {0}) × W). r.0) (sym q) ∙ done in
      subst
        (λ (r : Result (Unit {0}) × W).
          KindsSwept provider provider_child_gvks r.1
          × ((c : Client W) → s.host_client ≡ some c → KindsSwept host host_child_gvks r.1))
        (sym q)
        (
          All-map
              (λ g.
                IsReclaimed objects provider g (has_label label_instance_uid instance_uid)
                  (λ _. false) (via w).1)
              _ _
              (λ g m. sweep_host-Stable provider _ (λ now o k eg es ek. ground arith) (via w).1 m)
              (sweep_children_via-KindSwept objects instance_uid provider s.provider_client
                provider_cluster _ w e),
          λ c h. sweep_host-KindsSwept c (via w).1 h done',
        )

  -- When the children of an orphan are swept with no error, every object that has the instance's uid
  -- label and one of the kinds that the record names, in the provider workspace and in the host cluster if
  -- there is a client of it, is gone or marked as deleted. A record with no uid is an error.
  pub sweep_children-KindsSwept :
      (w : W)
      → (sweep_children s rec instance_uid w).0 ≡ ok tt
      → (instance_uid ≢ [])
        × KindsSwept provider provider_child_gvks (sweep_children s rec instance_uid w).1
        × ((c : Client W)
            → s.host_client ≡ some c
            → KindsSwept host host_child_gvks (sweep_children s rec instance_uid w).1)
  unfolding sweep_children
  sweep_children-KindsSwept w done = elim (Bool-cases (instance_uid == [])) [
    | inl missing ↦ absurd (ground (arith, missing))
    | inr there ↦ (
      ground arith,
      rw there (planes-KindsSwept w (rw there at done)).0,
      λ c h. rw there ((planes-KindsSwept w (rw there at done)).1 c h),
    )
  ]
