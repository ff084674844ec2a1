-- ===== src/Controller/Sweeper/Fresh.antt =====
-- What a sweep must not touch: the children of an instance whose record is fresh.
use krop_controller.Base.{
  ℕ, ◌+◌, ◌≤◌, Text, ◌==◌, text_eq, ◌≡◌, ◌≢◌, refl, ap, subst, sym, ◌∙◌, Bool-cases, inl, inr, true,
  Option, none, some, List, [], ◌∷◌, ◌++◌, map, All, All-map2, All_intro, arith,
}
use krop_controller.Base.Bytes.{codes}
use krop_controller.Base.Dict.{get_or}
use krop_controller.Base.Result.{
  Result, ok, err, continue, context, context_of, ignore_not_found, for_each,
}
use krop_controller.Base.Stable.{
  Stable, for_each-Stable, for_each-Stable_on, reads-Stable, bind-Stable,
}
use krop_controller.Api.Object.{Gvk, gvk_eq, Object, ChildId}
use krop_controller.Api.Client.{Client, Selector, list_gvk}
use krop_controller.Api.Clusters.{
  object_id, unversioned, served, item_gvk, matches, select, object_at, IsCluster, IsSeparate,
}
use krop_controller.Engine.Route.{Target, target_eq, provider, host}
use krop_controller.Engine.Labels.{label_instance_uid, label_liveness}
use krop_controller.Controller.Config.{namespace_or_default}
use krop_controller.Controller.Deletion.{delete-Stable, context_of_ok}
use krop_controller.Controller.Children.{has_label}
use krop_controller.Controller.Children.Kept.{object_at-settle}
use krop_controller.Controller.Liveness.{config_map_gvk, last_reconciled, provider_child_gvks}
use krop_controller.Controller.Tokens.{parse_gvk_string}
use krop_controller.Controller.Sweeper.{
  Sweeper, sweep_kind, sweep_children_via, sweep_host, sweep_children, uid_of, after_children,
  sweep_stale, is_fresh, sweep_record, sweep_records,
}

-- Whatever stands under the identity belongs to the instance `u`.
abbrev pub BelongsTo : Text → ChildId → Object → Type 0
BelongsTo u id o = object_id o ≡ unversioned id → has_label label_instance_uid u o.labels ≡ true

-- An object of another instance stands under another identity.
other_owner :
    (u v : Text) (id : ChildId) (o : Object)
    → BelongsTo u id o
    → v ≢ u
    → has_label label_instance_uid v o.labels ≡ true
    → object_id o ≢ unversioned id
other_owner u v id o b n h e = absurd (n (ground (arith, b e)))

no_owner :
    (u : Text) (id : ChildId) (o : Object)
    → BelongsTo u id o
    → get_or [] label_instance_uid o.labels ≢ u
    → object_id o ≢ unversioned id
no_owner u id o b n e = absurd (n (ground (arith, b e)))

All-select :
    (P Q : Object → Type 0) (g : Gvk) (ns : Text) (sel : Selector) (os : List Object)
    → ((o : Object) → P o → sel o.labels ≡ true → Q (served g o))
    → All P os
    → All Q (map (served g) (select g ns sel os))
All-select P Q g ns sel [] f h = tt
All-select P Q g ns sel (o ∷ os) f h = elim (Bool-cases (matches g ns sel o)) [
  | inl hit ↦ rw hit (f o h.0 (ground arith), All-select P Q g ns sel os f h.1)
  | inr miss ↦ rw miss (All-select P Q g ns sel os f h.1)
]

module _ {W : Type 0} (objects : Target → W → List Object) (t : Target) (id : ChildId) (u : Text)
    (before : Option Object) where
  -- The object is as it was, and still the instance's.
  pub record IsSafe (w : W) : Type 0 where
    pub same : object_at id (objects t w) ≡ before
    pub owned : All (BelongsTo u id) (objects t w)

  module _ (v : Target) (c : Client W) (cluster : IsCluster objects v c)
      (separate : IsSeparate objects v c) where
    delete-IsSafe :
        (x : Object) → (v ≡ t → object_id x ≢ unversioned id) → Stable IsSafe (c.delete x)
    delete-IsSafe x n w p = record {
      same = elim (target_eq.dec t v) [
        | yes e ↦ elim (cluster.delete_anywhere x w t) [
          | inl q ↦ ap (object_at id) q ∙ p.same
          | inr (now, q) ↦
              ap (object_at id) q
              ∙ object_at-settle now id (object_id x) (objects t w) (n (sym e))
              ∙ p.same
        ]
        | no d ↦ ap (object_at id) (separate.delete_elsewhere x w t d) ∙ p.same
      ];
      owned = delete-Stable objects v c cluster t (BelongsTo u id) (λ now o k e. k e) x w p.owned;
    }

    -- What a list call returned, where the owner tells the items from the object.
    listed :
        (g : Gvk) (ns : Text) (sel : Selector) (Q : Object → Type 0) (items : List Object) (w : W)
        → ((o : Object) → BelongsTo u id o → sel o.labels ≡ true → Q o)
        → c.list g ns sel w ≡ ok items
        → IsSafe w
        → All (λ x. v ≡ t → Q x) items
    listed g ns sel Q items w f q p = elim (target_eq.dec v t) [
      | yes e ↦
          subst (λ (os : List Object). All (λ x. v ≡ t → Q x) os)
            (sym (cluster.list_ok g ns sel w items q))
            (All-select (BelongsTo u id) (λ x. v ≡ t → Q x) (item_gvk g) ns sel (objects v w)
              (λ o b h _. f (served (item_gvk g) o) b h)
              (subst (λ (z : Target). All (BelongsTo u id) (objects z w)) (sym e) p.owned))
      | no d ↦ All_intro (λ x. v ≡ t → Q x) items (λ x e. absurd (d e))
    ]

    -- The children of another instance.
    sweep_kind-IsSafe : (uid : Text) → uid ≢ u → (g : Gvk) → Stable IsSafe (sweep_kind c uid g)
    unfolding sweep_kind
    sweep_kind-IsSafe uid n g =
        reads-Stable IsSafe (c.list (list_gvk g) [] (has_label label_instance_uid uid))
          (context_of (codes "listing children"))
          (λ items.
            for_each items
              (λ o. context (codes "deleting " ++ o.name) (ignore_not_found (c.delete o))))
          (λ items w q p.
            for_each-Stable_on IsSafe (λ x. v ≡ t → object_id x ≢ unversioned id) _ items
              (λ x k w' p'. delete-IsSafe x k w' p')
              (listed (list_gvk g) [] (has_label label_instance_uid uid)
                (λ x. object_id x ≢ unversioned id) items w (λ o b h. other_owner u uid id o b n h)
                (context_of_ok (codes "listing children") _ q) p)
              w p)

    sweep_children_via-IsSafe :
        (uid : Text) → uid ≢ u → (raw : Text) → Stable IsSafe (sweep_children_via c raw uid)
    unfolding sweep_children_via
    sweep_children_via-IsSafe uid n raw =
        for_each-Stable IsSafe (sweep_kind c uid) (parse_gvk_string raw) (sweep_kind-IsSafe uid n)

  module _ (s : Sweeper W) (provider_cluster : IsCluster objects provider s.provider_client)
      (provider_separate : IsSeparate objects provider s.provider_client)
      (host_cluster : (c : Client W) → s.host_client ≡ some c → IsCluster objects host c)
      (host_separate : (c : Client W) → s.host_client ≡ some c → IsSeparate objects host c) where
    sweep_host-IsSafe :
        (uid : Text) → uid ≢ u → (rec : Object) → Stable IsSafe (sweep_host s rec uid)
    unfolding sweep_host
    sweep_host-IsSafe uid n rec w p = go s.host_client refl
      where
        go : (o : Option (Client W)) → s.host_client ≡ o → IsSafe (sweep_host s rec uid w).1
        go none e = rw (e, sweep_host) p
        go (some c) e =
            rw (e, sweep_host)
              (sweep_children_via-IsSafe host c (host_cluster c e) (host_separate c e) uid n _ w p)

    sweep_children-IsSafe :
        (uid : Text) → uid ≢ u → (rec : Object) → Stable IsSafe (sweep_children s rec uid)
    unfolding sweep_children
    sweep_children-IsSafe uid n rec w p = elim (Bool-cases (uid == [])) [
      | inl missing ↦ rw missing p
      | inr there ↦ rw there (
          bind-Stable IsSafe
            (sweep_children_via s.provider_client (get_or [] provider_child_gvks rec.config) uid)
            (λ _. sweep_host s rec uid)
            (sweep_children_via-IsSafe provider s.provider_client provider_cluster provider_separate
              uid n _)
            (λ _. sweep_host-IsSafe uid n rec) w p)
    ]

    after_children-IsSafe :
        (rec : Object)
        → (provider ≡ t → object_id rec ≢ unversioned id)
        → (r : Result (Unit {0})) → Stable IsSafe (after_children s rec r)
    unfolding after_children
    after_children-IsSafe rec n (ok _) w p =
        delete-IsSafe provider s.provider_client provider_cluster provider_separate rec n w p
    after_children-IsSafe rec n (err e) w p = p

    sweep_stale-IsSafe :
        (rec : Object)
        → uid_of s rec ≢ u
        → (provider ≡ t → object_id rec ≢ unversioned id)
        → Stable IsSafe (sweep_stale s rec)
    unfolding sweep_stale
    sweep_stale-IsSafe rec n m w p =
        after_children-IsSafe rec m _ _ (sweep_children-IsSafe (uid_of s rec) n rec w p)

    module _ (parse_time : Text → Option ℕ) (now : ℕ) where
      -- A record that is the instance's is fresh, and no record of another instance is the object.
      abbrev IsHarmless : Object → Type 0
      IsHarmless rec =
          (uid_of s rec ≡ u → is_fresh s parse_time now rec ≡ true)
          × (uid_of s rec ≢ u → provider ≡ t → object_id rec ≢ unversioned id)

      sweep_record-IsSafe :
          (rec : Object) → IsHarmless rec → Stable IsSafe (sweep_record s parse_time now rec)
      unfolding sweep_record
      sweep_record-IsSafe rec h w p = elim (Bool-cases (is_fresh s parse_time now rec)) [
        | inl fresh ↦ rw fresh p
        | inr stale ↦
            let other : uid_of s rec ≢ u = λ e. cc (h.0 e, stale) in
            rw stale (sweep_stale-IsSafe rec other (h.1 other) w p)
      ]

      -- The record's time, where it can be read, is at most `StaleAfter` ago.
      abbrev pub IsLive : Object → Type 0
      IsLive rec =
          (last : ℕ)
          → parse_time (get_or [] last_reconciled rec.config) ≡ some last
          → now ≤ last + s.stale_after

      live-is_fresh : (rec : Object) → IsLive rec → is_fresh s parse_time now rec ≡ true
      live-is_fresh rec live = go (parse_time (get_or [] last_reconciled rec.config)) refl
        where
          go :
              (time : Option ℕ)
              → parse_time (get_or [] last_reconciled rec.config) ≡ time
              → is_fresh s parse_time now rec ≡ true
          go none e = rw (e, is_fresh) refl
          go (some last) e = rw (e, is_fresh) (ground (arith, live last e))

      -- A sweep leaves an object exactly as it is, if the object belongs to an instance whose liveness
      -- records are all live: none has a readable time more than `StaleAfter` ago. Other instances may be
      -- swept in the same pass, and any call may fail on the way.
      pub sweep_records-IsSafe :
          (w : W)
          → IsSafe w
          → All
              (λ rec.
                has_label label_liveness (codes "true") rec.labels ≡ true
                → uid_of s rec ≡ u
                → IsLive rec)
              (objects provider w)
          → IsSafe (sweep_records s parse_time now w).1
      unfolding sweep_records
      sweep_records-IsSafe w p live = go (records_call w) refl
        where
          records_call : W → Result (List Object)
          records_call v =
              s.provider_client.list (list_gvk config_map_gvk)
                (namespace_or_default s.record_namespace) (has_label label_liveness (codes "true"))
                v

          go :
              (r : Result (List Object))
              → records_call w ≡ r
              → IsSafe
                  (continue
                    (context_of (codes "listing liveness records") r)
                    (λ records. for_each records (sweep_record s parse_time now))
                    w).1
          go (err e) q = p
          go (ok items) q =
              for_each-Stable_on IsSafe IsHarmless (sweep_record s parse_time now) items
                sweep_record-IsSafe
                (All-map2 (λ x. uid_of s x ≡ u → is_fresh s parse_time now x ≡ true)
                  (λ x. provider ≡ t → uid_of s x ≢ u → object_id x ≢ unversioned id) IsHarmless
                  items (λ x a b. (a, λ n e. b e n))
                  (subst
                    (λ (os : List Object).
                      All (λ x. uid_of s x ≡ u → is_fresh s parse_time now x ≡ true) os)
                    (sym (
                      provider_cluster.list_ok (list_gvk config_map_gvk)
                        (namespace_or_default s.record_namespace)
                        (has_label label_liveness (codes "true")) w items q))
                    (All-select _ (λ x. uid_of s x ≡ u → is_fresh s parse_time now x ≡ true)
                      (item_gvk (list_gvk config_map_gvk)) _ _ (objects provider w)
                      (λ o l h e.
                        live-is_fresh (served (item_gvk (list_gvk config_map_gvk)) o) (l h e))
                      live))
                  (listed provider s.provider_client provider_cluster provider_separate
                    (list_gvk config_map_gvk) _ _
                    (λ x. uid_of s x ≢ u → object_id x ≢ unversioned id) items w
                    (λ o b h n. no_owner u id o b n) q p))
                w p
