-- ===== src/Process/Passes/Publishes.antt =====
-- A publish keeps the marks and the cache, up to the call of `OnPublished` and the update of the status.
use krop_controller.Base.{
  Text, text_eq, ◌==◌, if◌then◌else◌, ◌≡◌, ◌⊎◌, inl, inr, refl, ap, ◌∙◌, subst, sym, Bool, true,
  false, Option, none, some, List, arith, Bool-cases,
}
use krop_controller.Base.Result.{Error, Result, ok, err, Prog}
use krop_controller.Base.Stable.{Stable}
use krop_controller.Api.Object.{Condition}
use krop_controller.Api.Blueprint.{Blueprint, BlueprintSpec, KroSpec, to_kro}
use krop_controller.Registrar.Cache.{GraphCache, get_graph, put_graph}
use krop_controller.Registrar.Cache.Laws.{get_graph-put_here}
use krop_controller.Registrar.Publish.{Schema, Crd, spec_hash}
use krop_controller.Registrar.Reconcile.{
  Graph, Site, Registrar, at_site, fail_with, or_fail, go_on_or_fail, build_graph,
}
use krop_controller.Process.Passes.{Mark, mark_of, IsUnmoved, IsMarked}
use krop_controller.Process.Passes.Outcome.{IsBuilt, Quiet, quiet, Ends}

module _ {W : Type 0} (digest : Text → Text) (marshal : BlueprintSpec → Result Text)
    (build : Text → KroSpec → W → Result Graph) (convert : Crd → Text → Result Schema)
    (set_condition : List Condition → Condition → List Condition) (error_text : Error → Text)
    (r : Registrar W) (marks : Text → W → Option Mark) (Known : Text → BlueprintSpec → Type 0)
    (marked : IsMarked marks r.client) (hooked : r.has_on_published ≡ true)
    (one_spec : (n hash : Text) (spec spec' : BlueprintSpec)
      → Known n spec
      → Known n spec'
      → spec_hash digest marshal spec ≡ ok hash
      → spec_hash digest marshal spec' ≡ ok hash
      → spec ≡ spec') where
  abbrev AllBuilt : GraphCache Graph → Type 0
  AllBuilt = IsBuilt digest marshal build convert r marks Known

  module _ (s0 : Site W) where
    abbrev Still : Site W → Type 0
    Still = Quiet digest marshal build convert r marks Known s0

    abbrev End : Result Bool × Site W → Type 0
    End = Ends digest marshal build convert r marks Known s0

    pub quiet-world :
        (s : Site W) (w : W)
        → ((n : Text) (x : Mark) → marks n w ≡ some x → marks n s.world ≡ some x)
        → Still s
        → Still (record s { world = w })
    quiet-world s w u q = record {
      kept = record { unmoved = λ n x h. q.kept.unmoved n x (u n x h); cached = q.kept.cached };
      silent = q.silent;
    }

    pub quiet-at_site : {A : Type 0} (m : Prog W A) → IsUnmoved marks m → Stable Still (at_site m)
    quiet-at_site m u s q = quiet-world s (m s.world).1 (λ n x h. u n x s.world h) q

    module _ (bp : Blueprint) (read : marks bp.name s0.world ≡ some (mark_of bp))
        (known : Known bp.name bp.spec) where
      fail_with-Quiet :
          (A : Type 0) (reason : Text) (e : Error)
          → Stable Still (
              fail_with digest marshal build convert set_condition error_text r {A = A} bp reason e)
      unfolding fail_with
      fail_with-Quiet A reason e s q = record {
        kept = record {
          unmoved = λ n x h. elim (marked.status_written _ n x s.world h) [
            | inl before ↦ q.kept.unmoved n x before
            | inr (there, same) ↦
                ap (λ (k : Text). marks k s0.world) there ∙ read ∙ ap some (sym same)
          ];
          cached = q.kept.cached;
        };
        silent = q.silent;
      }

      pub or_fail-Ends :
          {A : Type 0} (reason : Text) (m : Prog (Site W) A) (f : A → Prog (Site W) Bool)
          → Stable Still m
          → ((a : A) (s : Site W) → (m s).0 ≡ ok a → Still s → Still (m s).1 → End (f a (m s).1))
          → (s : Site W) → Still s
          → End (or_fail digest marshal build convert set_condition error_text r bp reason m f s)
      unfolding or_fail go_on_or_fail
      or_fail-Ends reason m f keeps goes s q = go (m s).0 refl
        where
          go :
              (x : Result _)
              → (m s).0 ≡ x
              → End (
                  go_on_or_fail digest marshal build convert set_condition error_text r bp reason f
                    x
                    (m s).1)
          go (ok a) e = goes a s e q (keeps s q)
          go (err x) e = quiet (fail_with-Quiet Bool reason x (m s).1 (keeps s q))

      put_graph-IsBuilt :
          (hash : Text) (g : Graph) (w : W) (cache : GraphCache Graph)
          → spec_hash digest marshal bp.spec ≡ ok hash
          → build bp.name (to_kro bp.spec).0 w ≡ ok g
          → AllBuilt cache
          → AllBuilt (put_graph r.workspace bp.name hash g cache)
      put_graph-IsBuilt hash g w cache hashed built old n h' g' there =
          go (Bool-cases (bp.name == n)) (Bool-cases (hash == h'))
        where
          found :
              (if bp.name == n
                then (if hash == h' then some g else none)
                else get_graph r.workspace n h' cache)
              ≡ some g'
          found = sym (get_graph-put_here r.workspace bp.name n hash h' g cache) ∙ there

          go :
              ((bp.name == n) ≡ true) ⊎ ((bp.name == n) ≡ false)
              → ((hash == h') ≡ true) ⊎ ((hash == h') ≡ false)
              → (spec : BlueprintSpec) × (v : W) × Known n spec
                × (spec_hash digest marshal spec ≡ ok h')
                × (build n (to_kro spec).0 v ≡ ok g')
          go (inr other) d = old n h' g' (ground (arith, found, other))
          go (inl same) (inr other) = absurd (ground (arith, found, same, other))
          go (inl same) (inl same') =
              let name_is : bp.name ≡ n = ground (arith, same) in
              let hash_is : hash ≡ h' = ground (arith, same') in
              let graph_is : g ≡ g' = ground (arith, found, same, same') in
              (
                bp.spec,
                w,
                subst (λ (k : Text). Known k bp.spec) name_is known,
                hashed ∙ ap ok hash_is,
                ap (λ (k : Text). build k (to_kro bp.spec).0 w) (sym name_is)
                    ∙ built
                    ∙ ap ok graph_is,
              )

      pub build_graph-Quiet :
          (hash : Text)
          → spec_hash digest marshal bp.spec ≡ ok hash
          → Stable Still (
              build_graph digest marshal build convert set_condition error_text r bp hash
                (to_kro bp.spec).0)
      unfolding build_graph
      build_graph-Quiet hash hashed s q =
          go (get_graph r.workspace bp.name hash s.cache) refl
            (build bp.name (to_kro bp.spec).0 s.world) refl
        where
          go :
              (o : Option Graph)
              → get_graph r.workspace bp.name hash s.cache ≡ o
              → (b : Result Graph) → build bp.name (to_kro bp.spec).0 s.world ≡ b
              → Still
                  (build_graph digest marshal build convert set_condition error_text r bp hash
                    (to_kro bp.spec).0
                    s).1
          go (some g) e b f = rw (e, build_graph) q
          go none e (err x) f = rw (e, f, build_graph) q
          go none e (ok g) f =
              rw (e, f, build_graph)
                (record {
                  kept = record {
                    unmoved = q.kept.unmoved;
                    cached = put_graph-IsBuilt hash g s.world s.cache hashed f q.kept.cached;
                  };
                  silent = q.silent;
                })

      pub build_graph-built :
          (hash : Text) (g : Graph) (s : Site W)
          → spec_hash digest marshal bp.spec ≡ ok hash
          → AllBuilt s.cache
          → (build_graph digest marshal build convert set_condition error_text r bp hash
              (to_kro bp.spec).0
              s).0
            ≡ ok g
          → (w : W) × (build bp.name (to_kro bp.spec).0 w ≡ ok g)
      unfolding build_graph
      build_graph-built hash g s hashed cached h =
          go (get_graph r.workspace bp.name hash s.cache) refl
        where
          go :
              (o : Option Graph)
              → get_graph r.workspace bp.name hash s.cache ≡ o
              → (w : W) × (build bp.name (to_kro bp.spec).0 w ≡ ok g)
          go none e = (s.world, ground (arith, e, h))
          go (some x) e =
              let (spec, w, known', hashed', built) = cached bp.name hash x e in
              let same = one_spec bp.name hash spec bp.spec known' known hashed' hashed in
              let graph_is : x ≡ g = ground (arith, e, h) in
              (
                w,
                ap (λ (t : BlueprintSpec). build bp.name (to_kro t).0 w) (sym same)
                    ∙ built
                    ∙ ap ok graph_is,
              )
