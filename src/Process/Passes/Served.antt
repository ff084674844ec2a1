-- ===== src/Process/Passes/Served.antt =====
-- Registrar, hooks and supervisor over the life of a process.
use mathlib.Core.List.{reverse, reverse-append}
use krop_controller.Base.{
  ℕ, Text, text_eq, ◌≡◌, ◌≢◌, inl, inr, ap, ◌∙◌, subst, sym, Bool, true, false, Option, some, List,
  [], ◌∷◌, ◌++◌,
}
use krop_controller.Base.Result.{Error, Result, ok, err, Result-cases}
use krop_controller.Api.Object.{Condition}
use krop_controller.Api.Blueprint.{BlueprintSpec, KroSpec, to_kro}
use krop_controller.Registrar.Cache.{get_graph}
use krop_controller.Registrar.Publish.{Schema, Crd, spec_hash}
use krop_controller.Registrar.Reconcile.{Graph, Call, Site, Registrar}
use krop_controller.Process.{ServedBlueprint}
use krop_controller.Process.Offered.{latest}
use krop_controller.Process.Passes.{
  Mark, IsMarked, IsWithdrawal, Offers, IsGenuine, Passes, starts, restarts, edits, crashes, passes,
  pass,
}
use krop_controller.Process.Passes.Origin.{Origin}
use krop_controller.Process.Passes.Outcome.{IsBuilt, Outcome, quiet, withdrew, announces}
use krop_controller.Process.Passes.Whole.{register-Ends}
use krop_controller.Process.Passes.Faithful.{
  Faithful, Faithful-moved, Faithful-withdrawn, Faithful-Announced, Announced-IsGenuine,
}
use krop_controller.Process.{get_served, idle, Process, Run}
use krop_controller.Process.Latest.{serving-latest}
use krop_controller.Base.Dict.{lookup}
use krop_controller.Base.Bytes.{byte_eq}

module _ {W : Type 0} (digest : Text → Text) (marshal : BlueprintSpec → Result Text)
    (build : Text → KroSpec → W → Result Graph) (convert : Crd → Text → Result Schema)
    (marks : Text → W → Option Mark) (Known : Text → BlueprintSpec → Type 0)
    (one_spec : (n hash : Text) (spec spec' : BlueprintSpec)
      → Known n spec
      → Known n spec'
      → spec_hash digest marshal spec ≡ ok hash
      → spec_hash digest marshal spec' ≡ ok hash
      → spec ≡ spec')
    (steady : (n : Text) (spec : BlueprintSpec) (w w' : W) (g g' : Graph)
      → Known n spec
      → build n (to_kro spec).0 w ≡ ok g
      → build n (to_kro spec).0 w' ≡ ok g'
      → g ≡ g')
    (nonempty : (n : Text) (spec : BlueprintSpec)
      → Known n spec
      → spec_hash digest marshal spec ≢ ok [])
    (distinct : (n n' h h' e : Text) (spec spec' : BlueprintSpec) (sb sb' : ServedBlueprint)
      → Offers digest marshal build convert Known n spec h e sb
      → Offers digest marshal build convert Known n' spec' h' e sb'
      → n ≡ n')
    (set_condition : List Condition → Condition → List Condition) (error_text : Error → Text)
    (r : Registrar W) (marked : IsMarked marks r.client) (hooked : r.has_on_published ≡ true) where
  abbrev Holds : Site W → Type 0
  Holds s =
      Faithful digest marshal build convert marks Known one_spec steady nonempty distinct
        set_condition error_text r s.world s.cache (reverse s.calls)

  abbrev Reached : Site W → Type 0
  Reached = Passes digest marshal build convert set_condition error_text r marks Known

  -- One more call, at the front of the history.
  called :
      (s end : Site W) (c : Call)
      → end.calls ≡ s.calls ++ (c ∷ [])
      → Faithful digest marshal build convert marks Known one_spec steady nonempty distinct
          set_condition error_text r end.world end.cache
          (c ∷ reverse s.calls)
      → Holds end
  called s end c q =
      subst
        (λ (h : List Call).
          Faithful digest marshal build convert marks Known one_spec steady nonempty distinct
            set_condition error_text r end.world end.cache h)
        (sym (ap (reverse {A = Call}) q ∙ reverse-append s.calls (c ∷ [])))

  Outcome-Faithful :
      (s end : Site W) (result : Result Bool)
      → Holds s
      → ((e : Error) (c : Call) → result ≡ err e → end.calls ≡ s.calls ++ (c ∷ []) → IsWithdrawal c)
      → Outcome digest marshal build convert r marks Known s result end
      → Holds end
  Outcome-Faithful s end result f tells (quiet q) =
      subst
        (λ (cs : List Call).
          Faithful digest marshal build convert marks Known one_spec steady nonempty distinct
            set_condition error_text r end.world end.cache (reverse cs))
        (sym q.silent)
        (Faithful-moved digest marshal build convert marks Known one_spec steady nonempty distinct
          set_condition error_text r s.world end.world s.cache end.cache _
          (λ n x there. inl (q.kept.unmoved n x there)) q.kept.cached f)
  Outcome-Faithful s end result f tells (withdrew export k q) = called s end _ q (
      Faithful-withdrawn digest marshal build convert marks Known one_spec steady nonempty distinct
        set_condition error_text r end.world end.cache _ export
        (Faithful-moved digest marshal build convert marks Known one_spec steady nonempty distinct
          set_condition error_text r s.world end.world s.cache end.cache _
          (λ n x there. inl (k.unmoved n x there)) k.cached f))
  Outcome-Faithful s end result f tells (announces a) = elim (Result-cases result) [
    | inl (b, done) ↦ called s end _ a.announced (
        Faithful-Announced digest marshal build convert marks Known one_spec steady nonempty
          distinct set_condition error_text r s end result b f a done)
    | inr (e, failed) ↦ absurd (tells e _ failed a.announced)
  ]

  Outcome-IsGenuine :
      (s end : Site W) (result : Result Bool)
      → ((n : Text) (x : Mark)
          → marks n s.world ≡ some x
          → IsGenuine digest marshal build convert Known n x)
      → Outcome digest marshal build convert r marks Known s result end
      → (n : Text) (x : Mark) → marks n end.world ≡ some x
      → IsGenuine digest marshal build convert Known n x
  Outcome-IsGenuine s end result genuine (quiet q) n x there =
      genuine n x (q.kept.unmoved n x there)
  Outcome-IsGenuine s end result genuine (withdrew export k q) n x there =
      genuine n x (k.unmoved n x there)
  Outcome-IsGenuine s end result genuine (announces a) n x there =
      Announced-IsGenuine digest marshal build convert marks Known one_spec steady nonempty distinct
        set_condition error_text r s end result genuine a n x there

  empty-IsBuilt : IsBuilt digest marshal build convert r marks Known []
  unfolding get_graph
  empty-IsBuilt n hash g there = cc

  -- A process that has just been started has called no hook.
  started-Faithful :
      (w : W)
      → ((n : Text) (x : Mark)
          → marks n w ≡ some x
          → IsGenuine digest marshal build convert Known n x)
      → Faithful digest marshal build convert marks Known one_spec steady nonempty distinct
          set_condition error_text r w [] []
  started-Faithful w genuine = record {
    genuine = genuine;
    built = empty-IsBuilt;
    honest = tt;
    origin = λ e sb there. cc;
  }

  Passes-Faithful : {s : Site W} → Reached s → Holds s
  Passes-Faithful (starts w genuine) = started-Faithful w genuine
  Passes-Faithful (restarts s p) = started-Faithful s.world (Passes-Faithful p).genuine
  Passes-Faithful (edits w s p moved) =
      let f = Passes-Faithful p in
      Faithful-moved digest marshal build convert marks Known one_spec steady nonempty distinct
        set_condition error_text r s.world w s.cache s.cache _ moved f.built f
  Passes-Faithful (crashes name s p known) =
      let f = Passes-Faithful p in
      let run = pass digest marshal build convert set_condition error_text r marks Known name s in
      started-Faithful run.1.world (
        Outcome-IsGenuine s run.1 run.0 f.genuine (
          register-Ends digest marshal build convert set_condition error_text r marks Known marked
            hooked one_spec name s f.built known))
  Passes-Faithful (passes name s p known tells) =
      let f = Passes-Faithful p in
      let run = pass digest marshal build convert set_condition error_text r marks Known name s in
      Outcome-Faithful s run.1 run.0 f tells (
        register-Ends digest marshal build convert set_condition error_text r marks Known marked
          hooked one_spec name s f.built known)

  -- Whatever edits, restarts and passes of the registrar have led to the workspace, and in whatever order
  -- the goroutines have run in between: between two calls of the hooks, a goroutine whose context is live
  -- and that has read serves what its export was published with last, which is what the registry holds.
  -- That is what the spec of a blueprint compiles to, and as long as the status of that blueprint names
  -- the export, it is the spec whose hash the status reports. The conditions: a pass that fails has not
  -- called `OnPublished` or is followed by a restart; of the specs that a blueprint is given, each builds
  -- the same graph whenever it builds one, and no two have the same hash or an empty one; no two
  -- blueprints offer the same export.
  pub serving-published :
      (s : Site W) (p : Process) (name : Text) (e : ℕ) (x : ServedBlueprint)
      → Reached s
      → Run (reverse s.calls) p
      → p.pc ≡ idle
      → lookup e p.supervisor.managers ≡ some (record { export = name; cancelled = false })
      → lookup e p.serving ≡ some x
      → (get_served name p.registry ≡ some x)
        × (latest (reverse s.calls) name ≡ some x)
        × Origin digest marshal build convert marks Known one_spec steady s.world name x
  serving-published s p name e x reached run at_rest there serves =
      let f = Passes-Faithful reached in
      let (held, _, last) = serving-latest (reverse s.calls) p name run f.honest at_rest in
      let offered = last e x there serves in (held ∙ offered, offered, f.origin name x offered)
