-- ===== src/Process/Recorded.antt =====
-- Every manager that may still start to serve finds its blueprint in the registry
-- (cmd/controller/main.go).
use krop_controller.Base.{
  ℕ, Text, text_eq, ◌==◌, if◌then◌else◌, ◌≡◌, refl, subst, sym, Bool, true, false, none, some, List,
  [], arith, Bool-cases, inl, inr,
}
use krop_controller.Base.Bytes.{byte_eq}
use krop_controller.Base.Dict.{Dict, lookup, insert, lookup-insert, lookup-erase}
use krop_controller.Base.Result.{ok}
use krop_controller.Registrar.Reconcile.{Call, published, withdrawn}
use krop_controller.Supervisor.{Manager, Supervisor, return_manager}
use krop_controller.Supervisor.Tidy.{
  IsTidy, new-IsTidy, ensure-IsTidy, stop-IsTidy, return_manager-IsTidy,
}
use krop_controller.Supervisor.Live.{
  live-ensure, live-stop, entries-stop, there-return, entries-return,
}
use krop_controller.Process.{
  ServedBlueprint, Published, Pc, idle, setting, stopping, ensuring, withdrawing, deleting, Process,
  enter, advance_at, advance, recorded_blueprint, Run, boots, calls, advances, reads, returns,
}

-- The registry has a blueprint for the export.
abbrev pub Has : Text → Published → Type 0
Has name registry = (sb : ServedBlueprint) × (lookup name registry ≡ some sb)

-- What the calls of the running hook that are made already have seen to.
abbrev pub IsReady : Pc → Published → Dict Text ℕ → Type 0
IsReady (stopping name) registry entries = Has name registry
IsReady (ensuring name) registry entries = Has name registry
IsReady (deleting name) registry entries = lookup name entries ≡ none
IsReady _ registry entries = Unit

abbrev AllRecorded : Process → Type 0
AllRecorded p =
    (e : ℕ) (m : Manager)
    → lookup e p.supervisor.managers ≡ some m
    → m.cancelled ≡ false
    → Has m.export p.registry

pub record IsRecorded (p : Process) : Type 0 where
  pub tidy : IsTidy p.supervisor
  pub recorded : AllRecorded p
  pub ready : IsReady p.pc p.registry p.supervisor.entries

-- A write of one export leaves what the registry has of the others.
Has-insert :
    (name n : Text) (sb : ServedBlueprint) (registry : Published)
    → Has n registry
    → Has n (insert name sb registry)
Has-insert name n sb registry (x, h) = elim (Bool-cases (name == n)) [
  | inl same ↦ (sb, ground (arith, lookup-insert name n sb registry, same))
  | inr other ↦ (x, ground (arith, lookup-insert name n sb registry, other))
]

Has-set :
    (name : Text) (sb : ServedBlueprint) (registry : Published) → Has name (insert name sb registry)
Has-set name sb registry = (sb, ground (arith, lookup-insert name name sb registry))

IsReady-after_set :
    (changed : Bool) (name : Text) (registry : Published) (entries : Dict Text ℕ)
    → Has name registry
    → IsReady (if changed then stopping name else ensuring name) registry entries
IsReady-after_set true name registry entries h = h
IsReady-after_set false name registry entries h = h

-- A manager whose context is live has an entry.
pub not_live :
    (name : Text) (s : Supervisor) (e : ℕ) (m : Manager)
    → IsTidy s
    → lookup name s.entries ≡ none
    → lookup e s.managers ≡ some m
    → m.cancelled ≡ false
    → (name == m.export) ≡ false
not_live name s e m t gone h l = ground (arith, t.live_entered e m h l, gone)

advance_at-IsRecorded :
    (c : Pc) (p : Process)
    → IsTidy p.supervisor
    → AllRecorded p
    → IsReady c p.registry p.supervisor.entries
    → p.pc ≡ c
    → IsRecorded (advance_at c p)
advance_at-IsRecorded idle p t all r e = record { tidy = t; recorded = all; ready = rw e tt }
advance_at-IsRecorded (setting name sb changed) p t all r e = record {
  tidy = t;
  recorded = λ k m h l. Has-insert name m.export sb p.registry (all k m h l);
  ready = IsReady-after_set changed name _ p.supervisor.entries (Has-set name sb p.registry);
}
advance_at-IsRecorded (stopping name) p t all r e = record {
  tidy = stop-IsTidy name p.supervisor t;
  recorded = λ k m h l. all k m (live-stop name p.supervisor t k m h l).0 l;
  ready = r;
}
advance_at-IsRecorded (ensuring name) p t all r e = record {
  tidy = ensure-IsTidy name p.supervisor t;
  recorded = λ k m h l. elim (live-ensure name p.supervisor t k m h) [
    | inl before ↦ all k m before l
    | inr (_, same) ↦ subst (λ (n : Text). Has n p.registry) (sym same) r
  ];
  ready = tt;
}
advance_at-IsRecorded (withdrawing name) p t all r e = record {
  tidy = stop-IsTidy name p.supervisor t;
  recorded = λ k m h l. all k m (live-stop name p.supervisor t k m h l).0 l;
  ready = entries-stop name p.supervisor t;
}
advance_at-IsRecorded (deleting name) p t all r e = record {
  tidy = t;
  recorded = λ k m h l.
      let (sb, there) = all k m h l in
      (
        sb,
        ground (
          arith,
          there,
          lookup-erase name m.export p.registry,
          not_live name p.supervisor k m t r h l,
        ),
      );
  ready = tt;
}

-- A return takes no blueprint away.
IsReady-after_return :
    (c : Pc) (k : ℕ) (n : Manager) (s : Supervisor) (registry : Published)
    → IsReady c registry s.entries
    → IsReady c registry (return_manager k n s).entries
IsReady-after_return (stopping name) k n s registry r = r
IsReady-after_return (ensuring name) k n s registry r = r
IsReady-after_return (deleting name) k n s registry r = entries-return k n s name r
IsReady-after_return idle k n s registry r = tt
IsReady-after_return (setting name sb changed) k n s registry r = tt
IsReady-after_return (withdrawing name) k n s registry r = tt

IsReady-on_entry :
    (c : Call) (registry : Published) (entries : Dict Text ℕ) → IsReady (enter c) registry entries
IsReady-on_entry (published name gvk g routing changed) registry entries = tt
IsReady-on_entry (withdrawn name) registry entries = elim (Bool-cases (name == [])) [
  | inl empty ↦ rw empty tt
  | inr named ↦ rw named tt
]

pub Run-IsRecorded : {h : List Call} {p : Process} → Run h p → IsRecorded p
unfolding advance
Run-IsRecorded boots = record { tidy = new-IsTidy; recorded = λ e m h l. cc; ready = tt }
Run-IsRecorded (calls c h p r e) =
    let i = Run-IsRecorded r in
    record { tidy = i.tidy; recorded = i.recorded; ready = IsReady-on_entry c _ _ }
Run-IsRecorded (advances h p r) =
    let i = Run-IsRecorded r in advance_at-IsRecorded p.pc p i.tidy i.recorded i.ready refl
Run-IsRecorded (reads e m sb h p r _ _ _) =
    let i = Run-IsRecorded r in record { tidy = i.tidy; recorded = i.recorded; ready = i.ready }
Run-IsRecorded (returns e m h p r there) =
    let i = Run-IsRecorded r in
    record {
      tidy = return_manager-IsTidy e m p.supervisor there i.tidy;
      recorded = λ k n q l. i.recorded k n (there-return e m p.supervisor k n q) l;
      ready = IsReady-after_return p.pc e m p.supervisor p.registry i.ready;
    }

-- At every moment, between the calls of a hook too, a goroutine whose context is live finds the
-- blueprint of its export when it reads the registry: the error of `startFn` for a missing one is
-- never met, whatever order the hooks' calls, the goroutines' reads and their returns come in.
pub recorded_blueprint-Run :
    (h : List Call) (p : Process) (e : ℕ) (m : Manager)
    → Run h p
    → lookup e p.supervisor.managers ≡ some m
    → m.cancelled ≡ false
    → (sb : ServedBlueprint) × (recorded_blueprint m.export p.registry ≡ ok sb)
unfolding recorded_blueprint
recorded_blueprint-Run h p e m r there live =
    let (sb, found) = (Run-IsRecorded r).recorded e m there live in
    (sb, rw (found, recorded_blueprint))
