-- ===== src/Process/Offered.antt =====
-- The blueprints that the calls of the hooks offer (cmd/controller/main.go), and what the steps of a hook
-- keep of them.
use krop_controller.Base.{
  ℕ, ◌<◌, Text, text_eq, ◌==◌, if◌then◌else◌, ◌≡◌, ◌≢◌, refl, ◌∙◌, ap, Bool, true, false, ◌&&◌,
  Option, none, some, List, [], ◌∷◌, arith, inl, inr,
}
use krop_controller.Base.Bytes.{byte_eq}
use krop_controller.Base.Dict.{lookup, insert, erase, lookup-insert, lookup-erase}
use krop_controller.Registrar.Reconcile.{Call, published, withdrawn}
use krop_controller.Supervisor.{Manager, Supervisor, ensure, stop, forget, return_manager}
use krop_controller.Supervisor.Tidy.{IsTidy}
use krop_controller.Supervisor.Live.{live-ensure, live-stop}
use krop_controller.Process.{
  ServedBlueprint, Published, Pc, idle, setting, stopping, ensuring, withdrawing, deleting, Process,
  advance_at,
}
use krop_controller.Process.Recorded.{IsReady, not_live}

-- The abstract view of the process: the blueprint that an export offers after a history of calls.
abbrev pub latest : List Call → Text → Option ServedBlueprint
latest [] name = none
latest (published export gvk g routing changed ∷ h) name =
    let before = latest h name in
    if export == name then some (record { graph = g; gvk = gvk; routing = routing }) else before
latest (withdrawn export ∷ h) name =
    let before = latest h name in
    if export == [] then before else if export == name then none else before

-- A publish is called unchanged only with the blueprint that is offered already, if one is.
abbrev pub IsHonestCall : Call → (Text → Option ServedBlueprint) → Type 0
IsHonestCall (published export gvk g routing changed) offered =
    changed ≡ false
    → (sb : ServedBlueprint) → offered export ≡ some sb
    → sb ≡ record { graph = g; gvk = gvk; routing = routing }
IsHonestCall (withdrawn export) offered = Unit

abbrev pub IsHonest : List Call → Type 0
IsHonest [] = Unit
IsHonest (c ∷ h) = IsHonestCall c (latest h) × IsHonest h

-- The registry after the calls that the running hook has left.
abbrev pub due : Pc → Published → Published
due (setting name sb changed) registry = insert name sb registry
due (withdrawing name) registry = erase name registry
due (deleting name) registry = erase name registry
due _ registry = registry

-- The running hook is going to stop the export's manager.
abbrev pub is_exempt : Pc → Text → Bool
is_exempt (setting name sb changed) export = changed && name == export
is_exempt (stopping name) export = name == export
is_exempt _ export = false

abbrev pub IsUnchanged : Pc → Published → Type 0
IsUnchanged (setting name sb changed) registry =
    changed ≡ false → (y : ServedBlueprint) → lookup name registry ≡ some y → y ≡ sb
IsUnchanged _ registry = Unit

abbrev pub Agrees : Pc → Process → Type 0
Agrees c p =
    (e : ℕ) (m : Manager) (x : ServedBlueprint)
    → lookup e p.supervisor.managers ≡ some m
    → m.cancelled ≡ false
    → lookup e p.serving ≡ some x
    → is_exempt c m.export ≡ false
    → lookup m.export p.registry ≡ some x

pub record IsLatest (h : List Call) (p : Process) : Type 0 where
  pub offered : (name : Text) → lookup name (due p.pc p.registry) ≡ latest h name
  pub begun : (e : ℕ) (x : ServedBlueprint) → lookup e p.serving ≡ some x → e < p.supervisor.next
  pub unchanged : IsUnchanged p.pc p.registry
  pub agrees : Agrees p.pc p

next-stop : (name : Text) (s : Supervisor) → (stop name s).next ≡ s.next
unfolding stop
next-stop name s = ground arith

pub next-return : (e : ℕ) (m : Manager) (s : Supervisor) → (return_manager e m s).next ≡ s.next
unfolding return_manager forget
next-return e m s = ground arith

next-ensure : (name : Text) (s : Supervisor) (e : ℕ) → e < s.next → e < (ensure name s).next
unfolding ensure
next-ensure name s e h = ground arith

offered_after_set :
    (changed : Bool) (name : Text) (registry : Published)
    → due (if changed then stopping name else ensuring name) registry ≡ registry
offered_after_set true name registry = refl
offered_after_set false name registry = refl

IsUnchanged-after_set :
    (changed : Bool) (name : Text) (registry : Published)
    → IsUnchanged (if changed then stopping name else ensuring name) registry
IsUnchanged-after_set true name registry = tt
IsUnchanged-after_set false name registry = tt

-- `registry.Set`: a manager of the export either is stopped next, or serves what was set.
Agrees-after_set :
    (changed : Bool) (name : Text) (sb : ServedBlueprint) (p : Process)
    → IsUnchanged (setting name sb changed) p.registry
    → Agrees (setting name sb changed) p
    → Agrees (if changed then stopping name else ensuring name) (record p {
      registry = insert name sb p.registry;
      pc = if changed then stopping name else ensuring name;
    })
Agrees-after_set true name sb p u a e m x there live began spared =
    ground (arith, a e m x there live began, lookup-insert name m.export sb p.registry)
Agrees-after_set false name sb p u a e m x there live began spared =
    ground (arith, a e m x there live began, lookup-insert name m.export sb p.registry, u refl x)

apart : (name export : Text) → export ≢ name → (name == export) ≡ false
apart name export n = ground arith

pub advance_at-IsLatest :
    (c : Pc) (h : List Call) (p : Process)
    → IsTidy p.supervisor
    → IsReady c p.registry p.supervisor.entries
    → p.pc ≡ c
    → ((name : Text) → lookup name (due c p.registry) ≡ latest h name)
    → ((e : ℕ) (x : ServedBlueprint) → lookup e p.serving ≡ some x → e < p.supervisor.next)
    → IsUnchanged c p.registry
    → Agrees c p
    → IsLatest h (advance_at c p)
advance_at-IsLatest idle h p t r q o b u a = record {
  offered = rw q o;
  begun = b;
  unchanged = rw q tt;
  agrees = rw q a;
}
advance_at-IsLatest (setting name sb changed) h p t r q o b u a = record {
  offered = λ n. ap (lookup n) (offered_after_set changed name _) ∙ o n;
  begun = b;
  unchanged = IsUnchanged-after_set changed name _;
  agrees = Agrees-after_set changed name sb p u a;
}
advance_at-IsLatest (stopping name) h p t r q o b u a = record {
  offered = o;
  begun = λ e x k. rw (next-stop name p.supervisor) (b e x k);
  unchanged = tt;
  agrees = λ e m x there live began _.
      let (before, other) = live-stop name p.supervisor t e m there live in
      a e m x before live began (apart name m.export other);
}
advance_at-IsLatest (ensuring name) h p t r q o b u a = record {
  offered = o;
  begun = λ e x k. next-ensure name p.supervisor e (b e x k);
  unchanged = tt;
  agrees = λ e m x there live began _. elim (live-ensure name p.supervisor t e m there) [
    | inl before ↦ a e m x before live began refl
    | inr (same, _) ↦ absurd (omega (arith, b e x began))
  ];
}
advance_at-IsLatest (withdrawing name) h p t r q o b u a = record {
  offered = o;
  begun = λ e x k. rw (next-stop name p.supervisor) (b e x k);
  unchanged = tt;
  agrees = λ e m x there live began _.
      a e m x (live-stop name p.supervisor t e m there live).0 live began refl;
}
advance_at-IsLatest (deleting name) h p t r q o b u a = record {
  offered = o;
  begun = b;
  unchanged = tt;
  agrees = λ e m x there live began _. ground (
    arith,
    a e m x there live began refl,
    not_live name p.supervisor e m t r there live,
    lookup-erase name m.export p.registry,
  );
}
