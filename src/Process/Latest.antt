-- ===== src/Process/Latest.antt =====
-- What the process promises: each running manager serves the blueprint that was published last
-- (cmd/controller/main.go).
use krop_controller.Base.{
  ℕ, Text, text_eq, ◌==◌, ◌≡◌, refl, sym, ◌∙◌, subst, true, false, Option, none, some, List, [],
  ◌∷◌, arith, Bool-cases, inl, inr,
}
use krop_controller.Base.Bytes.{byte_eq}
use krop_controller.Base.Dict.{lookup, lookup-insert, lookup-erase}
use krop_controller.Base.Result.{ok}
use krop_controller.Registrar.Reconcile.{Call, published, withdrawn}
use krop_controller.Supervisor.{is_running}
use krop_controller.Supervisor.Live.{there-return}
use krop_controller.Process.{
  ServedBlueprint, Published, get_served, Pc, idle, Process, enter, advance, recorded_blueprint,
  Run, boots, calls, advances, reads, returns,
}
use krop_controller.Process.Recorded.{Run-IsRecorded}
use krop_controller.Process.Offered.{
  latest, IsHonestCall, IsHonest, due, Agrees, IsLatest, next-return, advance_at-IsLatest,
}

-- No hook is running: the registry is what is offered.
offered_idle :
    (h : List Call) (p : Process) (n : Text)
    → p.pc ≡ idle
    → IsLatest h p
    → lookup n p.registry ≡ latest h n
offered_idle h p n q i =
    subst (λ (c : Pc). lookup n (due c p.registry) ≡ latest h n) q (i.offered n)

Agrees-idle : (h : List Call) (p : Process) → p.pc ≡ idle → IsLatest h p → Agrees idle p
Agrees-idle h p q i = subst (λ (c : Pc). Agrees c p) q i.agrees

-- The call of a hook, in an idle state.
enter-IsLatest :
    (c : Call) (h : List Call) (p : Process)
    → p.pc ≡ idle
    → IsHonestCall c (latest h)
    → IsLatest h p
    → IsLatest (c ∷ h) (record p { pc = enter c })
enter-IsLatest (published name gvk g routing changed) h p q honest i =
    let sb : ServedBlueprint = record { graph = g; gvk = gvk; routing = routing } in
    record {
      offered = λ n. ground (arith, lookup-insert name n sb p.registry, offered_idle h p n q i);
      begun = i.begun;
      unchanged = λ same y there. honest same y (sym (offered_idle h p name q i) ∙ there);
      agrees = λ e m x there live began _. Agrees-idle h p q i e m x there live began refl;
    }
enter-IsLatest (withdrawn name) h p q honest i = elim (Bool-cases (name == [])) [
  | inl empty ↦ rw empty (record {
    offered = λ n. ground (arith, offered_idle h p n q i, empty);
    begun = i.begun;
    unchanged = tt;
    agrees = Agrees-idle h p q i;
  })
  | inr named ↦ rw named (record {
    offered = λ n. ground (arith, offered_idle h p n q i, named, lookup-erase name n p.registry);
    begun = i.begun;
    unchanged = tt;
    agrees = Agrees-idle h p q i;
  })
]

recorded_found :
    (export : Text) (registry : Published) (sb : ServedBlueprint)
    → recorded_blueprint export registry ≡ ok sb
    → lookup export registry ≡ some sb
unfolding recorded_blueprint
recorded_found export registry sb h = ground (arith, h)

Run-IsLatest : {h : List Call} {p : Process} → Run h p → IsHonest h → IsLatest h p
unfolding advance
Run-IsLatest boots honest = record {
  offered = λ name. refl;
  begun = λ e x k. cc;
  unchanged = tt;
  agrees = λ e m x there live began _. cc;
}
Run-IsLatest (calls c h p r q) honest = enter-IsLatest c h p q honest.0 (Run-IsLatest r honest.1)
Run-IsLatest (advances h p r) honest =
    let i = Run-IsLatest r honest in
    let j = Run-IsRecorded r in
    advance_at-IsLatest p.pc h p j.tidy j.ready refl i.offered i.begun i.unchanged i.agrees
Run-IsLatest (reads e m sb h p r there first found) honest =
    let i = Run-IsLatest r honest in
    record {
      offered = i.offered;
      begun = λ k x began. ground (
        arith,
        began,
        lookup-insert e k sb p.serving,
        i.begun k x,
        (Run-IsRecorded r).tidy.fresh e m there,
      );
      unchanged = i.unchanged;
      agrees = λ k n x at live began spared. ground (
        arith,
        at,
        there,
        began,
        lookup-insert e k sb p.serving,
        recorded_found m.export p.registry sb found,
        i.agrees k n x at live,
      );
    }
Run-IsLatest (returns e m h p r there) honest =
    let i = Run-IsLatest r honest in
    record {
      offered = i.offered;
      begun = λ k x began.
          ground
            (arith, began, lookup-erase e k p.serving, i.begun k x, next-return e m p.supervisor);
      unchanged = i.unchanged;
      agrees = λ k n x at live began spared. ground (
        arith,
        began,
        lookup-erase e k p.serving,
        i.agrees k n x (there-return e m p.supervisor k n at) live,
      );
    }

-- Where no hook is running, the process is the map that its history of calls describes: the registry
-- holds the blueprint that was published last for an export and not withdrawn since, an export that is
-- running has one, and a goroutine whose context is live serves that one once it has read. The hooks'
-- calls, the goroutines' reads and their returns may come in any order. A publish that is called
-- unchanged must carry what is offered.
pub serving-latest :
    (h : List Call) (p : Process) (name : Text)
    → Run h p
    → IsHonest h
    → p.pc ≡ idle
    → (get_served name p.registry ≡ latest h name)
      × (is_running name p.supervisor ≡ true → (sb : ServedBlueprint) × (latest h name ≡ some sb))
      × ((e : ℕ) (x : ServedBlueprint)
          → lookup e p.supervisor.managers ≡ some (record { export = name; cancelled = false })
          → lookup e p.serving ≡ some x
          → latest h name ≡ some x)
unfolding is_running
serving-latest h p name r honest q =
    let i = Run-IsLatest r honest in
    let j = Run-IsRecorded r in
    (
      offered_idle h p name q i,
      λ running. there_is (lookup name p.supervisor.entries) refl running,
      λ e x there began.
          sym (offered_idle h p name q i) ∙ Agrees-idle h p q i e _ x there refl began refl,
    )
  where
    there_is :
        (o : Option ℕ)
        → lookup name p.supervisor.entries ≡ o
        → is_running name p.supervisor ≡ true
        → (sb : ServedBlueprint) × (latest h name ≡ some sb)
    there_is none e running = ground (arith, e, running)
    there_is (some k) e running =
        let j = Run-IsRecorded r in
        let (sb, found) =
          j.recorded k (record { export = name; cancelled = false }) (j.tidy.entered_live name k e)
            refl in
        (sb, sym (offered_idle h p name q (Run-IsLatest r honest)) ∙ found)
