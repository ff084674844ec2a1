-- ===== src/Process/Hook.antt =====
-- What a whole call of a hook leaves behind (cmd/controller/main.go).
use krop_controller.Base.{
  ℕ, Text, text_eq, ◌==◌, ◌≡◌, ◌≢◌, refl, Bool, true, false, none, some, List, [], ◌∷◌, arith,
}
use krop_controller.Base.Bytes.{byte_eq}
use krop_controller.Base.Dict.{lookup, lookup-insert, lookup-erase}
use krop_controller.Api.Object.{Gvk}
use krop_controller.Engine.Route.{Routing}
use krop_controller.Registrar.Reconcile.{Graph, Call, published, withdrawn}
use krop_controller.Supervisor.{Supervisor, ensure, stop, is_running}
use krop_controller.Process.{
  ServedBlueprint, get_served, idle, Process, enter, advance, finish_hook, Run, calls, advances,
}

-- The state after the call `c` of a hook in the state `p`.
abbrev pub after : Call → Process → Process
after c p = finish_hook (record p { pc = enter c })

running-ensure : (name : Text) (s : Supervisor) → is_running name (ensure name s) ≡ true
unfolding ensure is_running
running-ensure name s = ground (arith, lookup-insert name name s.next s.entries)

-- A running export is left as it is.
ensure-running :
    (name : Text) (e : ℕ) (s : Supervisor) → lookup name s.entries ≡ some e → ensure name s ≡ s
unfolding ensure
ensure-running name e s h = rw (h, ensure)

pub Run-after :
    (c : Call) (h : List Call) (p : Process) → Run h p → p.pc ≡ idle → Run (c ∷ h) (after c p)
unfolding finish_hook
Run-after c h p r q = advances _ _ (advances _ _ (advances _ _ (calls c h p r q)))

module _ (name : Text) (gvk : Gvk) (g : Graph) (routing : Routing) (p : Process) where
  abbrev pub offer : ServedBlueprint
  offer = record { graph = g; gvk = gvk; routing = routing }

  pub after-published :
      (changed : Bool)
      → let p' = after (published name gvk g routing changed) p in
        (p'.pc ≡ idle)
        × (is_running name p'.supervisor ≡ true)
        × (get_served name p'.registry ≡ some offer)
  unfolding finish_hook advance
  after-published true =
      (refl, running-ensure name _, ground (arith, lookup-insert name name offer p.registry))
  after-published false =
      (refl, running-ensure name _, ground (arith, lookup-insert name name offer p.registry))

  -- An unchanged publish of a running export writes the registry and nothing else.
  pub after-unchanged :
      (e : ℕ)
      → lookup name p.supervisor.entries ≡ some e
      → let p' = after (published name gvk g routing false) p in
        (p'.supervisor ≡ p.supervisor) × (p'.serving ≡ p.serving)
  unfolding finish_hook advance
  after-unchanged e h = (ensure-running name e p.supervisor h, refl)

running-stop : (name : Text) (s : Supervisor) → is_running name (stop name s) ≡ false
unfolding stop is_running
running-stop name s = ground (arith, lookup-erase name name s.entries)

pub after-withdrawn :
    (name : Text) (p : Process)
    → name ≢ []
    → let p' = after (withdrawn name) p in
      (p'.pc ≡ idle)
      × (is_running name p'.supervisor ≡ false)
      × (get_served name p'.registry ≡ none)
unfolding finish_hook advance
after-withdrawn name p named =
    let there : (name == []) ≡ false = ground (arith, named) in
    rw there
      (refl, running-stop name p.supervisor, ground (arith, lookup-erase name name p.registry))
