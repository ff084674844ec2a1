-- ===== src/Supervisor/Invariant.antt =====
-- Which managers run, in every state that calls and returns can reach.
use krop_controller.Base.{
  ℕ, Text, text_eq, ◌≡◌, ◌↔◌, refl, sym, ◌∙◌, true, false, Option, none, some, arith, Bool-cases,
  inl, inr,
}
use krop_controller.Base.Bytes.{byte_eq}
use krop_controller.Base.Dict.{lookup, lookup-insert, lookup-erase}
use krop_controller.Supervisor.{Manager, Supervisor, ensure, stop, is_running, IsReachable}
use krop_controller.Supervisor.Tidy.{stop-IsTidy, IsReachable-IsTidy}

-- In every state that any sequence of calls and returns leads to, no export has two managers whose
-- contexts are live, and it is reported as running exactly if it has one. So a manager that is slow to
-- return after a stop and a restart never takes the newer one's entry away.
pub IsReachable-one_manager :
    (s : Supervisor) (name : Text)
    → IsReachable s
    → ((d e : ℕ)
        → lookup d s.managers ≡ some (record { export = name; cancelled = false })
        → lookup e s.managers ≡ some (record { export = name; cancelled = false })
        → d ≡ e)
      × ((is_running name s ≡ true)
          ↔ ((e : ℕ) × (lookup e s.managers ≡ some (record { export = name; cancelled = false }))))
unfolding is_running
IsReachable-one_manager s name h =
    let t = IsReachable-IsTidy h in
    let live : Manager = record { export = name; cancelled = false } in
    (
      λ d e p q. some_inj (sym (t.live_entered d live p refl) ∙ t.live_entered e live q refl),
      (
        λ r. running (lookup name s.entries) refl r,
        λ (e, p). ground (arith, t.live_entered e live p refl),
      ),
    )
  where
    some_inj : {a b : ℕ} → some a ≡ some b → a ≡ b
    some_inj e = cc

    running :
        (o : Option ℕ)
        → lookup name s.entries ≡ o
        → is_running name s ≡ true
        → (e : ℕ) × (lookup e s.managers ≡ some (record { export = name; cancelled = false }))
    running none q r = ground (arith, q, r)
    running (some e) q r = (e, (IsReachable-IsTidy h).entered_live name e q)

gone-stop : (s : Supervisor) (name : Text) → lookup name (stop name s).entries ≡ none
unfolding stop
gone-stop s name = ground (arith, lookup-erase name name s.entries)

there-ensure : (s : Supervisor) (name : Text) → is_running name (ensure name s) ≡ true
unfolding ensure is_running
there-ensure s name = ground (arith, lookup-insert name name s.next s.entries)

-- After `Stop` no manager of the export has a live context, and after `Ensure` the export has one.
pub stop_ensure_lem :
    (s : Supervisor) (name : Text)
    → IsReachable s
    → ((e : ℕ) (m : Manager)
        → lookup e (stop name s).managers ≡ some m
        → m.export ≡ name
        → m.cancelled ≡ true)
      × (is_running name (stop name s) ≡ false)
      × (is_running name (ensure name s) ≡ true)
unfolding is_running
stop_ensure_lem s name h =
    let t = stop-IsTidy name s (IsReachable-IsTidy h) in
    (
      λ e m there same. elim (Bool-cases m.cancelled) [
        | inl yes_it_is ↦ yes_it_is
        | inr live ↦ absurd (ground (arith, t.live_entered e m there live, gone-stop s name, same))
      ],
      ground (arith, gone-stop s name),
      there-ensure s name,
    )
