-- ===== src/Supervisor/Live.antt =====
-- The managers with a live context after each call and return of the supervisor.
use krop_controller.Base.{
  ℕ, Text, text_eq, ◌==◌, ◌≡◌, ◌≢◌, ◌⊎◌, refl, false, Option, none, some, arith, Bool-cases, inl,
  inr,
}
use krop_controller.Base.Bytes.{byte_eq}
use krop_controller.Base.Dict.{lookup, lookup-insert, lookup-erase}
use krop_controller.Supervisor.{Manager, Supervisor, ensure, stop, forget, return_manager}
use krop_controller.Supervisor.Tidy.{IsTidy, stop-IsTidy}

module _ (name : Text) (s : Supervisor) (t : IsTidy s) where
  pub live-ensure :
      (e : ℕ) (m : Manager)
      → lookup e (ensure name s).managers ≡ some m
      → (lookup e s.managers ≡ some m) ⊎ ((e ≡ s.next) × (m.export ≡ name))
  unfolding ensure
  live-ensure e m h = go (lookup name s.entries) refl
    where
      go :
          (o : Option ℕ)
          → lookup name s.entries ≡ o
          → (lookup e s.managers ≡ some m) ⊎ ((e ≡ s.next) × (m.export ≡ name))
      go (some k) q = inl (rw (q, ensure) at h)
      go none q = elim (Bool-cases (s.next == e)) [
        | inl same ↦ inr (
          ground (arith, same),
          ground (
            arith,
            q,
            h,
            lookup-insert s.next e (record { export = name; cancelled = false }) s.managers,
          ),
        )
        | inr other ↦ inl (
            ground (
              arith,
              q,
              h,
              lookup-insert s.next e (record { export = name; cancelled = false }) s.managers,
            ))
      ]

  pub entries-stop : lookup name (stop name s).entries ≡ none
  unfolding stop
  entries-stop = ground (arith, lookup-erase name name s.entries)

  entered_before :
      (e : ℕ) (m : Manager)
      → lookup m.export (stop name s).entries ≡ some e
      → lookup m.export s.entries ≡ some e
  unfolding stop
  entered_before e m h = ground (arith, lookup-erase name m.export s.entries)

  pub live-stop :
      (e : ℕ) (m : Manager)
      → lookup e (stop name s).managers ≡ some m
      → m.cancelled ≡ false
      → (lookup e s.managers ≡ some m) × (m.export ≢ name)
  live-stop e m h l =
      let entered = (stop-IsTidy name s t).live_entered e m h l in
      (
        ground (arith, t.entered_live m.export e (entered_before e m entered), l),
        λ same. ground (arith, entered, entries-stop, same),
      )

pub there-return :
    (k : ℕ) (n : Manager) (s : Supervisor) (e : ℕ) (m : Manager)
    → lookup e (return_manager k n s).managers ≡ some m
    → lookup e s.managers ≡ some m
unfolding return_manager forget
there-return k n s e m h = ground (arith, h, lookup-erase k e s.managers)

pub entries-return :
    (k : ℕ) (n : Manager) (s : Supervisor) (name : Text)
    → lookup name s.entries ≡ none
    → lookup name (return_manager k n s).entries ≡ none
unfolding return_manager forget
entries-return k n s name h = ground (arith, h, lookup-erase n.export name s.entries)
