-- ===== src/Supervisor/Tidy.antt =====
-- The invariant of the supervisor's state, which every call and return keeps.
use krop_controller.Base.{
  ℕ, ◌<◌, Text, text_eq, ◌==◌, ◌≡◌, refl, true, false, Option, none, some, arith, Bool-cases, inl,
  inr,
}
use krop_controller.Base.Bytes.{byte_eq}
use krop_controller.Base.Dict.{lookup, lookup-insert, lookup-erase}
use krop_controller.Supervisor.{
  Manager, Supervisor, new, ensure, cancel, stop, forget, return_manager, Step, ensured, stopped,
  returned, IsReachable, begins, steps,
}

-- A manager's context is live exactly while the map holds its entry.
pub record IsTidy (s : Supervisor) : Type 0 where
  pub fresh : (e : ℕ) (m : Manager) → lookup e s.managers ≡ some m → e < s.next
  pub live_entered :
      (e : ℕ) (m : Manager)
      → lookup e s.managers ≡ some m
      → m.cancelled ≡ false
      → lookup m.export s.entries ≡ some e
  pub entered_live :
      (name : Text) (e : ℕ)
      → lookup name s.entries ≡ some e
      → lookup e s.managers ≡ some (record { export = name; cancelled = false })

pub new-IsTidy : IsTidy new
new-IsTidy = record {
  fresh = λ e m h. cc;
  live_entered = λ e m h l. cc;
  entered_live = λ name e h. cc;
}

pub ensure-IsTidy : (name : Text) (s : Supervisor) → IsTidy s → IsTidy (ensure name s)
unfolding ensure
ensure-IsTidy name s t = go (lookup name s.entries) refl
  where
    go : (o : Option ℕ) → lookup name s.entries ≡ o → IsTidy (ensure name s)
    go (some e) q = rw (q, ensure) t
    go none q =
        rw (q, ensure)
          (record {
            fresh = λ e m h. ground (
              arith,
              lookup-insert s.next e (record { export = name; cancelled = false }) s.managers,
              t.fresh e m,
            );
            live_entered = λ e m h l. ground (
              arith,
              lookup-insert s.next e (record { export = name; cancelled = false }) s.managers,
              lookup-insert name m.export s.next s.entries,
              t.live_entered e m,
              q,
            );
            entered_live = λ n e h. ground (
              arith,
              lookup-insert name n s.next s.entries,
              lookup-insert s.next e (record { export = name; cancelled = false }) s.managers,
              t.entered_live n e,
              t.fresh e (record { export = n; cancelled = false }),
            );
          })

pub stop-IsTidy : (name : Text) (s : Supervisor) → IsTidy s → IsTidy (stop name s)
unfolding stop cancel
stop-IsTidy name s t = go (lookup name s.entries) refl
  where
    go : (o : Option ℕ) → lookup name s.entries ≡ o → IsTidy (stop name s)
    go none q =
        rw (q, stop)
          (record {
            fresh = t.fresh;
            live_entered = λ e m h l.
                ground (arith, lookup-erase name m.export s.entries, t.live_entered e m h l, q);
            entered_live =
                λ n e h. ground (arith, lookup-erase name n s.entries, t.entered_live n e);
          })
    go (some k) q =
        let stopped_one : Manager = record { export = name; cancelled = true } in
        rw (q, stop, t.entered_live name k q, cancel)
          (record {
            fresh = λ e m h. ground (
              arith,
              lookup-insert k e stopped_one s.managers,
              t.fresh e m,
              t.fresh k (record { export = name; cancelled = false }),
              t.entered_live name k q,
            );
            live_entered = λ e m h l. ground (
              arith,
              lookup-insert k e stopped_one s.managers,
              lookup-erase name m.export s.entries,
              t.live_entered e m,
              q,
            );
            entered_live = λ n e h. ground (
              arith,
              lookup-erase name n s.entries,
              lookup-insert k e stopped_one s.managers,
              t.entered_live n e,
              t.entered_live name k q,
            );
          })

pub return_manager-IsTidy :
    (e : ℕ) (m : Manager) (s : Supervisor)
    → lookup e s.managers ≡ some m
    → IsTidy s
    → IsTidy (return_manager e m s)
unfolding return_manager forget
return_manager-IsTidy e m s there t = go (lookup m.export s.entries) refl
  where
    go : (o : Option ℕ) → lookup m.export s.entries ≡ o → IsTidy (return_manager e m s)
    go none q =
        rw (q, return_manager, forget)
          (record {
            fresh = λ k n h. ground (arith, lookup-erase e k s.managers, t.fresh k n);
            live_entered =
                λ k n h l. ground (arith, lookup-erase e k s.managers, t.live_entered k n);
            entered_live = λ n k h.
                ground (arith, lookup-erase e k s.managers, t.entered_live n k h, there, q);
          })
    go (some j) q = elim (Bool-cases (j == e)) [
      | inl own ↦
          rw (q, return_manager, forget, own)
            (record {
              fresh = λ k n h. ground (arith, lookup-erase e k s.managers, t.fresh k n);
              live_entered = λ k n h l. ground (
                arith,
                own,
                lookup-erase e k s.managers,
                lookup-erase m.export n.export s.entries,
                t.live_entered k n,
                q,
              );
              entered_live = λ n k h. ground (
                arith,
                own,
                lookup-erase e k s.managers,
                lookup-erase m.export n s.entries,
                t.entered_live n k,
                there,
                q,
              );
            })
      | inr newer ↦
          rw (q, return_manager, forget, newer)
            (record {
              fresh = λ k n h. ground (arith, lookup-erase e k s.managers, t.fresh k n);
              live_entered =
                  λ k n h l. ground (arith, lookup-erase e k s.managers, t.live_entered k n);
              entered_live = λ n k h.
                  ground
                    (arith, newer, lookup-erase e k s.managers, t.entered_live n k h, there, q, h);
            })
    ]

Step-IsTidy : {s u : Supervisor} → Step s u → IsTidy s → IsTidy u
Step-IsTidy (ensured name s) t = ensure-IsTidy name s t
Step-IsTidy (stopped name s) t = stop-IsTidy name s t
Step-IsTidy (returned e m s there) t = return_manager-IsTidy e m s there t

pub IsReachable-IsTidy : {s : Supervisor} → IsReachable s → IsTidy s
IsReachable-IsTidy begins = new-IsTidy
IsReachable-IsTidy (steps r s h step) = Step-IsTidy step (IsReachable-IsTidy h)
