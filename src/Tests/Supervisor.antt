-- ===== src/Tests/Supervisor.antt =====
-- The supervisor's properties at a stop and a restart.
use krop_controller.Base.{ℕ, Text, text_eq, ◌≡◌, ◌↔◌, true, false, some}
use krop_controller.Base.Bytes.{codes, byte_eq}
use krop_controller.Base.Dict.{lookup}
use krop_controller.Supervisor.{
  Supervisor, new, ensure, stop, is_running, IsReachable, begins, steps, ensured, stopped,
}
use krop_controller.Supervisor.Invariant.{IsReachable-one_manager}

abbrev name : Text
name = codes "databases.db"

abbrev restarted : Supervisor
restarted = ensure name (stop name (ensure name new))

restarted-IsReachable : IsReachable restarted
restarted-IsReachable =
    steps _ _ (steps _ _ (steps _ _ begins (ensured name new)) (stopped name (ensure name new)))
      (ensured name (stop name (ensure name new)))

IsReachable-one_manager_example :
    ((d e : ℕ)
      → lookup d restarted.managers ≡ some (record { export = name; cancelled = false })
      → lookup e restarted.managers ≡ some (record { export = name; cancelled = false })
      → d ≡ e)
    × ((is_running name restarted ≡ true) ↔ (
        (e : ℕ) × (lookup e restarted.managers
          ≡ some (record { export = name; cancelled = false }))))
IsReachable-one_manager_example = IsReachable-one_manager restarted name restarted-IsReachable
