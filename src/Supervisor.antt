-- ===== src/Supervisor.antt =====
-- internal/supervisor/supervisor.go: the managers of the exports. A pointer `*entry` is a number that
-- no other manager gets. A goroutine that runs a manager is there until its deferred `forget` is done;
-- what it does before that is not the supervisor's state.
pub mod Tidy
pub mod Live
pub mod Invariant
use krop_controller.Base.{
  ℕ, suc, Text, text_eq, ◌==◌, if◌then◌else◌, ◌≡◌, Bool, true, false, Option, none, some, [],
}
use krop_controller.Base.Bytes.{byte_eq}
use krop_controller.Base.Dict.{Dict, lookup, insert, erase}

-- A goroutine's manager: its export, and whether its context is cancelled.
pub record Manager : Type 0 where
  pub export : Text
  pub cancelled : Bool

-- `entries` is the map `running`, `managers` the goroutines, `next` the next new pointer.
pub record Supervisor : Type 0 where
  pub entries : Dict Text ℕ
  pub managers : Dict ℕ Manager
  pub next : ℕ

-- `New`
abbrev pub new : Supervisor
new = record { entries = []; managers = []; next = 0 }

-- `Ensure`
unfoldable pub ensure : Text → Supervisor → Supervisor
ensure name s = elim (lookup name s.entries) [
  | some _ ↦ s
  | none ↦ record {
    entries = insert name s.next s.entries;
    managers = insert s.next (record { export = name; cancelled = false }) s.managers;
    next = suc s.next;
  }
]

-- `e.cancel()`
unfoldable pub cancel : ℕ → Dict ℕ Manager → Dict ℕ Manager
cancel e managers = elim (lookup e managers) [
  | none ↦ managers
  | some m ↦ insert e (record m { cancelled = true }) managers
]

-- `Stop`
unfoldable pub stop : Text → Supervisor → Supervisor
stop name s =
    let s' = record s { entries = erase name s.entries } in
    elim (lookup name s.entries) [
      | none ↦ s'
      | some e ↦ record s' { managers = cancel e s.managers }
    ]

-- `forget`
unfoldable pub forget : Text → ℕ → Supervisor → Supervisor
forget name e s = elim (lookup name s.entries) [
  | none ↦ s
  | some running ↦ if running == e then record s { entries = erase name s.entries } else s
]

-- A manager returns, for any reason, and its goroutine ends with `forget`.
unfoldable pub return_manager : ℕ → Manager → Supervisor → Supervisor
return_manager e m s = forget m.export e (record s { managers = erase e s.managers })

-- `Running`
unfoldable pub is_running : Text → Supervisor → Bool
is_running name s = elim (lookup name s.entries) [ none ↦ false | some _ ↦ true ]

-- The calls and returns, in any order that the lock lets through.
pub data Step : Supervisor → Supervisor → Type 0 where
  ensured : (name : Text) (s : Supervisor) → Step s (ensure name s)
  stopped : (name : Text) (s : Supervisor) → Step s (stop name s)
  returned :
      (e : ℕ) (m : Manager) (s : Supervisor)
      → lookup e s.managers ≡ some m
      → Step s (return_manager e m s)

pub data IsReachable : Supervisor → Type 0 where
  begins : IsReachable new
  steps : (s t : Supervisor) → IsReachable s → Step s t → IsReachable t
