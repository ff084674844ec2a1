-- ===== src/Controller/Sweeper/Grace.antt =====
-- The startup grace period.
use krop_controller.Base.{ℕ, ◌+◌, ◌<◌, Text, ◌≡◌, refl, Option, some, List, [], ◌∷◌, All, lt→ltb}
use krop_controller.Controller.Sweeper.{Sweeper, sweep, run_ticks, start}

module _ {W : Type 0} (parse_time : Text → Option ℕ) where
  run_ticks_grace :
      (t : ℕ) (ticks : List ℕ) (s : Sweeper W) (w : W)
      → All (λ now. now < t + s.stale_after) ticks
      → run_ticks parse_time ticks (record s { started_at = some t }) w ≡ w
  unfolding run_ticks sweep
  run_ticks_grace t [] s w h = refl
  run_ticks_grace t (now ∷ ticks) s w h =
      rw (lt→ltb now (t + s.stale_after) h.0) (run_ticks_grace t ticks s w h.1)

  -- A started sweeper touches no cluster at any tick before a whole `StaleAfter` has passed since its
  -- start, however many ticks there are and whatever records there are.
  pub start_grace :
      (t : ℕ) (ticks : List ℕ) (s : Sweeper W) (w : W)
      → All (λ now. now < t + s.stale_after) ticks
      → start parse_time t ticks s w ≡ w
  unfolding start
  start_grace t ticks s w h = run_ticks_grace t ticks s w h
