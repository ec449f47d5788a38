-- ===== src/Checks/Splashes.antt =====
-- An update during which camApp ends between the second look for it and the third.
use chronos_updates.Common.{ℕ, ◌+◌, ◌<◌, ◌≡◌, refl, true, some, List, arith}
use chronos_updates.Update
use chronos_updates.Update.{splash}
use chronos_updates.Camera.{run_camera}
use chronos_updates.Camera.Splash.{busy_at, shutdown_at, busy-last}
use chronos_updates.Checks.Install.{found, listed_twice}

busy-last_example :
    (w : List Update.Action) × (busy : ℕ) × (splash found 3 ≡ some w)
    × (busy_at w ≡ some busy)
    × (shutdown_at 150 (run_camera true) ≡ some (150 + 200))
    × (150 + 200 < busy)
busy-last_example = busy-last found 2 3 150 (omega arith) (listed_twice, refl) refl (omega arith)
