-- ===== src/Camera/Splash.antt =====
-- Which picture is on the screen when camApp has ended for an update: the one that
-- rootfs/opt/camera/runCamera.sh shows at its exit, or the one of update_real.sh.
use chronos_updates.Common.{
  ℕ, zero, suc, ◌+◌, ◌*◌, ◌≤◌, ◌<◌, ◌≡◌, refl, ap, ◌∙◌, true, Option, none, some, List, [], ◌∷◌,
  ◌++◌, arith, min, append_assoc, replicate, ◌-◌, ◌>>=◌,
}
use chronos_updates.Update.{
  stop_app, kill_app, sleep_tenth, sleep_half, sleep_ten, show_busy, Found, timeout, splash,
}
use chronos_updates.Update
use chronos_updates.Update.Waiting.{wait_for_app-rounds}
use chronos_updates.Update.Outcome.{EndsAt}
use chronos_updates.Camera
use chronos_updates.Camera.{run_app, sleep_fifth, show_shutdown, exit_splash, run_camera}

-- The milliseconds that an action sleeps; what else it takes is not counted.
abbrev update_sleep : Update.Action → ℕ
update_sleep sleep_tenth = 100
update_sleep sleep_half = 500
update_sleep sleep_ten = 10000
update_sleep _ = 0

-- When the busy picture is first shown, from the start of the actions on.
abbrev pub busy_at : List Update.Action → Option ℕ
busy_at [] = none
busy_at (show_busy ∷ as_) = some 0
busy_at (a ∷ as_) = busy_at as_ >>= (λ t. some (update_sleep a + t))

abbrev camera_sleep : Camera.Action → ℕ
camera_sleep sleep_fifth = 200
camera_sleep _ = 0

-- When the shutdown picture is shown, where camApp, which has been run, ends at the time `e`.
abbrev pub shutdown_at : ℕ → List Camera.Action → Option ℕ
shutdown_at e [] = none
shutdown_at e (show_shutdown ∷ as_) = some 0
shutdown_at e (run_app ∷ as_) = shutdown_at e as_ >>= (λ t. some (e + t))
shutdown_at e (a ∷ as_) = shutdown_at e as_ >>= (λ t. some (camera_sleep a + t))

busy_at-sleeps :
    (n : ℕ) (as_ : List Update.Action) (t : ℕ)
    → busy_at as_ ≡ some t
    → busy_at (replicate n sleep_tenth ++ as_) ≡ some (100 * n + t)
busy_at-sleeps zero as_ t h = h ∙ ap some (omega arith)
busy_at-sleeps (suc n) as_ t h =
    ap (λ o. o >>= (λ u. some (100 + u))) (busy_at-sleeps n as_ t h) ∙ ap some (omega arith)

busy_at-kills :
    (n : ℕ) (as_ : List Update.Action) (t : ℕ)
    → busy_at as_ ≡ some t
    → busy_at (replicate n kill_app ++ as_) ≡ some t
busy_at-kills zero as_ t h = h
busy_at-kills (suc n) as_ t h =
    ap (λ o. o >>= (λ u. some (0 + u))) (busy_at-kills n as_ t h) ∙ ap some (omega arith)

-- Let camApp be listed the first `m` times that update_real.sh looks, every tenth of a second for
-- ten seconds, and have ended by the time of the next look, `e` milliseconds after the script began
-- to wait. Counting only the sleeps, with more than `m` rounds of fuel, and if the pictures are there,
-- runCamera.sh shows its picture 200 milliseconds after that end, and update_real.sh shows its own
-- later.
pub busy-last :
    (f : Found) (m fuel e : ℕ)
    → m < fuel
    → EndsAt f.app_listed m
    → f.busy_bitmap ≡ true
    → e ≤ 100 * min m 100
    → (w : List Update.Action) × (busy : ℕ) × (splash f fuel ≡ some w)
      × (busy_at w ≡ some busy)
      × (shutdown_at e (run_camera true) ≡ some (e + 200))
      × (e + 200 < busy)
unfolding splash run_camera
busy-last f m fuel e h ends shown ended =
    let tail : List Update.Action = sleep_half ∷ show_busy ∷ [] in
    let kills = replicate (m - timeout) kill_app ++ tail in
    (
      (replicate (min m timeout) sleep_tenth ++ replicate (m - timeout) kill_app) ++ tail,
      100 * min m 100 + 500,
      rw (shown, wait_for_app-rounds f.app_listed m fuel h ends.0 ends.1) refl,
      ap busy_at (
            append_assoc (replicate (min m timeout) sleep_tenth) (replicate (m - timeout) kill_app)
              tail)
          ∙ busy_at-sleeps (min m timeout) kills 500 (busy_at-kills (m - timeout) tail 500 refl),
      ap some (omega arith),
      omega (arith, ended),
    )
