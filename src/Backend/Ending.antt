-- ===== src/Backend/Ending.antt =====
-- How update-to-debian/update_backend.sh ends: with the switching off, once it is told to.
use chronos_updates.Common.{ℕ, ◌<◌, ◌≡◌, ◌≢◌, refl, ap, ◌∙◌, true, some, List, [], ◌∷◌, ◌++◌}
use chronos_updates.Backend.{Output, power_off, Tick, await_power_down, Found, backend}
use chronos_updates.Backend.Writing.{after_start, EndsAt}
use chronos_updates.Backend.Protocol.{
  Phase, off, Step, greet, missing, too_small, large_enough, vetted, unknown, check, sum,
  check_done, unmount, stop_daemon, stop_tool, flash, quit, write_at_once, write_after_stop,
  write_after_flash, signal, finish, switch_off, Run, here, step, phase_after, backend-refines,
}

-- Nothing comes after the switching off.
not_off : {p q : Phase} {o : Output} → Step p o q → p ≢ off
not_off greet e = cc
not_off missing e = cc
not_off too_small e = cc
not_off large_enough e = cc
not_off vetted e = cc
not_off unknown e = cc
not_off check e = cc
not_off (sum _) e = cc
not_off check_done e = cc
not_off unmount e = cc
not_off stop_daemon e = cc
not_off stop_tool e = cc
not_off flash e = cc
not_off quit e = cc
not_off write_at_once e = cc
not_off write_after_stop e = cc
not_off write_after_flash e = cc
not_off signal e = cc
not_off finish e = cc
not_off switch_off e = cc

-- Nothing else leads to `off`.
off_by : {p q : Phase} {o : Output} → Step p o q → q ≡ off → o ≡ power_off
off_by greet e = cc
off_by missing e = cc
off_by too_small e = cc
off_by large_enough e = cc
off_by vetted e = cc
off_by unknown e = cc
off_by check e = cc
off_by (sum _) e = cc
off_by check_done e = cc
off_by unmount e = cc
off_by stop_daemon e = cc
off_by stop_tool e = cc
off_by flash e = cc
off_by quit e = cc
off_by write_at_once e = cc
off_by write_after_stop e = cc
off_by write_after_flash e = cc
off_by signal e = cc
off_by finish e = cc
off_by switch_off e = refl

-- A run that gets to `off` ends with the switching off.
off_last :
    {p q : Phase} {os : List Output}
    → Run p os q
    → q ≡ off
    → p ≢ off
    → (before : List Output) × (os ≡ before ++ (power_off ∷ []))
off_last here e n = absurd (n e)
off_last (step a here) e n = ([], ap (λ o. o ∷ []) (off_by a e))
off_last (step {o = o} a (step b r)) e n =
    let (before, eq) = off_last (step b r) e (not_off b) in (o ∷ before, ap (λ l. o ∷ l) eq)

-- If `Start` comes, `PowerDown` comes after it, and dd ends, then with fuel for it the script
-- returns, and the last thing that it does is to switch the camera off.
pub backend-switches_off :
    (f : Found) (m fuel : ℕ) (ts rest : List Tick)
    → m < fuel
    → EndsAt f.writing m
    → after_start ts ≡ some rest
    → await_power_down rest ≡ true
    → (before : List Output) × (backend f fuel ts ≡ some (before ++ (power_off ∷ [])))
backend-switches_off f m fuel ts rest h ends started down =
    let (trace, runs, r) = backend-refines f m fuel ts h ends in
    let (before, e) = off_last r (rw (started, down, phase_after) refl) (λ q. cc) in
    (before, runs ∙ ap some e)
