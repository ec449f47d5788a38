-- ===== src/Backend/Order.antt =====
-- What update-to-debian/update_backend.sh does before it touches the card, the power controller and
-- the power: in every run of the protocol, and so in every run of the script.
use chronos_updates.Common.{
  ℕ, ◌<◌, ◌≡◌, refl, ◌⊎◌, Bool, true, false, not, ◌&&◌, ◌||◌, some, List, [], ◌∷◌, arith, inl, inr,
}
use chronos_updates.Backend.{
  Output, unmount_card, stop_pc_util, flash_pmic, start_writing, write_done, power_off, Tick, Found,
  backend,
}
use chronos_updates.Backend.Writing.{EndsAt}
use chronos_updates.Backend.Protocol.{
  Phase, talking, unmounted, daemons_stopped, writing, written, off, Step, greet, missing,
  too_small, large_enough, vetted, unknown, check, sum, check_done, unmount, stop_daemon, stop_tool,
  flash, quit, write_at_once, write_after_stop, write_after_flash, signal, finish, switch_off, Run,
  here, step, backend-refines,
}

-- Nothing of the second kind comes before something of the first.
abbrev pub comes_first : (Output → Bool) → (Output → Bool) → List Output → Bool
comes_first first then_ [] = true
comes_first first then_ (o ∷ os) = first o || (not (then_ o) && comes_first first then_ os)

-- A step out of the early phases is of the first kind, and one within them is not of the second.
abbrev Guards : (Phase → Bool) → (Output → Bool) → (Output → Bool) → Type 0
Guards early first then_ =
    (p q : Phase) (o : Output)
    → Step p o q
    → early p ≡ true
    → (first o ≡ true) ⊎ ((then_ o ≡ false) × (early q ≡ true))

Run-comes_first :
    (early : Phase → Bool) (first then_ : Output → Bool)
    → Guards early first then_
    → {p q : Phase} {os : List Output} → Run p os q
    → early p ≡ true
    → comes_first first then_ os ≡ true
Run-comes_first early first then_ g here h = refl
Run-comes_first early first then_ g (step a r) h = elim (g _ _ _ a h) [
  | inl e ↦ rw e refl
  | inr (e, k) ↦ rw (e, Run-comes_first early first then_ g r k) (ground arith)
]

abbrev pub is_unmount : Output → Bool
is_unmount unmount_card = true
is_unmount _ = false

abbrev pub is_write : Output → Bool
is_write start_writing = true
is_write _ = false

abbrev pub is_stop_tool : Output → Bool
is_stop_tool stop_pc_util = true
is_stop_tool _ = false

abbrev pub is_flash : Output → Bool
is_flash flash_pmic = true
is_flash _ = false

abbrev pub is_done : Output → Bool
is_done write_done = true
is_done _ = false

abbrev pub is_power_off : Output → Bool
is_power_off power_off = true
is_power_off _ = false

abbrev mounted : Phase → Bool
mounted talking = true
mounted _ = false

abbrev tool_runs : Phase → Bool
tool_runs talking = true
tool_runs unmounted = true
tool_runs daemons_stopped = true
tool_runs writing = true
tool_runs written = true
tool_runs off = true
tool_runs _ = false

abbrev unfinished : Phase → Bool
unfinished written = false
unfinished off = false
unfinished _ = true

unmount-guards :
    {p q : Phase} {o : Output}
    → Step p o q
    → mounted p ≡ true
    → (is_unmount o ≡ true) ⊎ ((is_write o ≡ false) × (mounted q ≡ true))
unmount-guards greet h = inr (refl, refl)
unmount-guards missing h = inr (refl, refl)
unmount-guards too_small h = inr (refl, refl)
unmount-guards large_enough h = inr (refl, refl)
unmount-guards vetted h = inr (refl, refl)
unmount-guards unknown h = inr (refl, refl)
unmount-guards check h = inr (refl, refl)
unmount-guards (sum _) h = inr (refl, refl)
unmount-guards check_done h = inr (refl, refl)
unmount-guards unmount h = inl refl
unmount-guards stop_daemon h = cc
unmount-guards stop_tool h = cc
unmount-guards flash h = cc
unmount-guards quit h = cc
unmount-guards write_at_once h = cc
unmount-guards write_after_stop h = cc
unmount-guards write_after_flash h = cc
unmount-guards signal h = cc
unmount-guards finish h = cc
unmount-guards switch_off h = cc

stop_tool-guards :
    {p q : Phase} {o : Output}
    → Step p o q
    → tool_runs p ≡ true
    → (is_stop_tool o ≡ true) ⊎ ((is_flash o ≡ false) × (tool_runs q ≡ true))
stop_tool-guards greet h = inr (refl, refl)
stop_tool-guards missing h = inr (refl, refl)
stop_tool-guards too_small h = inr (refl, refl)
stop_tool-guards large_enough h = inr (refl, refl)
stop_tool-guards vetted h = inr (refl, refl)
stop_tool-guards unknown h = inr (refl, refl)
stop_tool-guards check h = inr (refl, refl)
stop_tool-guards (sum _) h = inr (refl, refl)
stop_tool-guards check_done h = inr (refl, refl)
stop_tool-guards unmount h = inr (refl, refl)
stop_tool-guards stop_daemon h = inr (refl, refl)
stop_tool-guards stop_tool h = inl refl
stop_tool-guards flash h = cc
stop_tool-guards quit h = cc
stop_tool-guards write_at_once h = inr (refl, refl)
stop_tool-guards write_after_stop h = cc
stop_tool-guards write_after_flash h = cc
stop_tool-guards signal h = inr (refl, refl)
stop_tool-guards finish h = inr (refl, refl)
stop_tool-guards switch_off h = inr (refl, refl)

done-guards :
    {p q : Phase} {o : Output}
    → Step p o q
    → unfinished p ≡ true
    → (is_done o ≡ true) ⊎ ((is_power_off o ≡ false) × (unfinished q ≡ true))
done-guards greet h = inr (refl, refl)
done-guards missing h = inr (refl, refl)
done-guards too_small h = inr (refl, refl)
done-guards large_enough h = inr (refl, refl)
done-guards vetted h = inr (refl, refl)
done-guards unknown h = inr (refl, refl)
done-guards check h = inr (refl, refl)
done-guards (sum _) h = inr (refl, refl)
done-guards check_done h = inr (refl, refl)
done-guards unmount h = inr (refl, refl)
done-guards stop_daemon h = inr (refl, refl)
done-guards stop_tool h = inr (refl, refl)
done-guards flash h = inr (refl, refl)
done-guards quit h = inr (refl, refl)
done-guards write_at_once h = inr (refl, refl)
done-guards write_after_stop h = inr (refl, refl)
done-guards write_after_flash h = inr (refl, refl)
done-guards signal h = inr (refl, refl)
done-guards finish h = inl refl
done-guards switch_off h = cc

-- Under the conditions of `backend-refines` the script returns, and in what it did no dd was started
-- before the card was unmounted, the power controller was not written before the program that talks
-- to it was stopped, and the camera was not switched off before `WriteDone`.
pub backend-order :
    (f : Found) (m fuel : ℕ) (ts : List Tick)
    → m < fuel
    → EndsAt f.writing m
    → (trace : List Output) × (backend f fuel ts ≡ some trace)
      × (comes_first is_unmount is_write trace ≡ true)
      × (comes_first is_stop_tool is_flash trace ≡ true)
      × (comes_first is_done is_power_off trace ≡ true)
backend-order f m fuel ts h ends =
    let (trace, runs, r) = backend-refines f m fuel ts h ends in
    (
      trace,
      runs,
      Run-comes_first mounted is_unmount is_write (λ p q o a h. unmount-guards a h) r refl,
      Run-comes_first tool_runs is_stop_tool is_flash (λ p q o a h. stop_tool-guards a h) r refl,
      Run-comes_first unfinished is_done is_power_off (λ p q o a h. done-guards a h) r refl,
    )
