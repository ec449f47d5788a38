-- ===== src/Checks/Session.antt =====
-- update-to-debian/update_backend.sh on small inputs.
use chronos_updates.Common.{
  ℕ, ◌<◌, ◌≡◌, refl, true, false, String, some, List, [], ◌∷◌, ◌++◌, none, any, arith, ltb, keep,
  get_elem?, codes,
}
use chronos_updates.Backend.{
  Card, Output, unmount_card, start_writing, signal_writer, write_done, power_off, Tick,
  report_card, Found, pmic_is_old, await_power_down, await_start, backend,
}
use chronos_updates.Backend.Cards.{is_good, UnknownOrHolds, top_sd_good-fits}
use chronos_updates.Backend.Writing.{is_step, backend-steps}
use chronos_updates.Backend.Ending.{backend-switches_off}
use chronos_updates.Backend.Protocol.{Run, talking, off, backend-refines}
use chronos_updates.Backend.Order.{
  comes_first, is_unmount, is_write, is_stop_tool, is_flash, is_done, is_power_off, backend-order,
}

abbrev pub card : Card
card = record { blocks = some 3900000; oemid = codes "0x5344" }

abbrev pub tick : String → Tick
tick s = record {
  line = codes s;
  card = some card;
  sums = codes "camUpdate/debian.img.gz: OK" ∷ [];
}

-- Two checks, the start, and the end.
abbrev pub ticks : List Tick
ticks = tick "Syscheck" ∷ tick "" ∷ tick "Syscheck" ∷ tick "Start" ∷ tick "" ∷ tick "PowerDown" ∷ []

top_sd_good-fits_example :
    ((i : ℕ) × (t : Tick) × (get_elem? ticks i ≡ some t) × UnknownOrHolds t)
    × (any is_good (report_card (some (record { blocks = none; oemid = [] }))) ≡ true)
unfolding await_start report_card
top_sd_good-fits_example = top_sd_good-fits false ticks [] refl

abbrev pub found : Found
found = record {
  run_from_top_sd = false;
  pmic_file = true;
  pmic_version = some 7;
  writing = λ k. ltb k 3;
}

pub signalled : (k : ℕ) → k < 3 → ltb k 3 ≡ true
signalled k h = ground (arith, h)

backend-steps_example :
    (trace : List Output) × (backend found 4 ticks ≡ some trace)
    × (keep is_step trace
        ≡ unmount_card ∷ start_writing ∷ signal_writer ∷ signal_writer ∷ signal_writer
          ∷ signal_writer ∷ write_done ∷ power_off ∷ [])
unfolding pmic_is_old await_power_down
backend-steps_example = backend-steps found 3 4 ticks (omega arith) (signalled, refl)

backend-refines_example :
    (trace : List Output) × (backend found 4 ticks ≡ some trace) × Run talking trace off
unfolding await_power_down
backend-refines_example = backend-refines found 3 4 ticks (omega arith) (signalled, refl)

backend-order_example :
    (trace : List Output) × (backend found 4 ticks ≡ some trace)
    × (comes_first is_unmount is_write trace ≡ true)
    × (comes_first is_stop_tool is_flash trace ≡ true)
    × (comes_first is_done is_power_off trace ≡ true)
backend-order_example = backend-order found 3 4 ticks (omega arith) (signalled, refl)

backend-switches_off_example :
    (before : List Output) × (backend found 4 ticks ≡ some (before ++ (power_off ∷ [])))
unfolding await_power_down
backend-switches_off_example =
    backend-switches_off found 3 4 ticks (tick "" ∷ tick "PowerDown" ∷ []) (omega arith)
      (signalled, refl) refl refl
