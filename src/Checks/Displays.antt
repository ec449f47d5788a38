-- ===== src/Checks/Displays.antt =====
-- The start of the video devices where the devices appear after one test and after two.
use chronos_updates.Common.{ℕ, ◌<◌, ◌≡◌, refl, true, false, none, some, List, arith, leb}
use chronos_updates.Hardware.Video.{Module, vpss, ti81xxvo, display_order}
use chronos_updates.Hardware
use chronos_updates.Hardware.{hwsetup, hwsetup_pins, vidorder_pins}
use chronos_updates.Hardware.Firmware.{Engine, Action, start, stop, load_hd_firmware}
use chronos_updates.Hardware.Firmware.Modules.{Machine, act_all, loaded_up, loaded_down, start-stop}
use chronos_updates.Hardware.Firmware.Display.{
  both_scripts, last_written, parameters, setup_videos, displays-agree,
}

first_fails : (k : ℕ) → k < 1 → leb 1 k ≡ false
first_fails k h = ground (arith, h)

two_fail : (k : ℕ) → k < 2 → leb 2 k ≡ false
two_fail k h = ground (arith, h)

-- Only the modules of the video output, of those of the display.
abbrev warm : Machine
warm = record {
  loaded = λ m. elim m [ vpss ↦ true | ti81xxvo ↦ true | _ ↦ false ];
  running = λ e. false;
}

start-stop_example :
    (up : List Action) × (down : List Action) × (load_hd_firmware start (leb 1) (leb 2) 3
      ≡ some (0, up))
    × (load_hd_firmware stop (leb 1) (leb 2) 3 ≡ some (0, down))
    × ((m : Module) → (act_all up warm).loaded m ≡ loaded_up warm m)
    × ((e : Engine) → (act_all up warm).running e ≡ true)
    × ((m : Module) → (act_all down (act_all up warm)).loaded m ≡ loaded_down warm m)
    × ((e : Engine) → (act_all down (act_all up warm)).running e ≡ false)
start-stop_example =
    start-stop (leb 1) (leb 2) 1 2 3 warm (omega arith) (omega arith) (first_fails, refl)
      (two_fail, refl)

displays-agree_example :
    (trace : List Action) × (load_hd_firmware start (leb 1) (leb 2) 3 ≡ some (0, trace))
    × (last_written display_order (both_scripts trace) "0"
        ≡ last_written display_order (setup_videos (hwsetup Hardware.start (λ n. false)).1) "0")
    × (parameters vpss (both_scripts trace) none
        ≡ parameters vpss (setup_videos (hwsetup Hardware.start (λ n. false)).1) none)
displays-agree_example =
    displays-agree (leb 1) (leb 2) (λ n. false) 1 2 3 display_order vpss "0" none (omega arith)
      (omega arith) (first_fails, refl) (two_fail, refl) refl
