-- ===== src/Hardware/Firmware/Display.antt =====
-- What load-hd-firmware.sh and vidorder write to the display, and what scripts/hwsetup.sh does.
use chronos_updates.Common.{
  ℕ, zero, suc, ◌+◌, ◌<◌, ◌≡◌, refl, sym, ap, ◌∙◌, Bool, true, false, Option, none, some, List, [],
  ◌∷◌, ◌++◌, ◌==◌, replicate, append_assoc, String, if◌then◌else◌,
}
use chronos_updates.Hardware.Video.{
  Module, syslink, vpss, ti81xxfb, ti81xxhdmi, ti81xxvo, ti81xxvin, Attribute, display_enabled,
  display_timings, display_output, display_order, graphics_nodes, VideoAction, modprobe, rmmod,
  put_attribute,
}
use chronos_updates.Hardware.{
  Write, videos, video_setup, writes, sleeps, await_screen, timeout, hwsetup, vidorder,
  hwsetup_pins, vidorder_pins,
}
use chronos_updates.Hardware
use chronos_updates.Hardware.Firmware
use chronos_updates.Hardware.Firmware.{
  sleep_half, fbset, start, lcd_writes, before_ipc, firmwares, load_hd_firmware,
}
use chronos_updates.Hardware.Firmware.Waits.{FirstAt, started_trace, start-ends}

-- What of a trace is done to the video devices.
abbrev pub setup_videos : List Hardware.Action → List VideoAction
setup_videos [] = []
setup_videos (Hardware.Action.video v ∷ as_) = v ∷ setup_videos as_
setup_videos (_ ∷ as_) = setup_videos as_

abbrev firmware_videos : List Firmware.Action → List VideoAction
firmware_videos [] = []
firmware_videos (Firmware.Action.video v ∷ as_) = v ∷ firmware_videos as_
firmware_videos (_ ∷ as_) = firmware_videos as_

abbrev place : Attribute → ℕ
place display_enabled = 0
place display_timings = 1
place display_output = 2
place display_order = 3
place graphics_nodes = 4

abbrev module_number : Module → ℕ
module_number syslink = 0
module_number vpss = 1
module_number ti81xxfb = 2
module_number ti81xxhdmi = 3
module_number ti81xxvo = 4
module_number ti81xxvin = 5

-- The last text that is written to an attribute, which had one before.
abbrev pub last_written : Attribute → List VideoAction → String → String
last_written t [] old = old
last_written t (put_attribute k new ∷ vs) old =
    last_written t vs (if place k == place t then new else old)
last_written t (_ ∷ vs) old = last_written t vs old

-- The parameters that a module is loaded with, if it is.
abbrev pub parameters : Module → List VideoAction → Option String → Option String
parameters m [] old = old
parameters m (modprobe k new ∷ vs) old =
    parameters m vs (if module_number k == module_number m then some new else old)
parameters m (rmmod k ∷ vs) old =
    parameters m vs (if module_number k == module_number m then none else old)
parameters m (_ ∷ vs) old = parameters m vs old

setup_videos-append :
    (xs ys : List Hardware.Action) → setup_videos (xs ++ ys) ≡ setup_videos xs ++ setup_videos ys
setup_videos-append [] ys = refl
setup_videos-append (Hardware.Action.video v ∷ xs) ys = ap (λ t. v ∷ t) (setup_videos-append xs ys)
setup_videos-append (Hardware.Action.sleep_half ∷ xs) ys = setup_videos-append xs ys
setup_videos-append (Hardware.Action.fbset ∷ xs) ys = setup_videos-append xs ys
setup_videos-append (Hardware.Action.write w ∷ xs) ys = setup_videos-append xs ys
setup_videos-append (Hardware.Action.usage ∷ xs) ys = setup_videos-append xs ys

setup_videos-sleeps :
    (n : ℕ) (ys : List Hardware.Action) → setup_videos (sleeps n ++ ys) ≡ setup_videos ys
unfolding sleeps
setup_videos-sleeps zero ys = refl
setup_videos-sleeps (suc n) ys = setup_videos-sleeps n ys

firmware_videos-sleeps :
    (n : ℕ) (ys : List Firmware.Action)
    → firmware_videos (replicate n sleep_half ++ ys) ≡ firmware_videos ys
firmware_videos-sleeps zero ys = refl
firmware_videos-sleeps (suc n) ys = firmware_videos-sleeps n ys

hwsetup-videos : (found : ℕ → Bool) → setup_videos (hwsetup Hardware.start found).1 ≡ video_setup
unfolding hwsetup videos writes
hwsetup-videos found =
    let rounds = await_screen found 0 timeout in
    ap (λ t. video_setup ++ t)
      (setup_videos-sleeps rounds
          ((if found (rounds + 1) then Hardware.fbset ∷ [] else []) ++ writes hwsetup_pins)
        ∙ go (found (rounds + 1)))
  where
    go :
        (b : Bool)
        → setup_videos ((if b then Hardware.fbset ∷ [] else []) ++ writes hwsetup_pins) ≡ []
    go true = refl
    go false = refl

firmware-videos :
    (a b : ℕ) → firmware_videos (started_trace a b) ≡ firmware_videos (started_trace 0 0)
firmware-videos a b =
    let hdmi = Firmware.Action.video (modprobe ti81xxhdmi "") ∷ [] in
    let head = firmware_videos before_ipc in
    ap (λ t. head ++ t)
      (firmware_videos-sleeps a
        (firmwares ++ ((lcd_writes ++ (replicate b sleep_half ++ (fbset ∷ []))) ++ hdmi)))
    ∙ ap (λ t. firmware_videos (before_ipc ++ (firmwares ++ lcd_writes)) ++ t)
        (ap firmware_videos (append_assoc (replicate b sleep_half) (fbset ∷ []) hdmi)
          ∙ firmware_videos-sleeps b (fbset ∷ hdmi))

-- The two scripts of the old system, one after the other.
abbrev pub both_scripts : List Firmware.Action → List VideoAction
both_scripts trace = firmware_videos trace ++ setup_videos vidorder.1

same_texts :
    (t : Attribute) (old : String)
    → last_written t (both_scripts (started_trace 0 0)) old ≡ last_written t video_setup old
unfolding vidorder writes
same_texts display_enabled old = refl
same_texts display_timings old = refl
same_texts display_output old = refl
same_texts display_order old = refl
same_texts graphics_nodes old = refl

same_parameters :
    (m : Module) (old : Option String)
    → (module_number m == module_number syslink) ≡ false
    → parameters m (both_scripts (started_trace 0 0)) old ≡ parameters m video_setup old
unfolding vidorder writes
same_parameters syslink old h = cc
same_parameters vpss old h = refl
same_parameters ti81xxfb old h = refl
same_parameters ti81xxhdmi old h = refl
same_parameters ti81xxvo old h = refl
same_parameters ti81xxvin old h = refl

-- Let the devices of syslink be missing at the first `a` tests for them and there at the next, and
-- /dev/fb0 so at the first `b` tests. With more fuel than `a` and `b`, `load-hd-firmware.sh start`
-- comes to its end, with status 0, and with vidorder after it the display is set up as
-- `hwsetup.sh start` does it, whenever that finds /dev/fb0: the text that is last written to each
-- attribute of the display is the same, and the three video modules are loaded with the same
-- parameters.
pub displays-agree :
    (ipc fb0 found : ℕ → Bool) (a b fuel : ℕ) (t : Attribute) (m : Module) (old_text : String)
    (old_parameters : Option String)
    → a < fuel
    → b < fuel
    → FirstAt ipc a
    → FirstAt fb0 b
    → (module_number m == module_number syslink) ≡ false
    → (trace : List Firmware.Action) × (load_hd_firmware start ipc fb0 fuel ≡ some (0, trace))
      × (last_written t (both_scripts trace) old_text
          ≡ last_written t (setup_videos (hwsetup Hardware.start found).1) old_text)
      × (parameters m (both_scripts trace) old_parameters
          ≡ parameters m (setup_videos (hwsetup Hardware.start found).1) old_parameters)
displays-agree ipc fb0 found a b fuel t m old_text old_parameters h k first second video =
    let up = ap (λ vs. vs ++ setup_videos vidorder.1) (firmware-videos a b) in
    let down = sym (hwsetup-videos found) in
    (
      started_trace a b,
      start-ends ipc fb0 a b fuel h k first second,
      ap (λ vs. last_written t vs old_text) up
          ∙ same_texts t old_text
          ∙ ap (λ vs. last_written t vs old_text) down,
      ap (λ vs. parameters m vs old_parameters) up
          ∙ same_parameters m old_parameters video
          ∙ ap (λ vs. parameters m vs old_parameters) down,
    )
