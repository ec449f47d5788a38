-- ===== src/Hardware.antt =====
-- scripts/hwsetup.sh, which sets up the camera's pins on Debian, and rootfs/etc/init.d/vidorder,
-- which does so on the system before it: the writes to the attributes of sysfs, in their order, the
-- video modules that they load, and fbset. Firmware has the script that loads the video modules on
-- the system before.
pub mod Video
pub mod Firmware
pub mod Pins
pub mod Accepted
pub mod Screen
pub mod Board
use chronos_updates.Common.{
  ℕ, zero, suc, ◌+◌, ◌-◌, Bool, true, false, ◌||◌, Option, none, some, List, [], ◌∷◌, ◌++◌, ◌==◌,
  if◌then◌else◌,
}
use chronos_updates.Hardware.Video.{
  VideoAction, modprobe, put_attribute, vpss, ti81xxfb, ti81xxhdmi, vpss_parameters, fb_parameters,
  lcd_timings, display_enabled, display_timings, display_output, display_order, graphics_nodes,
}

pub data Direction : Type 0 where
  input output : Direction

pub data Edge : Type 0 where
  rising both_edges : Edge

-- A write to `export`, or to an attribute of a pin.
pub data Write : Type 0 where
  export_pin : ℕ → Write
  set_direction : ℕ → Direction → Write
  set_value : ℕ → ℕ → Write
  set_edge : ℕ → Edge → Write

abbrev output_pin : ℕ → ℕ → List Write
output_pin n v = export_pin n ∷ set_direction n output ∷ set_value n v ∷ []

abbrev input_pin : ℕ → List Write
input_pin n = export_pin n ∷ set_direction n input ∷ []

abbrev input_edges : ℕ → List Write
input_edges n = export_pin n ∷ set_direction n input ∷ set_edge n both_edges ∷ []

-- GPIO2, which signals the end of a frame.
abbrev pub frame_end : List Write
frame_end = export_pin 51 ∷ set_edge 51 rising ∷ []

abbrev pub fpga_control : List Write
fpga_control =
    output_pin 47 1 ++ (input_pin 45 ++ (input_pin 52 ++ (output_pin 58 1 ++ output_pin 53 1)))

abbrev pub encoder_wheel : List Write
encoder_wheel = input_edges 20 ++ (input_edges 26 ++ input_edges 27)

abbrev pub trigger_io : List Write
trigger_io = input_pin 21 ++ (input_pin 127 ++ input_pin 16)

-- The shutter button and the two lamps.
abbrev pub recording_status : List Write
recording_status = input_pin 66 ++ (output_pin 25 0 ++ output_pin 41 0)

abbrev pub miscellaneous : List Write
miscellaneous = input_pin 34 ++ (output_pin 33 1 ++ output_pin 54 0)

-- The writes of the two scripts to the pins.
abbrev pub hwsetup_pins : List Write
hwsetup_pins =
    fpga_control
    ++ (encoder_wheel ++ (trigger_io ++ (recording_status ++ (frame_end ++ miscellaneous))))

abbrev pub vidorder_pins : List Write
vidorder_pins =
    frame_end
    ++ (fpga_control ++ (encoder_wheel ++ (trigger_io ++ (recording_status ++ miscellaneous))))

-- The words that hwsetup.sh looks at.
pub data Argument : Type 0 where
  start stop other : Argument

pub data Action : Type 0 where
  video : VideoAction → Action
  sleep_half : Action
  fbset : Action
  write : Write → Action
  usage : Action

pub writes : List Write → List Action
writes [] = []
writes (w ∷ ws) = write w ∷ writes ws

pub videos : List VideoAction → List Action
videos [] = []
videos (v ∷ vs) = video v ∷ videos vs

-- modprobe of the three video modules, and the writes to their attributes.
abbrev pub video_setup : List VideoAction
video_setup =
    modprobe vpss vpss_parameters
    ∷ modprobe ti81xxfb fb_parameters
    ∷ modprobe ti81xxhdmi ""
    ∷ put_attribute display_enabled "0"
    ∷ put_attribute display_timings lcd_timings
    ∷ put_attribute display_output "triplediscrete,rgb888,0/0/0/0"
    ∷ put_attribute display_order "1,2/3/1/0"
    ∷ put_attribute display_enabled "1"
    ∷ put_attribute graphics_nodes "1:dvo2"
    ∷ []

-- The loop that waits for /dev/fb0, from its nth test on: how often it sleeps. `timeout` is counted
-- down to 0.
pub await_screen : (ℕ → Bool) → ℕ → ℕ → ℕ
await_screen found n zero = 0
await_screen found n (suc timeout) =
    let more = await_screen found (n + 1) timeout in if found n then 0 else more + 1

abbrev pub timeout : ℕ
timeout = 10

pub sleeps : ℕ → List Action
sleeps zero = []
sleeps (suc n) = sleep_half ∷ sleeps n

-- hwsetup.sh: its exit status, and what it does; `found` says whether /dev/fb0 is there at the nth
-- test for it.
pub hwsetup : Argument → (ℕ → Bool) → ℕ × List Action
hwsetup stop found = (0, [])
hwsetup other found = (1, usage ∷ [])
hwsetup start found =
    let rounds = await_screen found 0 timeout in
    (
      0,
      videos video_setup
          ++ (sleeps rounds
              ++ ((if found (rounds + 1) then fbset ∷ [] else []) ++ writes hwsetup_pins)),
    )

-- vidorder, on any arguments.
pub vidorder : ℕ × List Action
vidorder = (0, video (put_attribute display_order "1,2/3/1/0") ∷ writes vidorder_pins)
