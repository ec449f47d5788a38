-- ===== src/Hardware/Firmware.antt =====
-- rootfs/etc/init.d/load-hd-firmware.sh, which loads the firmware of the two video engines and the
-- video modules. Its two loops wait for a device without a limit; they are on fuel.
pub mod Waits
pub mod Modules
pub mod Display
use chronos_updates.Common.{
  ℕ, zero, suc, ◌+◌, Bool, true, false, Option, none, some, List, [], ◌∷◌, ◌++◌, ◌>>=◌, map,
  if◌then◌else◌,
}
use chronos_updates.Hardware.Video.{
  VideoAction, modprobe, rmmod, put_attribute, syslink, vpss, ti81xxfb, ti81xxhdmi, vpss_parameters,
  fb_parameters, lcd_timings, display_enabled, display_timings, display_output, graphics_nodes,
}

pub data Engine : Type 0 where
  hdvicp2 hdvpss : Engine

pub data Action : Type 0 where
  -- `prcm_config_app s`.
  prcm_config : Action
  video : VideoAction → Action
  -- `firmware_loader ID FILE start -i2c 0`, and with `stop`.
  start_firmware stop_firmware : Engine → Action
  -- `rm /tmp/firmware.ID`.
  remove_status : Engine → Action
  sleep_half : Action
  fbset : Action
  usage : Action

pub data Argument : Type 0 where
  start stop other : Argument

-- A loop that sleeps until a test succeeds, from the nth test on; `none` is one that has not.
pub await : (ℕ → Bool) → ℕ → ℕ → Option (List Action)
await found zero n = none
await found (suc fuel) n =
    let more = await found fuel (n + 1) in
    if found n then some [] else more >>= (λ as_. some (sleep_half ∷ as_))

abbrev pub lcd_writes : List Action
lcd_writes =
    video (put_attribute display_enabled "0")
    ∷ video (put_attribute display_timings lcd_timings)
    ∷ video (put_attribute display_output "triplediscrete,rgb888,0/0/0/0")
    ∷ video (put_attribute display_enabled "1")
    ∷ video (put_attribute graphics_nodes "1:dvo2")
    ∷ []

-- `fb0` says whether /dev/fb0 is there, the nth time.
pub configure_lcd : (ℕ → Bool) → ℕ → Option (List Action)
configure_lcd fb0 fuel =
    await fb0 fuel 0 >>= (λ waited. some (lcd_writes ++ (waited ++ (fbset ∷ []))))

abbrev pub before_ipc : List Action
before_ipc = prcm_config ∷ video (modprobe syslink "") ∷ []

abbrev pub firmwares : List Action
firmwares =
    start_firmware hdvicp2
    ∷ start_firmware hdvpss
    ∷ video (modprobe vpss vpss_parameters)
    ∷ video (modprobe ti81xxfb fb_parameters)
    ∷ []

abbrev pub stopping : List Action
stopping =
    stop_firmware hdvicp2
    ∷ video (rmmod ti81xxhdmi)
    ∷ video (rmmod ti81xxfb)
    ∷ video (rmmod vpss)
    ∷ stop_firmware hdvpss
    ∷ remove_status hdvpss
    ∷ video (rmmod syslink)
    ∷ []

-- The script: its exit status, and what it does; `ipc` says whether both devices of syslink are
-- there, the nth time.
pub load_hd_firmware : Argument → (ℕ → Bool) → (ℕ → Bool) → ℕ → Option (ℕ × List Action)
load_hd_firmware start ipc fb0 fuel = await ipc fuel 0 >>= (λ waited.
    configure_lcd fb0 fuel >>= (λ lcd.
      some (
        0,
        before_ipc ++ (waited ++ (firmwares ++ (lcd ++ (video (modprobe ti81xxhdmi "") ∷ [])))),
      )))
load_hd_firmware stop ipc fb0 fuel = some (0, stopping)
load_hd_firmware other ipc fb0 fuel = some (1, usage ∷ [])
