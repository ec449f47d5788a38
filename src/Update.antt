-- ===== src/Update.antt =====
-- update_real.sh, the script that installs an update from the drive that it is on: what it does,
-- one action after the other, on what it finds there and on the camera.
pub mod Waiting
pub mod Sums
pub mod Outcome
pub mod Boot
use chronos_updates.Common.{
  ℕ, zero, suc, ◌+◌, ◌-◌, Bool, true, false, ◌||◌, ◌&&◌, not, Option, none, some, List, [], ◌∷◌,
  ◌++◌, ◌>>=◌, ltb, if◌then◌else◌, codes, same_codes,
}

-- The init scripts whose links it changes.
pub data Service : Type 0 where
  telnetd thttpd banner psplash shutdown_splash matrix_gui_e gplv3_notice udev : Service
  load_hd_firmware vidorder camera networking mountnfs bootmisc alsa_state udhcpcd : Service

pub data Action : Type 0 where
  -- `killall camApp`, and with `-9`.
  stop_app kill_app : Action
  sleep_tenth sleep_half sleep_ten : Action
  -- `checksum.raw` and `busy.raw`, written to the frame buffer.
  show_checksum show_busy : Action
  -- `rm -rf /boot/*`, `tar zxvf update.tgz`, `cp /boot/* /media/mmcblk0p1/`.
  delete_boot extract_update copy_boot : Action
  remove_ti_logo : Action
  -- `update-rc.d -f SERVICE remove`, `update-rc.d SERVICE start N S .`, with a stop at 0 in run
  -- levels 0 and 6, and `update-rc.d SERVICE defaults`.
  remove_links : Service → Action
  start_at : ℕ → Service → Action
  start_stop_at : ℕ → ℕ → Service → Action
  default_links : Service → Action
  -- `killall camshutdown`, `killall pcUtil`, `pcUtil -u`, `pcUtil -q`.
  stop_camshutdown stop_pc_util flash_pmic quit_pmic : Action
  reboot : Action

-- What the script finds.
pub record Found : Type 0 where
  -- The lines that `md5sum -c` prints, where the drive has `update.md5sum`.
  pub sums : Option (List (List ℕ))
  pub busy_bitmap : Bool
  -- Whether `ps | grep camApp` prints a line, the nth time.
  pub app_listed : ℕ → Bool
  pub ti_logo : Bool
  pub pmic_file : Bool
  -- The version that `pcUtil -v` prints, where it is a number.
  pub pmic_version : Option ℕ

-- `grep 'FAILED$'` selects the line.
unfoldable pub ends_with : List ℕ → List ℕ → Bool
ends_with pattern [] = same_codes [] pattern
ends_with pattern (c ∷ cs) = same_codes (c ∷ cs) pattern || ends_with pattern cs

unfoldable pub any_failed : List (List ℕ) → Bool
any_failed [] = false
any_failed (l ∷ ls) = ends_with (codes "FAILED") l || any_failed ls

-- `"$badsums" != ""`, where there are sums.
unfoldable pub bad_sums : Found → Bool
bad_sums f = elim f.sums [ none ↦ false | some ls ↦ any_failed ls ]

-- The loop that waits for camApp, on fuel: `timeout` is `TIMEOUT`, `n` counts the rounds.
pub wait_for_app : (ℕ → Bool) → ℕ → ℕ → ℕ → Option (List Action)
wait_for_app listed zero timeout n = none
wait_for_app listed (suc fuel) timeout n =
    let slept = wait_for_app listed fuel (timeout - 1) (n + 1) in
    let killed = wait_for_app listed fuel timeout (n + 1) in
    if not (listed n)
    then some []
    else if ltb 0 timeout
    then slept >>= (λ more. some (sleep_tenth ∷ more))
    else killed >>= (λ more. some (kill_app ∷ more))

abbrev pub timeout : ℕ
timeout = 100

unfoldable pub splash : Found → ℕ → Option (List Action)
splash f fuel =
    let waited = wait_for_app f.app_listed fuel timeout 0 in
    if f.busy_bitmap then waited >>= (λ w. some (w ++ (sleep_half ∷ show_busy ∷ []))) else some []

abbrev pub links : List Action
links =
    remove_links telnetd
    ∷ remove_links thttpd
    ∷ remove_links banner
    ∷ remove_links psplash
    ∷ remove_links shutdown_splash
    ∷ remove_links matrix_gui_e
    ∷ remove_links gplv3_notice
    ∷ remove_links udev
    ∷ start_at 3 udev
    ∷ remove_links load_hd_firmware
    ∷ start_at 40 load_hd_firmware
    ∷ remove_links vidorder
    ∷ start_at 41 vidorder
    ∷ remove_links camera
    ∷ start_stop_at 42 0 camera
    ∷ remove_links networking
    ∷ start_at 60 networking
    ∷ remove_links mountnfs
    ∷ start_at 65 mountnfs
    ∷ remove_links bootmisc
    ∷ start_at 70 bootmisc
    ∷ remove_links alsa_state
    ∷ start_at 80 alsa_state
    ∷ default_links udhcpcd
    ∷ []

-- `PMICHEXVERSION`.
abbrev pub pmic_hex_version : ℕ
pmic_hex_version = 7

-- `[ "$PMICFWVERSION" -lt "$PMICHEXVERSION" ]`, which fails on what is no number.
unfoldable pub pmic_is_old : Found → Bool
pmic_is_old f = elim f.pmic_version [ none ↦ false | some v ↦ ltb v pmic_hex_version ]

unfoldable pub update_pmic : Found → List Action
update_pmic f =
    if f.pmic_file
    then stop_camshutdown ∷ stop_pc_util ∷ (if pmic_is_old f then flash_pmic ∷ [] else [])
    else []

-- From the deletion of /boot on.
pub install : Found → List Action
install f =
    delete_boot
    ∷ ((if f.busy_bitmap then show_busy ∷ [] else [])
        ++ (extract_update
            ∷ ((if f.ti_logo then remove_ti_logo ∷ [] else [])
                ++ (copy_boot ∷ (links ++ (update_pmic f ++ (reboot ∷ [])))))))

-- The whole script; `none` is a camApp that is still there when the fuel runs out.
pub update : Found → ℕ → Option (List Action)
update f fuel =
    let shown = splash f fuel in
    if bad_sums f
    then some (stop_app ∷ show_checksum ∷ sleep_ten ∷ reboot ∷ [])
    else shown >>= (λ w. some (stop_app ∷ (w ++ install f)))
