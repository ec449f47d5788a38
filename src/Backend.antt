-- ===== src/Backend.antt =====
-- update-to-debian/update_backend.sh, which a user interface drives over a pipe: it reports on the
-- card in the top slot and on the files of the drive when it is asked, and on `Start` writes the
-- Debian image to the card. A tick is one `read -r -t 1 LINE`, an empty line where nothing came,
-- with what the script would find at that time. The lines that it prints about the power
-- controller, and those of dd, are left out.
pub mod Checking
pub mod Cards
pub mod Writing
pub mod Protocol
pub mod Order
pub mod Ending
use chronos_updates.Common.{
  ℕ, zero, suc, ◌+◌, Bool, true, false, not, Option, none, some, List, [], ◌∷◌, ◌++◌, map, ◌>>=◌,
  ltb, if◌then◌else◌, codes, same_codes, replicate,
}

-- The card in the top slot: the blocks that `sfdisk -s` counts, where it prints them, and the text of
-- `oemid`.
pub record Card : Type 0 where
  pub blocks : Option ℕ
  pub oemid : List ℕ

-- The lines that the script prints, and what it does besides.
pub data Output : Type 0 where
  program_run_from_top_sd : Output
  top_sd_missing top_sd_too_small top_sd_good : Output
  top_sd_vetted_brand top_sd_unknown_brand : Output
  usb_check_start usb_check_done : Output
  sum_line : List ℕ → Output
  unmount_card : Output
  stop_camshutdown stop_pc_util flash_pmic quit_pmic : Output
  -- `zcat debian.img.gz | dd of=/dev/mmcblk1 &`.
  start_writing : Output
  -- `killall -USR1 dd`.
  signal_writer : Output
  write_done : Output
  power_off : Output

pub record Tick : Type 0 where
  pub line : List ℕ
  pub card : Option Card
  -- What `md5sum -c` prints.
  pub sums : List (List ℕ)

-- The blocks of a card that is large enough.
abbrev pub blocks_needed : ℕ
blocks_needed = 3730000

-- `[ $(sfdisk -s /dev/mmcblk1) -lt 3730000 ]`. Where sfdisk prints nothing, the test has no first
-- operand and fails.
abbrev pub is_too_small : Option ℕ → Bool
is_too_small none = false
is_too_small (some n) = ltb n blocks_needed

unfoldable pub report_card : Option Card → List Output
report_card none = top_sd_missing ∷ []
report_card (some c) =
    (if is_too_small c.blocks then top_sd_too_small else top_sd_good)
    ∷ (if same_codes c.oemid (codes "0x5344") then top_sd_vetted_brand else top_sd_unknown_brand)
    ∷ []

-- The files are checked once only; `checked` is `USBCHECKED`.
pub check_files : Bool → List (List ℕ) → List Output
check_files true sums = []
check_files false sums = usb_check_start ∷ (map sum_line sums ++ (usb_check_done ∷ []))

abbrev pub is_syscheck : Tick → Bool
is_syscheck t = same_codes t.line (codes "Syscheck")

abbrev pub is_start : Tick → Bool
is_start t = same_codes t.line (codes "Start")

abbrev is_power_down : Tick → Bool
is_power_down t = same_codes t.line (codes "PowerDown")

-- The first loop: what it prints, and the ticks after the one that starts the update, if it came.
unfoldable pub await_start : Bool → List Tick → List Output × Option (List Tick)
await_start checked [] = ([], none)
await_start checked (t ∷ ts) =
    let now = if is_syscheck t then report_card t.card ++ check_files checked t.sums else [] in
    let more = await_start (if is_syscheck t then true else checked) ts in
    if is_start t then (now, some ts) else (now ++ more.0, more.1)

-- `PMICHEXVERSION`.
abbrev pub pmic_hex_version : ℕ
pmic_hex_version = 7

unfoldable pub pmic_is_old : Option ℕ → Bool
pmic_is_old none = false
pmic_is_old (some v) = ltb v pmic_hex_version

unfoldable pub update_pmic : Bool → Option ℕ → List Output
update_pmic file version =
    if file
    then stop_camshutdown
      ∷ stop_pc_util
      ∷ (if pmic_is_old version then flash_pmic ∷ quit_pmic ∷ [] else [])
    else []

-- The loop that signals dd until there is none: the rounds that it takes, on fuel.
pub await_writer : (ℕ → Bool) → ℕ → ℕ → Option ℕ
await_writer running zero n = none
await_writer running (suc fuel) n =
    let later = await_writer running fuel (n + 1) in if running n then later else some n

-- The last loop.
unfoldable pub await_power_down : List Tick → Bool
await_power_down [] = false
await_power_down (t ∷ ts) =
    let later = await_power_down ts in if is_power_down t then true else later

-- What the script finds: whether it runs from the card itself, the controller's file and version,
-- and whether the nth signal reaches a dd.
pub record Found : Type 0 where
  pub run_from_top_sd : Bool
  pub pmic_file : Bool
  pub pmic_version : Option ℕ
  pub writing : ℕ → Bool

-- From the start on; the ticks that come while dd runs are read after it.
pub write_card : Found → ℕ → List Tick → Option (List Output)
write_card f fuel ts = await_writer f.writing fuel 0 >>= λ n. some (
    unmount_card
    ∷ (update_pmic f.pmic_file f.pmic_version
        ++ (start_writing
            ∷ (replicate (suc n) signal_writer
                ++ (write_done ∷ (if await_power_down ts then power_off ∷ [] else []))))))

-- The line that it starts with, where it runs from the card.
pub greeting : Found → List Output
greeting f = if f.run_from_top_sd then program_run_from_top_sd ∷ [] else []

-- The whole script on the ticks so far; `none` is a dd that still runs when the fuel runs out.
pub backend : Found → ℕ → List Tick → Option (List Output)
backend f fuel ts =
    let (reported, started) = await_start false ts in
    let printed = greeting f ++ reported in
    elim started [
      | none ↦ some printed
      | some rest ↦ write_card f fuel rest >>= λ written. some (printed ++ written)
    ]
