-- ===== src/Formatting.antt =====
-- scripts/mksd-format.sh, which partitions and fills an SD card, and scripts/mksd-rootfs.sh, which
-- fills one partition: what they do, one action after the other, on a device whose name is a list
-- of character codes. The programs that they run are taken to succeed.
pub mod Guards
use chronos_updates.Common.{
  ℕ, Bool, true, false, ◌&&◌, Option, none, some, String, List, [], ◌∷◌, ◌++◌, map, leb,
  if◌then◌else◌, codes,
}

-- A line for sfdisk: the partition's name, its start, its size where it is given, its type.
pub record Row : Type 0 where
  pub name : List ℕ
  pub start : ℕ
  pub size : Option ℕ
  pub type : ℕ
  pub bootable : Bool

pub data Action : Type 0 where
  -- "Cowardly refusing to format".
  say_refusing : Action
  unmount : List ℕ → Action
  -- `dd if=/dev/zero`, `sfdisk`, `partprobe`.
  wipe : List ℕ → Action
  partition : List ℕ → List Row → Action
  reread : List ℕ → Action
  make_vfat make_ext3 : List ℕ → Action
  mount_on_temporary : List ℕ → Action
  copy_bootloader copy_system copy_whole_system : Action
  unmount_temporary : Action

-- What the scripts find: whether the device is a block device, and where it is mounted.
pub record Found : Type 0 where
  pub is_block : Bool
  pub mount_points : List (List ℕ)

-- `grep '[0-9]$'`.
pub ends_in_digit : List ℕ → Bool
ends_in_digit [] = false
ends_in_digit (c ∷ []) = leb b'0' c && leb c b'9'
ends_in_digit (c ∷ d ∷ cs) = ends_in_digit (d ∷ cs)

pub boot_part : List ℕ → List ℕ
boot_part device = if ends_in_digit device then device ++ codes "p1" else device ++ codes "1"

pub rootfs_part : List ℕ → List ℕ
rootfs_part device = if ends_in_digit device then device ++ codes "p2" else device ++ codes "2"

abbrev pub table : List ℕ → List Row
table device =
    record { name = boot_part device; start = 63; size = some 80262; type = 0xc; bootable = true }
    ∷ record {
      name = rootfs_part device;
      start = 80325;
      size = none;
      type = 0x83;
      bootable = false;
    }
    ∷ []

-- mksd-format.sh.
pub mksd_format : Found → List ℕ → List Action
mksd_format f device =
    (if f.is_block then [] else say_refusing ∷ [])
    ++ (map unmount f.mount_points
        ++ (wipe device
            ∷ partition device (table device)
            ∷ reread device
            ∷ make_vfat (boot_part device)
            ∷ mount_on_temporary (boot_part device)
            ∷ copy_bootloader
            ∷ unmount_temporary
            ∷ make_ext3 (rootfs_part device)
            ∷ mount_on_temporary (rootfs_part device)
            ∷ copy_system
            ∷ unmount_temporary
            ∷ []))

-- mksd-rootfs.sh.
pub mksd_rootfs : Found → List ℕ → List Action
mksd_rootfs f device =
    if f.is_block
    then unmount device
      ∷ make_ext3 device
      ∷ mount_on_temporary device
      ∷ copy_whole_system
      ∷ unmount_temporary
      ∷ []
    else say_refusing ∷ []
