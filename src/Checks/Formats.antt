-- ===== src/Checks/Formats.antt =====
-- scripts/mksd-format.sh and scripts/mksd-rootfs.sh on a file that is no block device.
use chronos_updates.Common.{◌≡◌, true, false, some, none, [], ◌∷◌, keep, codes}
use chronos_updates.Formatting.{Found, wipe, partition, make_vfat, make_ext3, mksd_format}
use chronos_updates.Formatting.Guards.{destroys, mksd_format-destroys}

abbrev no_device : Found
no_device = record { is_block = false; mount_points = codes "/media/card" ∷ [] }

-- `backup` ends in no digit.
mksd_format-destroys_example :
    keep destroys (mksd_format no_device (codes "backup"))
    ≡ wipe (codes "backup")
      ∷ partition (codes "backup") (
          record {
            name = codes "backup1";
            start = 63;
            size = some 80262;
            type = 0xc;
            bootable = true;
          }
          ∷ record {
            name = codes "backup2";
            start = 80325;
            size = none;
            type = 0x83;
            bootable = false;
          }
          ∷ [])
      ∷ make_vfat (codes "backup1")
      ∷ make_ext3 (codes "backup2")
      ∷ []
mksd_format-destroys_example = mksd_format-destroys no_device (codes "backu") b'p'
