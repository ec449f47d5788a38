-- ===== src/Checks/Images.antt =====
-- scripts/mksd-image.sh and scripts/mksd-loopdev.sh on small inputs.
use chronos_updates.Common.{true, false, none, some, [], ◌∷◌, codes, if◌then◌else◌, same_codes}
use chronos_updates.Image.{cat}
use chronos_updates.Imaging.{Files, Compressor, Attempt}
use chronos_updates.Update.{ends_with}

-- Only `card.img`, with one byte.
abbrev files : Files
files n = if same_codes n (codes "card.img") then some (7 ∷ []) else none

-- A program that copies, and refuses the names with its suffix.
abbrev gzip : Compressor
gzip = record { packer = cat; refuses = ends_with (codes ".gz") }

abbrev attempt : Attempt
attempt = record { is_root = false; vfat_made = true; ext3_made = false }
