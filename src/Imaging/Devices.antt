-- ===== src/Imaging/Devices.antt =====
-- When scripts/mksd-loopdev.sh leaves its loop device attached.
use chronos_updates.Common.{◌≡◌, refl, Bool, true, false, not, ◌&&◌, ◌||◌, ◌==◌, List, [], ◌∷◌, any}
use chronos_updates.Imaging.{Attempt, LoopAction, attach, detach, print_device, mksd_loopdev}

-- Whether a loop device is attached after the actions, if one was before them.
abbrev attached_after : List LoopAction → Bool → Bool
attached_after [] b = b
attached_after (attach ∷ l) b = attached_after l true
attached_after (detach ∷ l) b = attached_after l false
attached_after (_ ∷ l) b = attached_after l b

abbrev is_print : LoopAction → Bool
is_print print_device = true
is_print _ = false

-- The device is printed exactly if both file systems are made, which is when the script exits with
-- 0. It stays attached then, and also if the second file system cannot be made and another user
-- than root runs the script.
mksd_loopdev-attached :
    (a : Attempt)
    → (any is_print (mksd_loopdev a).1 ≡ (a.vfat_made && a.ext3_made))
      × (((mksd_loopdev a).0 == 0) ≡ (a.vfat_made && a.ext3_made))
      × (attached_after (mksd_loopdev a).1 false ≡ (a.vfat_made && (a.ext3_made || not a.is_root)))
unfolding mksd_loopdev
mksd_loopdev-attached a = go a.is_root a.vfat_made a.ext3_made
  where
    attempt : Bool → Bool → Bool → Attempt
    attempt r v e = record { is_root = r; vfat_made = v; ext3_made = e }

    go :
        (r v e : Bool)
        → (any is_print (mksd_loopdev (attempt r v e)).1 ≡ (v && e))
          × (((mksd_loopdev (attempt r v e)).0 == 0) ≡ (v && e))
          × (attached_after (mksd_loopdev (attempt r v e)).1 false ≡ (v && (e || not r)))
    go r false e = (refl, refl, refl)
    go r true true = (refl, refl, refl)
    go true true false = (refl, refl, refl)
    go false true false = (refl, refl, refl)
