-- ===== src/Checks/Packages.antt =====
-- A package with a file that is missing on the drive, with digests that are the files themselves.
use chronos_updates.Common.{
  ◌≡◌, refl, none, some, Option, List, [], ◌∷◌, ◌++◌, map, arith, codes, same_codes, if◌then◌else◌,
}
use chronos_updates.Image.{File}
use chronos_updates.Update.{
  Found, Action, delete_boot, extract_update, copy_boot, flash_pmic, reboot, pmic_is_old, update,
}
use chronos_updates.Update.Outcome.{milestones}
use chronos_updates.Packaging.{Name, Packed, verdict, Md5sum, update_md5sum, report}
use chronos_updates.Packaging.Integrity.{package-changes}
use chronos_updates.Packaging.Making.{Directory, zip_rule, found_sums}
use chronos_updates.Checks.Install.{found, listed_twice}

-- The names, each before the contents.
abbrev as_text : List Packed → File
as_text [] = []
as_text (p ∷ ps) = p.name ++ (p.content ++ as_text ps)

abbrev whole : Md5sum
whole = record {
  Listing = List Packed;
  digest = λ f. f;
  list = λ files. files;
  text = as_text;
  check = λ files there. map (verdict (λ f. f) there) files;
  check-list = λ files there. refl;
}

abbrev busy : Packed
busy = record { name = codes "camUpdate/busy.raw"; content = 1 ∷ 2 ∷ [] }

abbrev tarball : Packed
tarball = record { name = codes "camUpdate/update.tgz"; content = 3 ∷ [] }

-- Only the picture is there.
abbrev there : Name → Option File
there n = if same_codes n (codes "camUpdate/busy.raw") then some (1 ∷ 2 ∷ []) else none

abbrev drive : Found
drive = record found {
  sums = some (report whole (update_md5sum whole (busy ∷ tarball ∷ [])) there);
}

package-changes_example :
    (trace : List Action) × (update drive 3 ≡ some trace)
    × (milestones trace ≡ delete_boot ∷ extract_update ∷ copy_boot ∷ flash_pmic ∷ reboot ∷ [])
unfolding pmic_is_old
package-changes_example =
    package-changes whole there (busy ∷ tarball ∷ []) drive 2 3 refl (omega arith)
      (listed_twice, refl)

-- What an earlier run left: an old picture, a file that is packed no more, and checksums.
abbrev left : Directory whole
left = record {
  files = busy ∷ record busy { name = codes "camUpdate/old.raw" } ∷ [];
  sums = some [];
}

abbrev unpacked : Found
unpacked = record found { sums = found_sums whole (zip_rule whole (λ n. codes n) (1 ∷ []) left) }
