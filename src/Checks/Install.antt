-- ===== src/Checks/Install.antt =====
-- update_real.sh on small inputs.
use chronos_updates.Common.{ℕ, ◌<◌, ◌≡◌, refl, true, false, some, List, [], ◌∷◌, arith, ltb, codes}
use chronos_updates.Update.{
  Found, Action, delete_boot, extract_update, copy_boot, flash_pmic, reboot, ends_with, any_failed,
  bad_sums, pmic_is_old, update,
}
use chronos_updates.Update.Sums.{unreadable}
use chronos_updates.Update.Outcome.{milestones, update-changes}

-- A drive with a file that cannot be read, and a camApp that takes two rounds to end.
abbrev pub found : Found
found = record {
  sums = some (unreadable (codes "update.tgz") ∷ []);
  busy_bitmap = true;
  app_listed = λ k. ltb k 2;
  ti_logo = false;
  pmic_file = true;
  pmic_version = some 5;
}

pub listed_twice : (k : ℕ) → k < 2 → ltb k 2 ≡ true
listed_twice k h = ground (arith, h)

update-changes_example :
    (trace : List Action) × (update found 3 ≡ some trace)
    × (milestones trace ≡ delete_boot ∷ extract_update ∷ copy_boot ∷ flash_pmic ∷ reboot ∷ [])
unfolding bad_sums any_failed ends_with pmic_is_old
update-changes_example = update-changes found 2 3 (omega arith) (listed_twice, refl)
