-- ===== src/Update/Outcome.antt =====
-- What the script does to the camera, in which order.
use chronos_updates.Common.{
  ℕ, ◌-◌, ◌<◌, ◌≡◌, refl, ◌∙◌, Bool, true, false, ◌&&◌, some, List, [], ◌∷◌, ◌++◌, arith, min,
  replicate, ◌>>=◌, if◌then◌else◌, keep, keep-append, keep-replicate, Bool-cases, inl, inr,
}
use chronos_updates.Update.{
  Action, stop_app, kill_app, sleep_tenth, sleep_half, sleep_ten, show_busy, show_checksum,
  delete_boot, extract_update, copy_boot, flash_pmic, reboot, Found, bad_sums, timeout, splash,
  links, remove_ti_logo, stop_camshutdown, stop_pc_util, pmic_is_old, update_pmic, install, update,
}
use chronos_updates.Update.Waiting.{wait_for_app-rounds}

-- The actions that change what the camera runs, and the reboot.
abbrev is_milestone : Action → Bool
is_milestone delete_boot = true
is_milestone extract_update = true
is_milestone copy_boot = true
is_milestone flash_pmic = true
is_milestone reboot = true
is_milestone _ = false

abbrev pub milestones : List Action → List Action
milestones = keep is_milestone

-- A camApp that is listed the first `m` times that the script looks, and not the next time.
abbrev pub EndsAt : (ℕ → Bool) → ℕ → Type 0
EndsAt listed m = ((k : ℕ) → k < m → listed k ≡ true) × (listed m ≡ false)

-- What an installation changes: /boot deleted, the files extracted, the boot partition written, the
-- power controller where its firmware is there and older; then the reboot.
abbrev pub installed : Found → List Action
installed f =
    delete_boot
    ∷ extract_update
    ∷ copy_boot
    ∷ ((if f.pmic_file && pmic_is_old f then flash_pmic ∷ [] else []) ++ (reboot ∷ []))

abbrev changes : Found → List Action
changes f = if bad_sums f then reboot ∷ [] else installed f

install_steps-milestones :
    (busy logo pmic old : Bool)
    → milestones (
        delete_boot
        ∷ ((if busy then show_busy ∷ [] else [])
            ++ (extract_update
                ∷ ((if logo then remove_ti_logo ∷ [] else [])
                    ++ (copy_boot
                        ∷ (links
                            ++ ((if pmic
                                  then stop_camshutdown
                                    ∷ stop_pc_util
                                    ∷ (if old then flash_pmic ∷ [] else [])
                                  else [])
                                ++ (reboot ∷ []))))))))
      ≡ delete_boot
        ∷ extract_update
        ∷ copy_boot
        ∷ ((if pmic && old then flash_pmic ∷ [] else []) ++ (reboot ∷ []))
install_steps-milestones busy logo pmic old = ground arith

install-milestones :
    (f : Found)
    → milestones (install f)
      ≡ delete_boot
        ∷ extract_update
        ∷ copy_boot
        ∷ ((if f.pmic_file && pmic_is_old f then flash_pmic ∷ [] else []) ++ (reboot ∷ []))
unfolding install update_pmic
install-milestones f = install_steps-milestones f.busy_bitmap f.ti_logo f.pmic_file (pmic_is_old f)

pub splash-runs :
    (f : Found) (m fuel : ℕ)
    → m < fuel
    → EndsAt f.app_listed m
    → (w : List Action) × (splash f fuel ≡ some w) × (milestones w ≡ [])
unfolding splash
splash-runs f m fuel h ends = elim (Bool-cases f.busy_bitmap) [
  | inl e ↦
      let waited = replicate (min m timeout) sleep_tenth ++ replicate (m - timeout) kill_app in
      (
        waited ++ (sleep_half ∷ show_busy ∷ []),
        rw (e, wait_for_app-rounds f.app_listed m fuel h ends.0 ends.1, ◌>>=◌) refl,
        keep-append is_milestone waited (sleep_half ∷ show_busy ∷ [])
            ∙ rw
                (
                  keep-append is_milestone (replicate (min m timeout) sleep_tenth)
                      (replicate (m - timeout) kill_app),
                  keep-replicate is_milestone (min m timeout) sleep_tenth refl,
                  keep-replicate is_milestone (m - timeout) kill_app refl,
                )
                refl,
      )
  | inr e ↦ ([], rw e refl, refl)
]

-- If camApp is listed the first `m` times and then not, then with more than `m` rounds of fuel the
-- script comes to its end. Of deleting /boot, extracting the files, copying the boot components,
-- writing the power controller and rebooting, it does in this order, and once each: only the reboot
-- if the sums are bad; otherwise all of them, the power controller exactly if its file is there and
-- its version is a number below 7.
pub update-changes :
    (f : Found) (m fuel : ℕ)
    → m < fuel
    → EndsAt f.app_listed m
    → (trace : List Action) × (update f fuel ≡ some trace) × (milestones trace ≡ changes f)
unfolding update
update-changes f m fuel h ends = elim (Bool-cases (bad_sums f)) [
  | inl e ↦ (stop_app ∷ show_checksum ∷ sleep_ten ∷ reboot ∷ [], rw e refl, rw e refl)
  | inr e ↦
      let (w, runs, none_of_them) = splash-runs f m fuel h ends in
      (
        stop_app ∷ (w ++ install f),
        rw (e, runs, ◌>>=◌) refl,
        rw e (keep-append is_milestone w (install f) ∙ rw none_of_them (install-milestones f)),
      )
]
