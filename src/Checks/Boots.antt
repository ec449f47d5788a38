-- ===== src/Checks/Boots.antt =====
-- An update of a camera whose firmware was started too late, and which had a splash screen.
use chronos_updates.Common.{◌≡◌, ◌≢◌, refl, some, List, [], ◌∷◌, arith, if◌then◌else◌}
use chronos_updates.Update.{
  banner, udev, load_hd_firmware, vidorder, camera, networking, mountnfs, bootmisc, alsa_state,
  udhcpcd, Action, ends_with, any_failed, bad_sums, update,
}
use chronos_updates.Update.Boot.{
  same_service, Links, started, made, UpdateRcd, apply_all, boot_sequence, boot_services,
}
use chronos_updates.Update.Boot.Order.{update-boots}
use chronos_updates.Checks.Install.{found, listed_twice}

abbrev update_rcd : UpdateRcd
update_rcd = record {
  remove = λ s r t. if same_service s t then [] else r t;
  make = λ s new r t. if same_service s t then made new (r t) else r t;
  remove-law = λ s t r. refl;
  make-law = λ s t new r. refl;
}

abbrev before : Links
before banner = started 5
before load_hd_firmware = started 90
before _ = []

update-boots_example :
    (trace : List Action) × (update found 3 ≡ some trace)
    × (apply_all update_rcd (λ r. r) trace before load_hd_firmware ≡ started 40)
    × (boot_sequence (apply_all update_rcd (λ r. r) trace before) boot_services
        ≡ udev ∷ load_hd_firmware ∷ vidorder ∷ camera ∷ networking ∷ mountnfs ∷ bootmisc
          ∷ alsa_state ∷ [])
    × (apply_all update_rcd (λ r. r) trace before udhcpcd ≢ [])
unfolding bad_sums any_failed ends_with
update-boots_example =
    update-boots update_rcd (λ r. r) found 2 3 before load_hd_firmware refl (omega arith)
      (listed_twice, refl) refl
