-- ===== src/Hooks/Chroot/Session.antt =====
-- What scripts/chronos-chroot.sh leaves behind.
use chronos_updates.Common.{◌≡◌, refl, ap, ◌∙◌, Option, none, some, List, ◌∷◌}
use chronos_updates.Image.{File}
use chronos_updates.Hooks.{Mount, dev, System, copy, unmount, save_ischroot, restore_ischroot}
use chronos_updates.Hooks.Cleanup.{KeepsScaffold}
use chronos_updates.Hooks.Chroot.{enter, leave, chroot}

entered :
    (emulator : Option File) (s : System)
    → s.ischroot_saved ≡ none
    → ((enter emulator s).ischroot_saved ≡ s.ischroot)
      × ((enter emulator s).mounts ≡ dev ∷ s.mounts)
      × ((enter emulator s).qemu ≡ copy emulator s.qemu)
unfolding enter
entered emulator s e = go s.ischroot
  where
    go :
        (o : Option File)
        → ((save_ischroot o s).ischroot_saved ≡ o)
          × ((dev ∷ (save_ischroot o s).mounts) ≡ dev ∷ s.mounts)
          × (copy emulator (save_ischroot o s).qemu ≡ copy emulator s.qemu)
    go none = (e, refl, refl)
    go (some f) = (refl, refl, refl)

left :
    (s : System) {o : Option File} {ms : List Mount}
    → s.ischroot_saved ≡ o
    → s.mounts ≡ dev ∷ ms
    → ((leave s).ischroot ≡ o)
      × ((leave s).ischroot_saved ≡ none)
      × ((leave s).mounts ≡ ms)
      × ((leave s).qemu ≡ s.qemu)
unfolding leave
left s {o} {ms} e k =
    let (first, second, third, fourth) = go s.ischroot_saved refl in
    (first ∙ e, second, third ∙ ap (unmount dev) k, fourth)
  where
    go :
        (o' : Option File)
        → s.ischroot_saved ≡ o'
        → ((restore_ischroot o' (record s { ischroot = none })).ischroot ≡ o')
          × ((restore_ischroot o' (record s { ischroot = none })).ischroot_saved ≡ none)
          × (unmount dev (restore_ischroot o' (record s { ischroot = none })).mounts
              ≡ unmount dev s.mounts)
          × ((restore_ischroot o' (record s { ischroot = none })).qemu ≡ s.qemu)
    go none h = (refl, h, refl, refl)
    go (some f) h = (refl, refl, refl, refl)

-- If the session leaves ischroot's saved name and the mounts alone, and no ischroot is saved before,
-- then after it ischroot is what it was, or absent as it was, no saved one is left, and the mounts
-- are as before; but the emulator is not taken away: what the session leaves of it stays.
pub chroot-leaves :
    (emulator : Option File) (session : System → System) (s : System)
    → KeepsScaffold session
    → s.ischroot_saved ≡ none
    → ((chroot emulator session s).ischroot ≡ s.ischroot)
      × ((chroot emulator session s).ischroot_saved ≡ none)
      × ((chroot emulator session s).mounts ≡ s.mounts)
      × ((chroot emulator session s).qemu ≡ (session (enter emulator s)).qemu)
      × ((enter emulator s).qemu ≡ copy emulator s.qemu)
unfolding chroot
chroot-leaves emulator session s (saved, mounts) e =
    let (there, up, put) = entered emulator s e in
    let (back, gone, down, kept) =
      left (session (enter emulator s)) (saved (enter emulator s) ∙ there)
        (mounts (enter emulator s) ∙ up) in
    (back, gone, down, kept, put)
