-- ===== src/Hooks/Cleanup.antt =====
-- What scripts/hooks/completion-dpkg-configure.sh leaves behind.
use chronos_updates.Common.{◌≡◌, refl, ap, ◌∙◌, Bool, true, false, Option, none, some, List, ◌∷◌}
use chronos_updates.Image.{File}
use chronos_updates.Hooks.{
  Mount, dev, sys, proc, System, Setting, policy_script, save_ischroot, restore_ischroot,
  mount_boot, unmount_boot, unmount, prepare, configured, atexit, hook,
}

-- The commands in the system leave the two names of ischroot and the mounts alone.
abbrev pub KeepsScaffold : (System → System) → Type 0
KeepsScaffold f =
    ((s : System) → (f s).ischroot_saved ≡ s.ischroot_saved)
    × ((s : System) → (f s).mounts ≡ s.mounts)

saved_is :
    (o : Option File) (s : System)
    → s.ischroot_saved ≡ none
    → ((save_ischroot o s).ischroot_saved ≡ o) × ((save_ischroot o s).mounts ≡ s.mounts)
saved_is none s e = (e, refl)
saved_is (some f) s e = (refl, refl)

restored_is :
    (o : Option File) (s : System)
    → s.ischroot ≡ none
    → s.ischroot_saved ≡ o
    → ((restore_ischroot o s).ischroot ≡ o)
      × ((restore_ischroot o s).ischroot_saved ≡ none)
      × ((restore_ischroot o s).policy ≡ s.policy)
      × ((restore_ischroot o s).mounts ≡ s.mounts)
restored_is none s e k = (e, k, refl, refl)
restored_is (some f) s e k = (refl, refl, refl, refl)

unmounted :
    (b : Bool) (ms : List Mount)
    → unmount_boot b (unmount proc (unmount sys (unmount dev (proc ∷ sys ∷ dev ∷ mount_boot b ms))))
      ≡ ms
unmounted true ms = refl
unmounted false ms = refl

-- What the exit makes of a system with the scaffold in it.
atexit-cleans :
    (c : Setting) (s : System) {o : Option File} {ms : List Mount}
    → s.ischroot_saved ≡ o
    → s.mounts ≡ proc ∷ sys ∷ dev ∷ mount_boot c.has_bootpart ms
    → ((atexit c s).ischroot ≡ o)
      × ((atexit c s).ischroot_saved ≡ none)
      × ((atexit c s).policy ≡ none)
      × ((atexit c s).mounts ≡ ms)
unfolding atexit
atexit-cleans c s {o} {ms} e k =
    let (restored, gone, policy_gone, kept) =
      restored_is s.ischroot_saved
        (record s {
          mounts = unmount_boot c.has_bootpart (unmount proc (unmount sys (unmount dev s.mounts)));
          qemu = elim c.emulator [ none ↦ s.qemu | some _ ↦ none ];
          policy = none;
          ischroot = none;
        })
        refl refl in
    (
      restored ∙ e,
      gone,
      policy_gone,
      kept
          ∙ ap (λ l. unmount_boot c.has_bootpart (unmount proc (unmount sys (unmount dev l)))) k
          ∙ unmounted c.has_bootpart ms,
    )

prepared :
    (c : Setting) (s : System)
    → s.ischroot_saved ≡ none
    → ((prepare c s).ischroot_saved ≡ s.ischroot)
      × ((prepare c s).mounts ≡ proc ∷ sys ∷ dev ∷ mount_boot c.has_bootpart s.mounts)
unfolding prepare
prepared c s e =
    let (saved, kept) = saved_is s.ischroot (record s { policy = some policy_script }) e in
    (saved, ap (λ ms. proc ∷ sys ∷ dev ∷ mount_boot c.has_bootpart ms) kept)

-- If the commands in the system leave ischroot's saved name and the mounts alone, and no ischroot is
-- saved before, then after the script ischroot is what it was, or absent as it was, no saved one and
-- no policy is left, and the mounts are as before.
pub hook-cleans :
    (c : Setting) (s : System)
    → KeepsScaffold c.configure
    → KeepsScaffold c.register
    → s.ischroot_saved ≡ none
    → ((hook c s).ischroot ≡ s.ischroot)
      × ((hook c s).ischroot_saved ≡ none)
      × ((hook c s).policy ≡ none)
      × ((hook c s).mounts ≡ s.mounts)
unfolding hook configured
hook-cleans c s (saved, mounts) (saved_still, mounts_still) e =
    let (there, up) = prepared c s e in
    atexit-cleans c (configured c (prepare c s)) (saved_still _ ∙ saved (prepare c s) ∙ there)
      (mounts_still _ ∙ mounts (prepare c s) ∙ up)
