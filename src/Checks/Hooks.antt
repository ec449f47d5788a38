-- ===== src/Checks/Hooks.antt =====
-- scripts/hooks/completion-dpkg-configure.sh on a small system.
use chronos_updates.Common.{◌≡◌, refl, true, none, some, [], ◌∷◌}
use chronos_updates.Hooks.{proc, System, Setting, hook}
use chronos_updates.Hooks.Cleanup.{hook-cleans}

abbrev pub system : System
system = record {
  ischroot = some (1 ∷ []);
  ischroot_saved = none;
  bin_true = some (2 ∷ []);
  policy = none;
  qemu = none;
  hwsetup = none;
  others = λ n. none;
  mounts = proc ∷ [];
}

-- Commands that add a file.
abbrev setting : Setting
setting = record {
  emulator = some (3 ∷ []);
  has_bootpart = true;
  configure = λ s. record s { others = λ n. some n };
  register = λ s. s;
  script = some (4 ∷ []);
}

hook-cleans_example :
    ((hook setting system).ischroot ≡ some (1 ∷ []))
    × ((hook setting system).ischroot_saved ≡ none)
    × ((hook setting system).policy ≡ none)
    × ((hook setting system).mounts ≡ proc ∷ [])
hook-cleans_example =
    hook-cleans setting system ((λ s. refl), (λ s. refl)) ((λ s. refl), (λ s. refl)) refl
