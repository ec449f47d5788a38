-- ===== src/Checks/Bootstraps.antt =====
-- scripts/chronos-debootstrap.sh on small inputs.
use chronos_updates.Common.{
  ℕ, suc, ◌≡◌, ◌≢◌, refl, ap, ◌∙◌, Bool, true, false, if◌then◌else◌, if-false, either, Bool-cases,
  inl, inr, none, List, [], ◌∷◌, ◌++◌, map, length, codes, same_codes, same_codes-equal, String,
}
use chronos_updates.Image.{File, make_boot, make_rootfs, build}
use chronos_updates.Bootstrap.{
  Word, Settings, suite_flag, sysroot_flag, choose_gui, set, defaults, flag_of, letters_of, chosen,
  get_options, Host, boot_dir, rootfs_dir, mounts, with_bootstrap,
}
use chronos_updates.Bootstrap.Options.{
  Given, gui, apart, joined, write_options, apply_options, at_mounts, get_options-mounts,
}
use chronos_updates.Bootstrap.Outcome.{Makes, options-image, root-fails, help-image}
use chronos_updates.Checks.Card.{copying, empty}

length-map : (g : ℕ → ℕ) (f : File) → length (map g f) ≡ length f
length-map g [] = refl
length-map g (c ∷ f) = ap suc (length-map g f)

-- A multistrap that fills the file systems that it installs into.
filled : Settings → Word → File → File
filled s path f =
    if same_codes path s.sysroot
    then map (λ c. 1) f
    else if same_codes path s.bootpart
    then map (λ c. 2) f
    else f

filled_other :
    (s : Settings) (path : Word) (f : File)
    → path ≢ s.sysroot
    → path ≢ s.bootpart
    → filled s path f ≡ f
unfolding filled
filled_other s path f a b = if-false _ (differ s.sysroot a) ∙ if-false _ (differ s.bootpart b)
  where
    differ : (other : Word) → path ≢ other → same_codes path other ≡ false
    differ other n = elim (Bool-cases (same_codes path other)) [
      | inl e ↦ absurd (n (same_codes-equal path other e))
      | inr e ↦ e
    ]

length-filled : (s : Settings) (path : Word) (f : File) → length (filled s path f) ≡ length f
unfolding filled
length-filled s path f =
    either (λ (g : File). length g ≡ length f) (same_codes path s.sysroot) (length-map (λ c. 1) f)
      (either (λ (g : File). length g ≡ length f) (same_codes path s.bootpart)
        (length-map (λ c. 2) f) refl)

abbrev host : Bool → Host
host root = record {
  here = codes "/work";
  multistrap_found = true;
  qemu_found = true;
  is_arm = false;
  is_root = root;
  status = λ s. 0;
  file_system = filled;
  file_system_other = filled_other;
  length-file_system = length-filled;
}

-- `-g -s unstable -d/tmp`.
abbrev given : List Given
given = gui ∷ apart suite_flag (codes "unstable") ∷ joined sysroot_flag b'/' (codes "tmp") ∷ []

abbrev words : List String
words = "-g" ∷ "-s" ∷ "unstable" ∷ "-d/tmp" ∷ []

abbrev start : Settings
start = record {
  suite = codes "voyager";
  gui_package = codes "chronos-gui";
  sysroot = codes "/work/debian";
  bootpart = [];
}

get_options-mounts_example :
    get_options none (write_options given ++ mounts) start
    ≡ chosen (record {
      suite = codes "unstable";
      gui_package = codes "chronos-gui2";
      sysroot = rootfs_dir;
      bootpart = boot_dir;
    })
unfolding choose_gui set
get_options-mounts_example = get_options-mounts given start

options-image_example :
    Makes
      (copying 0)
      (host false)
      words
      "card.img"
      empty
      (filled (at_mounts (apply_options given start)) boot_dir (make_boot (copying 0) empty))
      (filled (at_mounts (apply_options given start)) rootfs_dir (make_rootfs (copying 0) empty))
unfolding defaults
options-image_example =
    options-image (copying 0) (host false) words "card.img" empty given refl (refl, refl) refl refl

root-fails_example :
    ((build (with_bootstrap (copying 0) (host true)) words "card.img" empty).0 ≡ 127)
    × ((build (with_bootstrap (copying 0) (host true)) words "card.img" empty).1.image ≡ none)
root-fails_example =
    root-fails (copying 0) (host true) words "card.img" empty given refl (refl, refl) refl

help-image_example :
    Makes
      (copying 0)
      (host false)
      ("-g" ∷ "-h" ∷ [])
      "card.img"
      empty
      (make_boot (copying 0) empty)
      (make_rootfs (copying 0) empty)
unfolding letters_of flag_of
help-image_example =
    help-image (copying 0) (host false) ("-g" ∷ "-h" ∷ []) "card.img" empty (gui ∷ []) (codes "-h")
      [] refl refl refl refl
