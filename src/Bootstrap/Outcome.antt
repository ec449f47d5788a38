-- ===== src/Bootstrap/Outcome.antt =====
-- The image that scripts/chronos-mkimage.sh makes with scripts/chronos-debootstrap.sh.
use chronos_updates.Common.{
  ℕ, ◌≡◌, ◌≢◌, refl, sym, ap, ap₂, ◌∙◌, Bool, true, false, if◌then◌else◌, if-true, if-false, not,
  ◌&&◌, ◌||◌, ◌==◌, String, none, some, List, ◌∷◌, ◌++◌, map, append_assoc, codes, inl, inr,
}
use chronos_updates.Image.{
  File, Tools, Disk, packer, boot_partition, rootfs_partition, make_boot, make_rootfs, bootstrapped,
  build,
}
use chronos_updates.Image.Slices.{partition_bytes}
use chronos_updates.Image.Outcome.{build-outcome}
use chronos_updates.Bootstrap.{
  Word, Settings, flag_of, letters_of, Parsed, chosen, get_options, Host, defaults, run_multistrap,
  run_parsed, bootstrap, boot_dir, rootfs_dir, mounts, with_bootstrap,
}
use chronos_updates.Bootstrap.Options.{
  Given, write_options, apply_options, at_mounts, get_options-mounts, get_options-refused,
  get_options-ended,
}

-- The image, unpacked, has these two file systems in its partitions.
abbrev HasSystems : Tools → String → File → File → File → Type 0
HasSystems t name image boot rootfs =
    (partition_bytes boot_partition ((packer t name).unpack image) ≡ boot)
    × (partition_bytes rootfs_partition ((packer t name).unpack image) ≡ rootfs)

-- The script exits with 0 and leaves an image with these two file systems.
abbrev pub Makes : Tools → Host → List String → String → Disk → File → File → Type 0
Makes t h options name d boot rootfs =
    (image : File) × ((build (with_bootstrap t h) options name d).0 ≡ 0)
    × ((build (with_bootstrap t h) options name d).1.image ≡ some image)
    × HasSystems t name image boot rootfs

-- What is not there is not needed, and multistrap is there.
abbrev HasPrograms : Host → Type 0
HasPrograms h = (h.multistrap_found ≡ true) × ((h.qemu_found || h.is_arm) ≡ true)

neither : (a b : Bool) → (a || b) ≡ true → (not a && not b) ≡ false
neither true b h = refl
neither false true h = refl
neither false false h = cc

module _ (t : Tools) (h : Host) (options : List String) (name : String) (d : Disk) where
  packer_kept : packer (with_bootstrap t h) name ≡ packer t name
  unfolding packer with_bootstrap
  packer_kept = refl

  -- The bootstrap in terms of what its options come to.
  bootstrapped-parsed :
      {p : Parsed}
      → get_options none (map codes options ++ mounts) (defaults h) ≡ p
      → bootstrapped (with_bootstrap t h) options d
        ≡ run_parsed h p (make_boot t d) (make_rootfs t d)
  unfolding bootstrapped with_bootstrap bootstrap make_boot make_rootfs
  bootstrapped-parsed e = rw e refl

  makes :
      {boot rootfs : File}
      → bootstrapped (with_bootstrap t h) options d ≡ (0, boot, rootfs)
      → Makes t h options name d boot rootfs
  makes e = elim (build-outcome (with_bootstrap t h) options name d) [
    | inl (image, _, exit, made, (_, boot_kept, rootfs_kept, _)) ↦ (
      image,
      exit,
      made,
      (
        (rw packer_kept at boot_kept) ∙ ap (λ (r : ℕ × File × File). r.1) e,
        (rw packer_kept at rootfs_kept) ∙ ap (λ (r : ℕ × File × File). r.2) e,
      ),
    )
    | inr (fails, _, _) ↦ absurd (fails (ap (λ (r : ℕ × File × File). r.0) e))
  ]

  past_checks :
      (s : Settings) (boot rootfs : File)
      → HasPrograms h
      → run_multistrap h s boot rootfs ≡ (
          if h.is_root
          then (127, boot, rootfs)
          else (h.status s, h.file_system s boot_dir boot, h.file_system s rootfs_dir rootfs))
  unfolding run_multistrap
  past_checks s boot rootfs (found, emulated) =
      if-false _ (ap not found) ∙ if-false _ (neither h.qemu_found h.is_arm emulated)

  -- What the script does as another user than root.
  by_user :
      {s : Settings}
      → get_options none (map codes options ++ mounts) (defaults h) ≡ chosen s
      → HasPrograms h
      → h.is_root ≡ false
      → h.status s ≡ 0
      → bootstrapped (with_bootstrap t h) options d ≡ (
        0,
        h.file_system s boot_dir (make_boot t d),
        h.file_system s rootfs_dir (make_rootfs t d),
      )
  unfolding run_parsed
  by_user {s} e found user done =
      bootstrapped-parsed e
      ∙ past_checks s (make_boot t d) (make_rootfs t d) found
      ∙ if-false _ user
      ∙ ap
          (λ n. (
            n,
            h.file_system s boot_dir (make_boot t d),
            h.file_system s rootfs_dir (make_rootfs t d),
          ))
          done

  with_mounts :
      {ws : List Word} {p : Parsed}
      → map codes options ≡ ws
      → get_options none (ws ++ mounts) (defaults h) ≡ p
      → get_options none (map codes options ++ mounts) (defaults h) ≡ p
  with_mounts e k = ap (λ l. get_options none (l ++ mounts) (defaults h)) e ∙ k

  -- With the programs that it needs, not as root, and if multistrap succeeds, the script makes from
  -- the words of any options, each argument in the word of its option or in the next one, an image
  -- of the two file systems that multistrap has installed into with those options.
  pub options-image :
      (gs : List Given)
      → map codes options ≡ write_options gs
      → HasPrograms h
      → h.is_root ≡ false
      → h.status (at_mounts (apply_options gs (defaults h))) ≡ 0
      → Makes t h options name d
          (h.file_system (at_mounts (apply_options gs (defaults h))) boot_dir (make_boot t d))
          (h.file_system (at_mounts (apply_options gs (defaults h))) rootfs_dir (make_rootfs t d))
  options-image gs e found user done =
      makes (by_user (with_mounts e (get_options-mounts gs (defaults h))) found user done)

  -- As root, with the programs that it needs, the script fails with status 127 from any options that
  -- are written right, and leaves the image as it was.
  pub root-fails :
      (gs : List Given)
      → map codes options ≡ write_options gs
      → HasPrograms h
      → h.is_root ≡ true
      → ((build (with_bootstrap t h) options name d).0 ≡ 127)
        × ((build (with_bootstrap t h) options name d).1.image ≡ d.image)
  unfolding run_parsed
  root-fails gs e found root =
      let fails : bootstrapped (with_bootstrap t h) options d
          ≡ (127, make_boot t d, make_rootfs t d) =
        bootstrapped-parsed (with_mounts e (get_options-mounts gs (defaults h)))
        ∙ past_checks (at_mounts (apply_options gs (defaults h))) (make_boot t d) (make_rootfs t d)
            found
        ∙ if-true _ root in
      elim (build-outcome (with_bootstrap t h) options name d) [
        | inl (_, exit, _, _, _) ↦ absurd (cc (sym exit ∙ ap (λ (r : ℕ × File × File). r.0) fails))
        | inr (_, exit, kept) ↦ (exit ∙ ap (λ (r : ℕ × File × File). r.0) fails, kept)
      ]

  -- A word that begins with `-h`, with `-?` or with an option that there is not, behind options
  -- that are written right, makes the script exit with 0 and leave an image of two file systems
  -- that nothing was installed into.
  pub help-image :
      (gs : List Given) (w : Word) (ws : List Word) {c : ℕ} {cs : List ℕ}
      → map codes options ≡ write_options gs ++ (w ∷ ws)
      → letters_of w ≡ some (c ∷ cs)
      → (c == b'g') ≡ false
      → flag_of c ≡ none
      → Makes t h options name d (make_boot t d) (make_rootfs t d)
  unfolding run_parsed
  help-image gs w ws e l g k = makes (
      bootstrapped-parsed (
        with_mounts e (
          ap (λ l. get_options none l (defaults h))
            (append_assoc (write_options gs) (w ∷ ws) mounts)
          ∙ get_options-refused gs w (ws ++ mounts) (defaults h) l g k)))

  -- A word that is no option, behind options that are written right, hides the two directories,
  -- which come after it: with the programs that it needs, not as root, and if multistrap succeeds
  -- in other directories, the script exits with 0 and leaves an image of two file systems that
  -- nothing was installed into.
  stray-image :
      (gs : List Given) (w : Word) (ws : List Word)
      → map codes options ≡ write_options gs ++ (w ∷ ws)
      → letters_of w ≡ none
      → HasPrograms h
      → h.is_root ≡ false
      → h.status (apply_options gs (defaults h)) ≡ 0
      → (boot_dir ≢ (apply_options gs (defaults h)).sysroot)
        × (boot_dir ≢ (apply_options gs (defaults h)).bootpart)
      → (rootfs_dir ≢ (apply_options gs (defaults h)).sysroot)
        × (rootfs_dir ≢ (apply_options gs (defaults h)).bootpart)
      → Makes t h options name d (make_boot t d) (make_rootfs t d)
  stray-image gs w ws e l found user done (b, c) (r, q) =
      let s = apply_options gs (defaults h) in
      let systems =
        by_user
          (with_mounts e (
            ap (λ l. get_options none l (defaults h))
              (append_assoc (write_options gs) (w ∷ ws) mounts)
            ∙ get_options-ended gs w (ws ++ mounts) (defaults h) l))
          found user done in
      makes (
        systems
        ∙ ap₂ (λ x y. (0, x, y)) (h.file_system_other s boot_dir (make_boot t d) b c)
            (h.file_system_other s rootfs_dir (make_rootfs t d) r q))
