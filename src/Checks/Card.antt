-- ===== src/Checks/Card.antt =====
-- scripts/chronos-mkimage.sh with programs that copy.
use chronos_updates.Common.{ℕ, ◌≡◌, ◌≢◌, ◌⊎◌, refl, true, none, some, [], ◌∷◌}
use chronos_updates.Image.{File, Tools, cat, Disk, bootstrapped, build, mkimage}
use chronos_updates.Image.Outcome.{IsClean, IsCard, build-outcome, mkimage-cleans}

-- A bootstrap that leaves the file systems as they are, with the given status.
abbrev pub copying : ℕ → Tools
copying status = record {
  sfdisk = λ table f. f;
  mkfs_vfat = λ f. f;
  mkfs_ext3 = λ f. f;
  debootstrap = λ options boot rootfs. (status, boot, rootfs);
  gzip = cat;
  bzip2 = cat;
  xz = cat;
  length-mkfs_vfat = λ f. refl;
  length-mkfs_ext3 = λ f. refl;
  length-debootstrap = λ options boot rootfs. (refl, refl);
}

abbrev pub empty : Disk
empty = record { ptable = none; boot = none; rootfs = none; image = none }

build-outcome_example :
    ((image : File) × ((bootstrapped (copying 0) [] empty).0 ≡ 0)
      × ((build (copying 0) [] "card.img.gz" empty).0 ≡ 0)
      × ((build (copying 0) [] "card.img.gz" empty).1.image ≡ some image)
      × IsCard (copying 0) [] "card.img.gz" empty image)
    ⊎ (((bootstrapped (copying 0) [] empty).0 ≢ 0)
        × ((build (copying 0) [] "card.img.gz" empty).0 ≡ (bootstrapped (copying 0) [] empty).0)
        × ((build (copying 0) [] "card.img.gz" empty).1.image ≡ none))
build-outcome_example = build-outcome (copying 0) [] "card.img.gz" empty

mkimage-cleans_example :
    (mkimage (copying 0) true ("-g" ∷ "card.img" ∷ []) empty ≡ (1, empty))
    ⊎ IsClean (mkimage (copying 0) true ("-g" ∷ "card.img" ∷ []) empty).1
mkimage-cleans_example = mkimage-cleans (copying 0) true ("-g" ∷ "card.img" ∷ []) empty
