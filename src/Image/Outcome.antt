-- ===== src/Image/Outcome.antt =====
-- What scripts/chronos-mkimage.sh leaves behind.
use chronos_updates.Common.{
  ℕ, ◌≡◌, ◌≢◌, ◌⊎◌, inl, inr, refl, Bool, true, false, String, none, some, List, [], ◌∷◌, arith,
  ==_iff, Bool-cases, either, take, length, ◌*◌, ◌+◌, ◌==◌,
}
use chronos_updates.Image.Slices.{partition_bytes}
use chronos_updates.Image.Partitions.{unpacked_image-partitions}
use chronos_updates.Image.{
  File, packer, boot_partition, rootfs_partition, bootpart_size, rootfs_size, Tools, Disk, assemble,
  make_ptable, bootstrapped, build, mkimage, all_but_last, last_of,
}

-- The packed image holds, unpacked, the partition table before the first partition, in each
-- partition exactly its file system, and nothing behind them.
abbrev pub IsCard : Tools → List String → String → Disk → File → Type 0
IsCard t options name d image =
    let card = (packer t name).unpack image in
    (take (63 * 512) card ≡ make_ptable t)
    × (partition_bytes boot_partition card ≡ (bootstrapped t options d).1)
    × (partition_bytes rootfs_partition card ≡ (bootstrapped t options d).2)
    × (length card ≡ (63 + bootpart_size + rootfs_size) * 512)

-- Either the bootstrap succeeds, the script exits with 0, and the image that it leaves is a whole
-- card: unpacked, it has the partition table before the first partition, in each partition of that
-- table exactly the file system that was made for it, and ends where the second partition does. Or
-- the bootstrap fails, the script exits with its status, and the image is as it was.
pub build-outcome :
    (t : Tools) (options : List String) (name : String) (d : Disk)
    → ((image : File) × ((bootstrapped t options d).0 ≡ 0)
        × ((build t options name d).0 ≡ 0)
        × ((build t options name d).1.image ≡ some image)
        × IsCard t options name d image)
      ⊎ (((bootstrapped t options d).0 ≢ 0)
          × ((build t options name d).0 ≡ (bootstrapped t options d).0)
          × ((build t options name d).1.image ≡ d.image))
unfolding build
build-outcome t options name d = elim (Bool-cases ((bootstrapped t options d).0 == 0)) [
  | inl e ↦
      let (code, boot, rootfs) = bootstrapped t options d in
      inl (
        assemble t name (make_ptable t) boot rootfs,
        (==_iff (bootstrapped t options d).0 0).0 e,
        rw e refl,
        rw e refl,
        unpacked_image-partitions t options name d,
      )
  | inr e ↦ inr ((λ z. ground (arith, e, z)), rw e refl, rw e refl)
]

-- The three temporary files are gone.
abbrev pub IsClean : Disk → Type 0
IsClean d = (d.ptable ≡ none) × (d.boot ≡ none) × (d.rootfs ≡ none)

build-cleans :
    (t : Tools) (options : List String) (name : String) (d : Disk)
    → IsClean (build t options name d).1
unfolding build
build-cleans t options name d =
    either (λ (r : ℕ × Disk). IsClean r.1) ((bootstrapped t options d).0 == 0) (refl, refl, refl)
      (refl, refl, refl)

-- Whatever the arguments, the programs and their results are, the script either stops with status
-- 1 before it has changed a file, or leaves none of its three temporary files.
pub mkimage-cleans :
    (t : Tools) (pmount : Bool) (arguments : List String) (d : Disk)
    → (mkimage t pmount arguments d ≡ (1, d)) ⊎ IsClean (mkimage t pmount arguments d).1
unfolding mkimage
mkimage-cleans t pmount [] d = inl refl
mkimage-cleans t false (a ∷ more) d = inl refl
mkimage-cleans t true (a ∷ more) d = inr (build-cleans t (all_but_last a more) (last_of a more) d)
