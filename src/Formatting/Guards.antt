-- ===== src/Formatting/Guards.antt =====
-- Which of scripts/mksd-format.sh and scripts/mksd-rootfs.sh keeps off what is no block device,
-- and which partitions are formatted.
use chronos_updates.Common.{
  ℕ, ◌+◌, ◌&&◌, some, none, leb, ◌≡◌, ◌≢◌, refl, ap, ◌∙◌, Bool, true, false, List, [], ◌∷◌, ◌++◌,
  map, arith, keep, keep-append, drop, drop-append, length, length-append, sym, ◌<◌, codes,
  Bool-cases, inl, inr, if◌then◌else◌,
}
use chronos_updates.Formatting.{
  Action, say_refusing, unmount, wipe, partition, make_vfat, make_ext3, Found, boot_part,
  rootfs_part, table, ends_in_digit, mksd_format, mksd_rootfs,
}
use chronos_updates.Image.{bootpart_size}

-- An action that destroys what a device or a partition holds.
abbrev pub destroys : Action → Bool
destroys (wipe _) = true
destroys (partition _ _) = true
destroys (make_vfat _) = true
destroys (make_ext3 _) = true
destroys _ = false

unmounts-keep : (points : List (List ℕ)) → keep destroys (map unmount points) ≡ []
unmounts-keep [] = refl
unmounts-keep (p ∷ points) = unmounts-keep points

refusal-keep : (b : Bool) → keep destroys (if b then [] else say_refusing ∷ []) ≡ []
refusal-keep true = refl
refusal-keep false = refl

ends_in_digit-last :
    (front : List ℕ) (c : ℕ) → ends_in_digit (front ++ (c ∷ [])) ≡ (leb b'0' c && leb c b'9')
unfolding ends_in_digit
ends_in_digit-last [] c = refl
ends_in_digit-last (d ∷ []) c = refl
ends_in_digit-last (d ∷ e ∷ front) c = ends_in_digit-last (e ∷ front) c

mksd_format-kept :
    (f : Found) (device : List ℕ)
    → keep destroys (mksd_format f device)
      ≡ wipe device
        ∷ partition device (table device)
        ∷ make_vfat (boot_part device)
        ∷ make_ext3 (rootfs_part device)
        ∷ []
unfolding mksd_format
mksd_format-kept f device =
    keep-append destroys (if f.is_block then [] else say_refusing ∷ []) _
    ∙ rw (refusal-keep f.is_block) (
        keep-append destroys (map unmount f.mount_points) _
        ∙ rw (unmounts-keep f.mount_points) refl)

-- Let `c` be the last character of the name of a file, whether or not that is a block device.
-- What mksd-format.sh destroys is this, in this order: it wipes the file; it partitions it into a
-- bootable one of type 0xc, with the start and the size of the boot partition that
-- chronos-mkimage.sh makes, and one of type 0x83 from the sector behind it on; it makes a VFAT file
-- system in the first and an ext3 one in the second. Their names are that of the file with `1` and
-- `2` behind it, with a `p` between if `c` is a digit.
pub mksd_format-destroys :
    (f : Found) (front : List ℕ) (c : ℕ)
    → keep destroys (mksd_format f (front ++ (c ∷ []))) ≡ (
        let device = front ++ (c ∷ []) in
        let between = if leb 48 c && leb c 57 then codes "p" else [] in
        let first = device ++ (between ++ codes "1") in
        let second = device ++ (between ++ codes "2") in
        wipe device
        ∷ partition device (
            record {
              name = first;
              start = 63;
              size = some bootpart_size;
              type = 12;
              bootable = true;
            }
            ∷ record {
              name = second;
              start = 63 + bootpart_size;
              size = none;
              type = 131;
              bootable = false;
            }
            ∷ [])
        ∷ make_vfat first
        ∷ make_ext3 second
        ∷ [])
unfolding boot_part rootfs_part
mksd_format-destroys f front c = elim (Bool-cases (leb b'0' c && leb c b'9')) [
  | inl e ↦
      let digit = ends_in_digit-last front c ∙ e in
      mksd_format-kept f (front ++ (c ∷ [])) ∙ rw (digit, e) refl
  | inr e ↦
      let digit = ends_in_digit-last front c ∙ e in
      mksd_format-kept f (front ++ (c ∷ [])) ∙ rw (digit, e) refl
]

-- mksd-rootfs.sh formats the named file if it is a block device, and destroys nothing else.
mksd_rootfs-destroys :
    (f : Found) (device : List ℕ)
    → keep destroys (mksd_rootfs f device) ≡ (if f.is_block then make_ext3 device ∷ [] else [])
unfolding mksd_rootfs
mksd_rootfs-destroys f device = elim (Bool-cases f.is_block) [
  | inl e ↦ rw e refl
  | inr e ↦ rw e refl
]

longer : (a b : List ℕ) → 0 < length b → a ++ b ≢ a
longer a b h e = absurd (omega (arith, length-append a b, ap length e))

same_front : (a b c : List ℕ) → a ++ b ≡ a ++ c → b ≡ c
same_front a b c e = sym (drop-append a b) ∙ ap (drop (length a)) e ∙ drop-append a c

last_code : List ℕ → ℕ
last_code [] = 0
last_code (c ∷ []) = c
last_code (c ∷ d ∷ cs) = last_code (d ∷ cs)

different_ends : (a b c : List ℕ) → last_code b < last_code c → a ++ b ≢ a ++ c
different_ends a b c h e = absurd (omega (arith, ap last_code (same_front a b c e)))

-- The two partitions that mksd-format.sh formats have different names, and neither has that of the
-- device.
parts-differ :
    (device : List ℕ)
    → (boot_part device ≢ rootfs_part device)
      × (boot_part device ≢ device)
      × (rootfs_part device ≢ device)
unfolding boot_part rootfs_part last_code
parts-differ device = elim (Bool-cases (ends_in_digit device)) [
  | inl e ↦ rw e (
    different_ends device (codes "p1") (codes "p2") (omega arith),
    longer device (codes "p1") (omega arith),
    longer device (codes "p2") (omega arith),
  )
  | inr e ↦ rw e (
    different_ends device (codes "1") (codes "2") (omega arith),
    longer device (codes "1") (omega arith),
    longer device (codes "2") (omega arith),
  )
]
