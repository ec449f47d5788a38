-- ===== src/Image/Partitions.antt =====
-- The parts of the image are where the partition table says.
use chronos_updates.Common.{
  ◌+◌, ◌*◌, ◌≡◌, sym, ap, ◌∙◌, String, List, [], ◌++◌, arith, length, take, drop, length-append,
  append-nil, append_assoc,
}
use chronos_updates.Image.{
  File, bootpart_size, rootfs_size, boot_partition, rootfs_partition, Packer, Tools, packer,
  assemble, Disk, make_ptable, make_boot, make_rootfs, bootstrapped,
}
use chronos_updates.Image.Slices.{partition_bytes, length-truncate, take_front, drop_front}

-- What is unpacked from the image that the script assembles.
abbrev unpacked_image : Tools → List String → String → Disk → File
unpacked_image t options name d =
    let (code, boot, rootfs) = bootstrapped t options d in
    (packer t name).unpack (assemble t name (make_ptable t) boot rootfs)

unpack-three :
    (p : Packer) (a b c : File) → p.unpack ((p.pack a ++ p.pack b) ++ p.pack c) ≡ a ++ (b ++ c)
unpack-three p a b c =
    ap p.unpack (append_assoc (p.pack a) (p.pack b) (p.pack c))
    ∙ p.unpack_packed a (p.pack b ++ p.pack c)
    ∙ ap (λ l. a ++ l)
        (p.unpack_packed b (p.pack c)
          ∙ ap (λ l. b ++ l)
              (ap p.unpack (sym (append-nil (p.pack c)))
                ∙ p.unpack_packed c []
                ∙ ap (λ l. c ++ l) p.unpack_nothing
                ∙ append-nil c))

length-make_ptable : (t : Tools) → length (make_ptable t) ≡ 63 * 512
unfolding make_ptable
length-make_ptable t = length-truncate (63 * 512) _

length-make_boot : (t : Tools) (d : Disk) → length (make_boot t d) ≡ bootpart_size * 512
unfolding make_boot
length-make_boot t d = t.length-mkfs_vfat _ ∙ length-truncate (bootpart_size * 512) _

length-make_rootfs : (t : Tools) (d : Disk) → length (make_rootfs t d) ≡ rootfs_size * 512
unfolding make_rootfs
length-make_rootfs t d = t.length-mkfs_ext3 _ ∙ length-truncate (rootfs_size * 512) _

-- Two partitions' files behind a partition table, each of its length.
three_parts :
    (p b r : File)
    → length p ≡ 63 * 512
    → length b ≡ bootpart_size * 512
    → length r ≡ rootfs_size * 512
    → (take (63 * 512) (p ++ (b ++ r)) ≡ p)
      × (partition_bytes boot_partition (p ++ (b ++ r)) ≡ b)
      × (partition_bytes rootfs_partition (p ++ (b ++ r)) ≡ r)
      × (length (p ++ (b ++ r)) ≡ (63 + bootpart_size + rootfs_size) * 512)
three_parts p b r lp lb lr = (
  take_front (63 * 512) p (b ++ r) lp,
  ap (take (bootpart_size * 512)) (drop_front (63 * 512) p (b ++ r) lp)
      ∙ take_front (bootpart_size * 512) b r lb,
  ap (take (rootfs_size * 512)) (
        ap (drop ((bootpart_size + 63) * 512)) (sym (append_assoc p b r))
        ∙ drop_front ((bootpart_size + 63) * 512) (p ++ b) r (omega (arith, length-append p b)))
      ∙ ap (take (rootfs_size * 512)) (sym (append-nil r))
      ∙ take_front (rootfs_size * 512) r [] lr,
  omega (arith, length-append p (b ++ r), length-append b r),
)

-- Unpacked, the image that the script assembles has the partition table before the first
-- partition, and in each partition of that table exactly the file system that was made for it; it
-- ends where the second partition does.
pub unpacked_image-partitions :
    (t : Tools) (options : List String) (name : String) (d : Disk)
    → let card = unpacked_image t options name d in
      (take (63 * 512) card ≡ make_ptable t)
      × (partition_bytes boot_partition card ≡ (bootstrapped t options d).1)
      × (partition_bytes rootfs_partition card ≡ (bootstrapped t options d).2)
      × (length card ≡ (63 + bootpart_size + rootfs_size) * 512)
unfolding bootstrapped assemble
unpacked_image-partitions t options name d =
    let (boot_length, rootfs_length) =
      t.length-debootstrap options (make_boot t d) (make_rootfs t d) in
    rw (unpack-three (packer t name) (make_ptable t) _ _) (
      three_parts (make_ptable t) _ _ (length-make_ptable t) (boot_length ∙ length-make_boot t d)
        (rootfs_length ∙ length-make_rootfs t d))
