-- ===== src/Image.antt =====
-- scripts/chronos-mkimage.sh: an SD card image with a partition table, a boot partition and a root
-- file system. The programs that the script runs are the parameter `Tools`; they are taken to
-- succeed but for the bootstrap, whose exit status the script looks at. The four files of the
-- script are a record, so the image has another name than the three temporary files; the loop
-- devices and mounts by which the bootstrap reaches the file systems are left out.
pub mod Slices
pub mod Partitions
pub mod Outcome
use chronos_updates.Common.{
  ℕ, ◌+◌, ◌*◌, ◌≡◌, refl, Bool, true, false, String, Option, none, some, List, [], ◌∷◌, ◌++◌, ◌==◌,
  if◌then◌else◌, codes, length, take, replicate, same_codes,
}

-- The bytes of a file.
abbrev pub File : Type 0
File = List ℕ

unfoldable pub zeros : ℕ → File
zeros n = replicate n 0

-- `truncate -s`: the file cut, or padded with zeros, to a length.
pub truncate : ℕ → File → File
truncate n f = take n (f ++ zeros n)

-- A line of the script's input to sfdisk, in sectors.
pub record Partition : Type 0 where
  pub start : ℕ
  pub size : ℕ
  pub type : ℕ
  pub bootable : Bool

abbrev pub sector : ℕ
sector = 512

abbrev first_sector : ℕ
first_sector = 63

-- `BOOTPART_SIZE`.
abbrev pub bootpart_size : ℕ
bootpart_size = 80262

-- `ROOTFS_SIZE`.
abbrev pub rootfs_size : ℕ
rootfs_size = 7168000

abbrev pub boot_partition : Partition
boot_partition = record { start = first_sector; size = bootpart_size; type = 0xc; bootable = true }

abbrev pub rootfs_partition : Partition
rootfs_partition = record {
  start = bootpart_size + first_sector;
  size = rootfs_size;
  type = 0x83;
  bootable = false;
}

abbrev partition_table : List Partition
partition_table = boot_partition ∷ rootfs_partition ∷ []

-- A program that packs a file: packed files one after the other are unpacked one after the other.
pub record Packer : Type 0 where
  pub pack : File → File
  pub unpack : File → File
  pub unpack_nothing : unpack [] ≡ []
  pub unpack_packed : (f rest : File) → unpack (pack f ++ rest) ≡ f ++ unpack rest

-- The programs that the script runs. A file that is mounted or formatted keeps its length.
pub record Tools : Type 0 where
  pub sfdisk : List Partition → File → File
  pub mkfs_vfat : File → File
  pub mkfs_ext3 : File → File
  pub debootstrap : List String → File → File → ℕ × File × File
  pub gzip : Packer
  pub bzip2 : Packer
  pub xz : Packer
  pub length-mkfs_vfat : (f : File) → length (mkfs_vfat f) ≡ length f
  pub length-mkfs_ext3 : (f : File) → length (mkfs_ext3 f) ≡ length f
  pub length-debootstrap :
      (options : List String) (boot rootfs : File)
      → (length (debootstrap options boot rootfs).1 ≡ length boot)
        × (length (debootstrap options boot rootfs).2 ≡ length rootfs)

-- `${NAME##*.}` of what is left of a name, after a prefix that left `last`.
suffix_after : List ℕ → List ℕ → List ℕ
suffix_after last [] = last
suffix_after last (c ∷ cs) = suffix_after (if c == b'.' then cs else last) cs

unfoldable pub suffix : String → List ℕ
unfolding suffix_after
suffix name = suffix_after (codes name) (codes name)

-- `cat`: the file as it is.
abbrev pub cat : Packer
cat = record {
  pack = λ f. f;
  unpack = λ f. f;
  unpack_nothing = refl;
  unpack_packed = λ f rest. refl;
}

-- The `case` on the image's suffix.
unfoldable pub packer : Tools → String → Packer
unfolding suffix
packer t name =
    let s = suffix name in
    if same_codes s (codes "gz")
    then t.gzip
    else if same_codes s (codes "bz2")
    then t.bzip2
    else if same_codes s (codes "xz")
    then t.xz
    else cat

-- `>`, then `>>` twice.
pub assemble : Tools → String → File → File → File → File
assemble t name ptable boot rootfs =
    let p = packer t name in (p.pack ptable ++ p.pack boot) ++ p.pack rootfs

-- The files of the script: `PTABLE_FILE`, `BOOTPART_FILE`, `ROOTFS_FILE` and `IMAGENAME`.
pub record Disk : Type 0 where
  pub ptable : Option File
  pub boot : Option File
  pub rootfs : Option File
  pub image : Option File

abbrev contents : Option File → File
contents none = []
contents (some f) = f

-- The partition table's file: a whole card of zeros, partitioned, then cut off at the first
-- partition.
pub make_ptable : Tools → File
make_ptable t =
    let card = truncate ((bootpart_size + rootfs_size + 63) * 512) (zeros (1024 * 1024)) in
    truncate (63 * 512) (t.sfdisk partition_table card)

unfoldable pub make_boot : Tools → Disk → File
make_boot t d = t.mkfs_vfat (truncate (bootpart_size * 512) (contents d.boot))

unfoldable pub make_rootfs : Tools → Disk → File
make_rootfs t d = t.mkfs_ext3 (truncate (rootfs_size * 512) (contents d.rootfs))

-- The exit status of the bootstrap, and the two file systems after it.
unfoldable pub bootstrapped : Tools → List String → Disk → ℕ × File × File
bootstrapped t options d = t.debootstrap options (make_boot t d) (make_rootfs t d)

-- `atexit`, where the files are concerned.
abbrev atexit : Disk → Disk
atexit d = record d { ptable = none; boot = none; rootfs = none }

-- The script from its partition table on: its exit status, and the files that it leaves.
pub build : Tools → List String → String → Disk → ℕ × Disk
build t options name d =
    let ptable = make_ptable t in
    let (code, boot, rootfs) = bootstrapped t options d in
    let made = record d { ptable = some ptable; boot = some boot; rootfs = some rootfs } in
    if code == 0
    then (0, atexit (record made { image = some (assemble t name ptable boot rootfs) }))
    else (code, atexit made)

abbrev pub last_of : String → List String → String
last_of a [] = a
last_of a (b ∷ bs) = last_of b bs

abbrev pub all_but_last : String → List String → List String
all_but_last a [] = []
all_but_last a (b ∷ bs) = a ∷ all_but_last b bs

-- The whole script, on its arguments; `pmount` says that pmount and pumount are installed.
pub mkimage : Tools → Bool → List String → Disk → ℕ × Disk
mkimage t pmount [] d = (1, d)
mkimage t false (a ∷ more) d = (1, d)
mkimage t true (a ∷ more) d = build t (all_but_last a more) (last_of a more) d
