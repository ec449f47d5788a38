-- ===== src/Imaging.antt =====
-- scripts/mksd-image.sh, which makes an image of a card in a file and packs it by the file's
-- suffix, and scripts/mksd-loopdev.sh, which leaves the image on a loop device for its caller. A
-- file's name is a list of codes without a blank; files are a function from names.
pub mod Naming
pub mod Devices
use chronos_updates.Common.{
  ℕ, ◌+◌, ◌*◌, Bool, true, false, not, ◌&&◌, ◌||◌, Option, none, some, List, [], ◌∷◌, ◌++◌, ◌==◌,
  if◌then◌else◌, codes, same_codes,
}
use chronos_updates.Image.{File, Packer, truncate}
use chronos_updates.Update.{ends_with}

abbrev pub Name : Type 0
Name = List ℕ

abbrev pub Files : Type 0
Files = Name → Option File

abbrev cons_code : ℕ → Option Name → Option Name
cons_code c (some r) = some (c ∷ r)
cons_code c none = if c == b'.' then some [] else none

-- What stands before the last dot.
unfoldable pub before_dot : Name → Option Name
before_dot [] = none
before_dot (c ∷ cs) = cons_code c (before_dot cs)

-- `${FILENAME%.*}`.
unfoldable pub without_suffix : Name → Name
without_suffix name = elim (before_dot name) [ some r ↦ r | none ↦ name ]

-- `SUFFIX`.
pub data Suffix : Type 0 where
  gz bz2 plain : Suffix

unfoldable pub suffix_of : Name → Suffix
suffix_of name =
    if ends_with (codes ".gz") name
    then gz
    else if ends_with (codes ".bz2") name
    then bz2
    else plain

-- `IMAGENAME`.
abbrev pub image_name : Suffix → Name → Name
image_name gz name = without_suffix name
image_name bz2 name = without_suffix name
image_name plain name = name

abbrev pub put_file : Name → Option File → Files → Files
put_file name content files n = if same_codes n name then content else files n

-- gzip or bzip2, as it is called for a file: how it packs, and the names that it refuses, since they
-- already have a suffix of its own.
pub record Compressor : Type 0 where
  pub packer : Packer
  pub refuses : Name → Bool

abbrev is_there : Option File → Bool
is_there none = false
is_there (some _) = true

-- Whether it leaves everything as it is: the name is refused, or the packed file would replace one.
abbrev pub declines : Compressor → Name → Name → Files → Bool
declines p from to files = p.refuses from || is_there (files to)

abbrev pub pack_file : Compressor → Name → Name → Files → Files
pack_file p from to files =
    if declines p from to files
    then files
    else elim (files from) [ none ↦ files | some f ↦ put_file to (some (p.packer.pack f)) files ]

-- `gzip` removes the file that it has packed; `bzip2 -k` keeps it.
pub compress : Compressor → Compressor → Suffix → Name → Files → Files
compress gzip bzip2 gz image files =
    let to = image ++ codes ".gz" in
    if declines gzip image to files
    then files
    else put_file image none (pack_file gzip image to files)
compress gzip bzip2 bz2 image files = pack_file bzip2 image (image ++ codes ".bz2") files
compress gzip bzip2 plain image files = files

-- `3500m`.
abbrev pub image_size : ℕ
image_size = 3500 * 1024 * 1024

abbrev contents : Option File → File
contents none = []
contents (some f) = f

-- mksd-image.sh, for an argument whose image name is not empty; `format` is what mksd-format.sh makes
-- of the image through the loop device.
pub mksd_image : Compressor → Compressor → (File → File) → Name → Files → Files
mksd_image gzip bzip2 format name files =
    let suffix = suffix_of name in
    let image = image_name suffix name in
    compress gzip bzip2 suffix image
      (put_file image (some (format (truncate image_size (contents (files image))))) files)

-- What mksd-loopdev.sh finds: who runs it, and which of its two mkfs succeed.
pub record Attempt : Type 0 where
  pub is_root : Bool
  pub vfat_made : Bool
  pub ext3_made : Bool

pub data LoopAction : Type 0 where
  -- The dd, the truncate and the sfdisk on the file.
  wipe_image size_image partition_image : LoopAction
  attach : LoopAction
  make_vfat make_ext3 : LoopAction
  detach : LoopAction
  -- A command that there is not.
  sudolosetup : LoopAction
  print_device : LoopAction

abbrev prepare : List LoopAction
prepare = wipe_image ∷ size_image ∷ partition_image ∷ attach ∷ make_vfat ∷ []

-- `${SUDO}losetup -d`.
abbrev detach_unspaced : Bool → LoopAction
detach_unspaced is_root = if is_root then detach else sudolosetup

-- mksd-loopdev.sh: its exit status, and what it does.
pub mksd_loopdev : Attempt → ℕ × List LoopAction
mksd_loopdev a =
    if not a.vfat_made
    then (1, prepare ++ (detach ∷ []))
    else if not a.ext3_made
    then (1, prepare ++ (make_ext3 ∷ detach_unspaced a.is_root ∷ []))
    else (0, prepare ++ (make_ext3 ∷ print_device ∷ []))
