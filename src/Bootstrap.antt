-- ===== src/Bootstrap.antt =====
-- scripts/chronos-debootstrap.sh, which scripts/chronos-mkimage.sh calls to install the system into
-- the file systems that it has mounted: its options, its checks, and the call of multistrap. The
-- words are taken to be ones that the shell leaves as they are, neither empty nor with blanks or
-- wildcards, since the scripts do not quote them.
pub mod Options
pub mod Outcome
use chronos_updates.Common.{
  ℕ, ◌≡◌, ◌≢◌, Bool, true, false, not, ◌&&◌, String, Option, none, some, List, [], ◌∷◌, ◌++◌, ◌==◌,
  map, if◌then◌else◌, either, refl, codes, length,
}
use chronos_updates.Image.{File, Tools}

abbrev pub Word : Type 0
Word = List ℕ

-- `SUITE`, `GUIPACKAGE`, `SYSROOT` and `BOOTPART`.
pub record Settings : Type 0 where
  pub suite : Word
  pub gui_package : Word
  pub sysroot : Word
  pub bootpart : Word

-- The options that take an argument.
pub data Flag : Type 0 where
  suite_flag sysroot_flag bootpart_flag : Flag

unfoldable pub flag_of : ℕ → Option Flag
flag_of c =
    if c == b's'
    then some suite_flag
    else if c == b'd'
    then some sysroot_flag
    else if c == b'b'
    then some bootpart_flag
    else none

unfoldable pub set : Flag → Word → Settings → Settings
set suite_flag w s = record s { suite = w }
set sysroot_flag w s = record s { sysroot = w }
set bootpart_flag w s = record s { bootpart = w }

unfoldable pub choose_gui : Settings → Settings
choose_gui s = record s { gui_package = codes "chronos-gui2" }

-- What getopts finds in a word: `-h`, `-?` or an option that there is not, or no such option; then
-- the flag whose argument is the next word, if the word ends with one.
pub data Letters : Type 0 where
  refused : Letters
  read : Option Flag → Settings → Letters

pub read_letters : List ℕ → Settings → Letters
read_letters [] s = read none s
read_letters (c ∷ cs) s =
    let more = read_letters cs (choose_gui s) in
    if c == b'g' then more else elim (flag_of c) [
      | none ↦ refused
      | some f ↦ elim cs [ [] ↦ read (some f) s | ◌∷◌ b bs ↦ read none (set f (b ∷ bs) s) ]
    ]

-- The letters of a word of options; the first other word, and `--`, end the options.
unfoldable pub letters_of : Word → Option (List ℕ)
letters_of [] = none
letters_of (d ∷ []) = none
letters_of (d ∷ c ∷ []) = if d == b'-' && not (c == b'-') then some (c ∷ []) else none
letters_of (d ∷ c ∷ b ∷ cs) = if d == b'-' then some (c ∷ b ∷ cs) else none

-- What the options come to: `show_help` and the exit, or settings.
pub data Parsed : Type 0 where
  help : Parsed
  chosen : Settings → Parsed

-- The loop over getopts; `waiting` is the flag whose argument the next word is.
pub get_options : Option Flag → List Word → Settings → Parsed
get_options (some f) [] s = help
get_options (some f) (w ∷ ws) s = get_options none ws (set f w s)
get_options none [] s = chosen s
get_options none (w ∷ ws) s = elim (letters_of w) [
  | none ↦ chosen s
  | some letters ↦ elim (read_letters letters s) [
    | refused ↦ help
    | read waiting t ↦ get_options waiting ws t
  ]
]

-- The system that the script runs on, with what is relied on of multistrap: it and its hooks change
-- no file system but the two that are mounted where they are told to run_multistrap, and not the size of
-- these. `here` is the directory that the script is started in.
pub record Host : Type 0 where
  pub here : Word
  pub multistrap_found : Bool
  pub qemu_found : Bool
  pub is_arm : Bool
  pub is_root : Bool
  pub status : Settings → ℕ
  pub file_system : Settings → Word → File → File
  pub file_system_other :
      (s : Settings) (path : Word) (f : File)
      → path ≢ s.sysroot
      → path ≢ s.bootpart
      → file_system s path f ≡ f
  pub length-file_system :
      (s : Settings) (path : Word) (f : File) → length (file_system s path f) ≡ length f

unfoldable pub defaults : Host → Settings
defaults h = record {
  suite = codes "voyager";
  gui_package = codes "chronos-gui";
  sysroot = h.here ++ codes "/debian";
  bootpart = [];
}

-- Where chronos-mkimage.sh mounts the two file systems.
abbrev pub boot_dir : Word
boot_dir = codes "/media/chronos-mkimage-bootpart"

abbrev pub rootfs_dir : Word
rootfs_dir = codes "/media/chronos-mkimage-rootfs"

-- From the checks on: the exit status, and the two file systems. As root `SUDO` is empty, and
-- `SUITE=…`, which does not stand first on its line, is taken for the command's name.
pub run_multistrap : Host → Settings → File → File → ℕ × File × File
run_multistrap h s boot rootfs =
    if not h.multistrap_found
    then (1, boot, rootfs)
    else if not h.qemu_found && not h.is_arm
    then (1, boot, rootfs)
    else if h.is_root
    then (127, boot, rootfs)
    else (h.status s, h.file_system s boot_dir boot, h.file_system s rootfs_dir rootfs)

-- What follows the options.
pub run_parsed : Host → Parsed → File → File → ℕ × File × File
run_parsed h help boot rootfs = (0, boot, rootfs)
run_parsed h (chosen s) boot rootfs = run_multistrap h s boot rootfs

-- The whole script on its words.
pub bootstrap : Host → List Word → File → File → ℕ × File × File
bootstrap h words boot rootfs = run_parsed h (get_options none words (defaults h)) boot rootfs

-- The words that chronos-mkimage.sh puts behind the user's options.
abbrev pub mounts : List Word
mounts = codes "-d" ∷ rootfs_dir ∷ codes "-b" ∷ boot_dir ∷ []

-- Neither file system changes its size.
abbrev KeepsSizes : File → File → ℕ × File × File → Type 0
KeepsSizes boot rootfs (n, b, r) = (length b ≡ length boot) × (length r ≡ length rootfs)

run_multistrap-length :
    (h : Host) (s : Settings) (boot rootfs : File)
    → KeepsSizes boot rootfs (run_multistrap h s boot rootfs)
unfolding run_multistrap
run_multistrap-length h s boot rootfs =
    let P = KeepsSizes boot rootfs in
    let same : KeepsSizes boot rootfs (0, boot, rootfs) = (refl, refl) in
    either P (not h.multistrap_found) same (
      either P (not h.qemu_found && not h.is_arm) same (
        either P h.is_root same
          (h.length-file_system s boot_dir boot, h.length-file_system s rootfs_dir rootfs)))

run_parsed-length :
    (h : Host) (p : Parsed) (boot rootfs : File)
    → KeepsSizes boot rootfs (run_parsed h p boot rootfs)
unfolding run_parsed
run_parsed-length h help boot rootfs = (refl, refl)
run_parsed-length h (chosen s) boot rootfs = run_multistrap-length h s boot rootfs

bootstrap-length :
    (h : Host) (words : List Word) (boot rootfs : File)
    → (length (bootstrap h words boot rootfs).1 ≡ length boot)
      × (length (bootstrap h words boot rootfs).2 ≡ length rootfs)
unfolding bootstrap
bootstrap-length h words boot rootfs =
    run_parsed-length h (get_options none words (defaults h)) boot rootfs

-- The programs of chronos-mkimage.sh, with this script for the bootstrap.
pub with_bootstrap : Tools → Host → Tools
with_bootstrap t h = record t {
  debootstrap = λ options boot rootfs. bootstrap h (map codes options ++ mounts) boot rootfs;
  length-debootstrap =
      λ options boot rootfs. bootstrap-length h (map codes options ++ mounts) boot rootfs;
}
