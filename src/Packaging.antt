-- ===== src/Packaging.antt =====
-- The checksums of an update, from the Makefile, which writes camUpdate/update.md5sum when it packs
-- the update, to update_real.sh, which has them checked on the camera. md5sum is a parameter.
pub mod Integrity
pub mod Making
use chronos_updates.Common.{
  ℕ, ◌≡◌, Bool, true, false, not, Option, none, some, List, [], ◌∷◌, ◌++◌, map, if◌then◌else◌,
  codes, same_codes,
}
use chronos_updates.Image.{File}

abbrev pub Name : Type 0
Name = List ℕ

-- A file of the directory camUpdate.
pub record Packed : Type 0 where
  pub name : Name
  pub content : File

-- What `md5sum -c` says of a file: nothing is read at its name, or what is read has the digest that
-- is listed or another.
abbrev pub verdict : (File → List ℕ) → (Name → Option File) → Packed → List ℕ
verdict digest there p = elim (there p.name) [
  | none ↦ p.name ++ codes ": FAILED open or read"
  | some f ↦
      p.name
      ++ (if same_codes (digest f) (digest p.content) then codes ": OK" else codes ": FAILED")
]

-- What is relied on of md5sum: it prints a listing of the digests of files, and a listing that it has
-- printed it checks file by file against what is there. `text` is the listing as a file.
pub record Md5sum : Type 1 where
  pub Listing : Type 0
  pub digest : File → List ℕ
  pub list : List Packed → Listing
  pub text : Listing → File
  pub check : Listing → (Name → Option File) → List (List ℕ)
  pub check-list :
      (files : List Packed) (there : Name → Option File)
      → check (list files) there ≡ map (verdict digest there) files

-- The rule `camUpdate/update.md5sum`, and the same line of the rule `debian`.
pub update_md5sum : (md5 : Md5sum) → List Packed → md5.Listing
update_md5sum md5 files = md5.list files

-- `md5sum -c camUpdate/update.md5sum` on the camera.
pub report : (md5 : Md5sum) → md5.Listing → (Name → Option File) → List (List ℕ)
report md5 listing there = md5.check listing there
