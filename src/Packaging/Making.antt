-- ===== src/Packaging/Making.antt =====
-- The rules of the Makefile that make an update package, as operations on the directory camUpdate.
-- The contents of the repository's files, and what tar makes of the root file system, are
-- parameters; zip archives the directory as it then is.
pub mod Untouched
use chronos_updates.Common.{
  ℕ, Bool, Option, none, some, List, [], ◌∷◌, ◌++◌, map, String, codes, same_codes, if◌then◌else◌,
}
use chronos_updates.Image.{File}
use chronos_updates.Packaging.{Name, Packed, Md5sum, update_md5sum, report}

-- The files in a directory, in some order.
pub put : Packed → List Packed → List Packed
put p [] = p ∷ []
put p (q ∷ qs) = let rest = put p qs in if same_codes q.name p.name then p ∷ qs else q ∷ rest

-- `cp FILES camUpdate`.
pub put_all : List Packed → List Packed → List Packed
put_all [] d = d
put_all (p ∷ ps) d = put_all ps (put p d)

pub lookup : List Packed → Name → Option File
lookup [] n = none
lookup (p ∷ ps) n = let rest = lookup ps n in if same_codes p.name n then some p.content else rest

-- The directory camUpdate: the file update.md5sum, and the others.
pub record Directory (md5 : Md5sum) : Type 0 where
  pub files : List Packed
  pub sums : Option md5.Listing

-- A file of the repository by its name, as it is copied into camUpdate.
abbrev pub copied : (String → File) → String → Packed
copied source n = record { name = codes "camUpdate/" ++ codes n; content = source n }

abbrev pub dist_files : List String
dist_files =
    "busy.raw" ∷ "checksum.raw" ∷ "update.sh" ∷ "update_real.sh"
    ∷ "Chronos1_4PowerController.X.production.hex" ∷ []

-- `update-to-debian/*`, what is copied with it, and the image that is moved.
abbrev pub debian_files : List String
debian_files =
    "update-to-debian" ∷ "update_backend.sh" ∷ "update_real.sh" ∷ "update.sh"
    ∷ "Chronos1_4PowerController.X.production.hex" ∷ "debian.img.gz" ∷ []

abbrev pub sums_name : Name
sums_name = codes "camUpdate/update.md5sum"

module _ (md5 : Md5sum) where
  pub clean : Directory md5 → Directory md5
  clean d = record { files = []; sums = none }

  -- The rule `camUpdate`.
  pub cam_update : (String → File) → Directory md5 → Directory md5
  cam_update source d = record d { files = put_all (map (copied source) dist_files) d.files }

  -- The rule `camUpdate/update.tgz`, with the archive of the root file system.
  pub update_tgz : File → Directory md5 → Directory md5
  update_tgz archive d = record d {
    files = put (record { name = codes "camUpdate/update.tgz"; content = archive }) d.files;
  }

  -- `md5sum camUpdate/* > camUpdate/update.md5sum`: the names are expanded before the file is opened,
  -- so that it is among them, and empty when it is read, exactly if there was one.
  pub write_sums : Directory md5 → Directory md5
  write_sums d =
      let itself : List Packed = elim d.sums [
        | none ↦ []
        | some l ↦ record { name = sums_name; content = [] } ∷ []
      ] in
      record d { sums = some (update_md5sum md5 (d.files ++ itself)) }

  -- `rm -f camUpdate/update.md5sum`.
  pub remove_sums : Directory md5 → Directory md5
  remove_sums d = record d { sums = none }

  pub sums_rule : Directory md5 → Directory md5
  sums_rule d = write_sums (remove_sums d)

  -- What the rule `$(ZIPFILE)` archives: its prerequisites are phony, or depend on phony ones, so that
  -- all of their rules run, whatever is there.
  pub zip_rule : (String → File) → File → Directory md5 → Directory md5
  zip_rule source archive d = sums_rule (update_tgz archive (cam_update source d))

  -- What the rule `debian` archives.
  pub debian : (String → File) → Directory md5 → Directory md5
  debian source d =
      let cleaned = clean d in
      write_sums
        (record cleaned { files = put_all (map (copied source) debian_files) cleaned.files })

  -- What is at a name where the directory has been unpacked.
  abbrev pub found_at : md5.Listing → List Packed → Name → Option File
  found_at l files n = if same_codes n sums_name then some (md5.text l) else lookup files n

  -- `md5sum -c camUpdate/update.md5sum` there.
  pub found_sums : Directory md5 → Option (List (List ℕ))
  found_sums d = elim d.sums [ none ↦ none | some l ↦ some (report md5 l (found_at l d.files)) ]
