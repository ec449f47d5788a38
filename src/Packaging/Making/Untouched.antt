-- ===== src/Packaging/Making/Untouched.antt =====
-- That the package of the Makefile, unchanged on a drive, passes the check of update_real.sh.
use chronos_updates.Common.{
  ℕ, Bool, true, false, not, ◌&&◌, Option, none, some, List, [], ◌∷◌, map, String, codes,
  same_codes,
}
use chronos_updates.Image.{File}
use chronos_updates.Packaging.{Name, Packed, Md5sum, update_md5sum, report}
use chronos_updates.Packaging.Making.{put, put_all, dist_files, found_at, copied}

-- No file has the name.
abbrev pub absent : Name → List Packed → Bool
absent n [] = true
absent n (p ∷ ps) = not (same_codes p.name n) && absent n ps

-- No two files have the same name.
abbrev pub distinct : List Packed → Bool
distinct [] = true
distinct (p ∷ ps) = absent p.name ps && distinct ps

module _ (md5 : Md5sum) where
  -- Whether what is found at a file's name has another digest.
  abbrev differs : Packed → Option File → Bool
  differs p o = elim o [
    | none ↦ false
    | some f ↦ not (same_codes (md5.digest f) (md5.digest p.content))
  ]

  -- What the check says of these files, listed and then unpacked.
  abbrev checked : List Packed → List (List ℕ)
  checked files =
      report md5 (update_md5sum md5 files) (found_at md5 (update_md5sum md5 files) files)

  packed_files : (String → File) → File → List Packed → List Packed
  packed_files source archive files =
      put (record { name = codes "camUpdate/update.tgz"; content = archive })
        (put_all (map (copied source) dist_files) files)
