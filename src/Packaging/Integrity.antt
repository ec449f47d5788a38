-- ===== src/Packaging/Integrity.antt =====
-- Which packages update_real.sh installs.
use chronos_updates.Common.{
  ℕ, ◌≡◌, ◌<◌, refl, ap, ◌∙◌, Bool, true, false, not, Option, none, some, List, [], ◌∷◌, ◌++◌, map,
  any, arith, length, codes, same_codes, if◌then◌else◌, Bool-cases, inl, inr,
}
use chronos_updates.Image.{File}
use chronos_updates.Update.{Found, Action, ends_with, any_failed, bad_sums, reboot, update}
use chronos_updates.Update.Sums.{ends_with-append, ends_with-front}
use chronos_updates.Update.Outcome.{EndsAt, milestones, installed, update-changes}
use chronos_updates.Packaging.{Name, Packed, verdict, Md5sum, update_md5sum, report}

-- A file that is there, with another digest than the one of the package.
abbrev pub altered : Md5sum → (Name → Option File) → Packed → Bool
altered md5 there p = elim (there p.name) [
  | none ↦ false
  | some f ↦ not (same_codes (md5.digest f) (md5.digest p.content))
]

last_code : List ℕ → ℕ
last_code [] = 0
last_code (c ∷ []) = c
last_code (c ∷ d ∷ cs) = last_code (d ∷ cs)

last_code-append : (a b : List ℕ) → 0 < length b → last_code (a ++ b) ≡ last_code b
unfolding last_code
last_code-append [] b h = refl
last_code-append (c ∷ []) [] h = absurd (omega arith)
last_code-append (c ∷ []) (d ∷ b) h = refl
last_code-append (c ∷ d ∷ a) b h = last_code-append (d ∷ a) b h

ok_passes : (name : Name) → ends_with (codes "FAILED") (name ++ codes ": OK") ≡ false
unfolding last_code
ok_passes name = elim (Bool-cases (ends_with (codes "FAILED") (name ++ codes ": OK"))) [
  | inl e ↦
      let (b, q) = ends_with-front (codes "FAILED") (name ++ codes ": OK") e in
      absurd (
        omega (
          arith,
          ap last_code q,
          last_code-append name (codes ": OK") (omega arith),
          last_code-append b (codes "FAILED") (omega arith),
        ))
  | inr e ↦ e
]

verdict-failed :
    (md5 : Md5sum) (there : Name → Option File) (p : Packed)
    → ends_with (codes "FAILED") (verdict md5.digest there p) ≡ altered md5 there p
unfolding ends_with
verdict-failed md5 there p = go (there p.name)
  where
    compared :
        (b : Bool)
        → ends_with (codes "FAILED") (p.name ++ (if b then codes ": OK" else codes ": FAILED"))
          ≡ not b
    compared true = ok_passes p.name
    compared false = ends_with-append (codes "FAILED") p.name (codes ": FAILED") (omega arith)

    go :
        (o : Option File)
        → ends_with (codes "FAILED") (elim o [
          | none ↦ p.name ++ codes ": FAILED open or read"
          | some f ↦
              p.name
              ++ (if same_codes (md5.digest f) (md5.digest p.content)
                  then codes ": OK"
                  else codes ": FAILED")
        ])
          ≡ elim o [
            | none ↦ false
            | some f ↦ not (same_codes (md5.digest f) (md5.digest p.content))
          ]
    go none = ends_with-append (codes "FAILED") p.name (codes ": FAILED open or read") (omega arith)
    go (some f) = compared (same_codes (md5.digest f) (md5.digest p.content))

failed-altered :
    (md5 : Md5sum) (there : Name → Option File) (files : List Packed)
    → any_failed (map (verdict md5.digest there) files) ≡ any (altered md5 there) files
unfolding any_failed
failed-altered md5 there [] = refl
failed-altered md5 there (p ∷ files) =
    rw (verdict-failed md5 there p, failed-altered md5 there files) refl

pub report-altered :
    (md5 : Md5sum) (there : Name → Option File) (files : List Packed)
    → any_failed (report md5 (update_md5sum md5 files) there) ≡ any (altered md5 there) files
unfolding report update_md5sum
report-altered md5 there files =
    ap any_failed (md5.check-list files there) ∙ failed-altered md5 there files

bad_sums-altered :
    (md5 : Md5sum) (there : Name → Option File) (files : List Packed) (f : Found)
    → f.sums ≡ some (report md5 (update_md5sum md5 files) there)
    → bad_sums f ≡ any (altered md5 there) files
unfolding bad_sums
bad_sums-altered md5 there files f e = rw (e, bad_sums) (report-altered md5 there files)

-- Let the checksums on the drive be those that the Makefile wrote of the package's files, and
-- camApp be listed the first `m` times and then not. With more than `m` rounds of fuel the script
-- comes to its end, and it only reboots if one of the files is there with another digest than the
-- packed one. Otherwise it installs, though files may be missing: it deletes /boot, extracts the
-- files, copies the boot components, writes the power controller if its file is there and its
-- version is a number below 7, and reboots.
pub package-changes :
    (md5 : Md5sum) (there : Name → Option File) (files : List Packed) (f : Found) (m fuel : ℕ)
    → f.sums ≡ some (report md5 (update_md5sum md5 files) there)
    → m < fuel
    → EndsAt f.app_listed m
    → (trace : List Action) × (update f fuel ≡ some trace)
      × (milestones trace ≡ (if any (altered md5 there) files then reboot ∷ [] else installed f))
package-changes md5 there files f m fuel e h ends =
    let (trace, runs, done) = update-changes f m fuel h ends in
    (
      trace,
      runs,
      done
          ∙ ap (λ b. if b then reboot ∷ [] else installed f) (bad_sums-altered md5 there files f e),
    )
