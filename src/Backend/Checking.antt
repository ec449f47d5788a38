-- ===== src/Backend/Checking.antt =====
-- How often update-to-debian/update_backend.sh checks the files of the drive.
use chronos_updates.Common.{
  ℕ, zero, suc, ◌+◌, ◌≡◌, refl, ap, ◌∙◌, Bool, true, false, not, ◌&&◌, ◌||◌, Option, none, some,
  List, [], ◌∷◌, ◌++◌, map, arith, length, keep, keep-append, length-append, if◌then◌else◌,
  Bool-cases, inl, inr,
}
use chronos_updates.Backend.{
  Card, Output, usb_check_start, usb_check_done, sum_line, Tick, report_card, check_files,
  is_syscheck, is_start, await_start,
}

abbrev is_check : Output → Bool
is_check usb_check_start = true
is_check _ = false

-- How often the files are checked.
abbrev checks : List Output → ℕ
checks os = length (keep is_check os)

-- Whether `Syscheck` comes, and not after `Start`.
abbrev pub asked : List Tick → Bool
asked [] = false
asked (t ∷ ts) = is_syscheck t || (not (is_start t) && asked ts)

checks-append : (k l : List Output) → checks (k ++ l) ≡ checks k + checks l
checks-append k l =
    rw (keep-append is_check k l) (length-append (keep is_check k) (keep is_check l))

report_card-checks : (c : Option Card) → checks (report_card c) ≡ 0
unfolding report_card
report_card-checks none = refl
report_card-checks (some c) = ground arith

sums-checks : (sums : List (List ℕ)) → keep is_check (map sum_line sums) ≡ []
sums-checks [] = refl
sums-checks (l ∷ sums) = sums-checks sums

check_files-checks :
    (checked : Bool) (sums : List (List ℕ))
    → checks (check_files checked sums) ≡ (if checked then 0 else 1)
unfolding check_files
check_files-checks true sums = refl
check_files-checks false sums =
    ap suc (checks-append (map sum_line sums) (usb_check_done ∷ []) ∙ rw (sums-checks sums) refl)

now-checks :
    (checked : Bool) (t : Tick)
    → checks (report_card t.card ++ check_files checked t.sums) ≡ (if checked then 0 else 1)
now-checks checked t = omega (
  arith,
  checks-append (report_card t.card) (check_files checked t.sums),
  report_card-checks t.card,
  check_files-checks checked t.sums,
)

await_start-checks_from :
    (checked : Bool) (ts : List Tick)
    → checks (await_start checked ts).0 ≡ (if checked then 0 else if asked ts then 1 else 0)
unfolding await_start
await_start-checks_from true [] = refl
await_start-checks_from false [] = refl
await_start-checks_from checked (t ∷ ts) = elim (Bool-cases (is_syscheck t)) [
  | inl a ↦ elim (Bool-cases (is_start t)) [
    | inl b ↦ rw (a, b) (now-checks checked t)
    | inr b ↦
        rw (a, b)
          (omega (
            arith,
            checks-append (report_card t.card ++ check_files checked t.sums)
                (await_start true ts).0,
            now-checks checked t,
            await_start-checks_from true ts,
          ))
  ]
  | inr a ↦ elim (Bool-cases (is_start t)) [
    | inl b ↦ rw (a, b) (nothing checked)
    | inr b ↦ rw (a, b) (await_start-checks_from checked ts)
  ]
]
  where
    nothing : (checked : Bool) → zero ≡ (if checked then zero else zero)
    nothing true = refl
    nothing false = refl

-- The files of the drive are checked once if `Syscheck` comes before `Start`, however often it
-- comes, and not at all otherwise.
await_start-checks :
    (ts : List Tick) → checks (await_start false ts).0 ≡ (if asked ts then 1 else 0)
await_start-checks ts = await_start-checks_from false ts
