-- ===== src/Backend/Writing.antt =====
-- When update-to-debian/update_backend.sh writes to the card.
use chronos_updates.Common.{
  ℕ, zero, suc, ◌+◌, ◌≤◌, ◌<◌, ◌≡◌, refl, ap, ap₂, ◌∙◌, subst, Bool, true, false, ◌&&◌, Option,
  none, some, List, [], ◌∷◌, ◌++◌, map, arith, keep, keep-append, replicate, if◌then◌else◌,
  Bool-cases, inl, inr, ◌>>=◌,
}
use chronos_updates.Backend.{
  Card, Output, unmount_card, flash_pmic, start_writing, signal_writer, write_done, power_off,
  sum_line, usb_check_done, Tick, report_card, check_files, is_syscheck, is_start, await_start,
  pmic_is_old, update_pmic, await_writer, await_power_down, Found, write_card, greeting, backend,
}

-- What is done to the card and the camera, and `WriteDone`.
abbrev pub is_step : Output → Bool
is_step unmount_card = true
is_step flash_pmic = true
is_step start_writing = true
is_step signal_writer = true
is_step write_done = true
is_step power_off = true
is_step _ = false

-- The ticks after the first `Start`.
abbrev pub after_start : List Tick → Option (List Tick)
after_start [] = none
after_start (t ∷ ts) = let more = after_start ts in if is_start t then some ts else more

-- A dd that the first `m` signals reach, and not the next one.
abbrev pub EndsAt : (ℕ → Bool) → ℕ → Type 0
EndsAt running m = ((k : ℕ) → k < m → running k ≡ true) × (running m ≡ false)

abbrev pub steps_after : Found → ℕ → List Tick → List Output
steps_after f m ts =
    unmount_card
    ∷ ((if f.pmic_file && pmic_is_old f.pmic_version then flash_pmic ∷ [] else [])
        ++ (start_writing
            ∷ (replicate (suc m) signal_writer
                ++ (write_done ∷ (if await_power_down ts then power_off ∷ [] else [])))))

signals-keep : (n : ℕ) → keep is_step (replicate n signal_writer) ≡ replicate n signal_writer
signals-keep zero = refl
signals-keep (suc n) = ap (λ l. signal_writer ∷ l) (signals-keep n)

await_writer-from :
    (running : ℕ → Bool) (i fuel n : ℕ)
    → i < fuel
    → ((k : ℕ) → n ≤ k → k < n + i → running k ≡ true)
    → ((k : ℕ) → k ≡ n + i → running k ≡ false)
    → await_writer running fuel n ≡ some (n + i)
unfolding await_writer
await_writer-from running i zero n h on off = absurd (omega arith)
await_writer-from running zero (suc fuel) n h on off =
    let e : n + zero ≡ n = omega arith in rw (off n (omega arith), e) refl
await_writer-from running (suc i) (suc fuel) n h on off =
    let e : n + suc i ≡ n + 1 + i = omega arith in
    rw
      (
        on n (omega arith) (omega arith),
        e,
        await_writer-from running i fuel (n + 1) (omega arith)
            (λ k a b. on k (omega arith) (omega arith)) (λ k q. off k (omega arith)),
      )
      refl

-- The rounds of the loop that signals dd.
pub await_writer-rounds :
    (running : ℕ → Bool) (m fuel : ℕ)
    → m < fuel
    → EndsAt running m
    → await_writer running fuel 0 ≡ some m
await_writer-rounds running m fuel h ends =
    await_writer-from running m fuel 0 h (λ k a b. ends.0 k (omega arith))
      (λ k e. subst (λ j. running j ≡ false) (omega arith) ends.1)
    ∙ ap some (omega arith)

pub await_start-rest :
    (checked : Bool) (ts : List Tick) → (await_start checked ts).1 ≡ after_start ts
unfolding await_start
await_start-rest checked [] = refl
await_start-rest checked (t ∷ ts) = elim (Bool-cases (is_start t)) [
  | inl b ↦ rw b refl
  | inr b ↦ rw b (await_start-rest (if is_syscheck t then true else checked) ts)
]

report_card-steps : (c : Option Card) → keep is_step (report_card c) ≡ []
unfolding report_card
report_card-steps none = refl
report_card-steps (some c) = ground arith

sums-steps : (sums : List (List ℕ)) → keep is_step (map sum_line sums) ≡ []
sums-steps [] = refl
sums-steps (l ∷ sums) = sums-steps sums

check_files-steps :
    (checked : Bool) (sums : List (List ℕ)) → keep is_step (check_files checked sums) ≡ []
unfolding check_files
check_files-steps true sums = refl
check_files-steps false sums =
    keep-append is_step (map sum_line sums) (usb_check_done ∷ []) ∙ rw (sums-steps sums) refl

now-steps :
    (checked : Bool) (t : Tick)
    → keep is_step (report_card t.card ++ check_files checked t.sums) ≡ []
now-steps checked t =
    keep-append is_step (report_card t.card) (check_files checked t.sums)
    ∙ rw (report_card-steps t.card) (check_files-steps checked t.sums)

await_start-steps : (checked : Bool) (ts : List Tick) → keep is_step (await_start checked ts).0 ≡ []
unfolding await_start
await_start-steps checked [] = refl
await_start-steps checked (t ∷ ts) = elim (Bool-cases (is_syscheck t)) [
  | inl a ↦ elim (Bool-cases (is_start t)) [
    | inl b ↦ rw (a, b) (now-steps checked t)
    | inr b ↦
        rw (a, b)
          (keep-append is_step (report_card t.card ++ check_files checked t.sums)
              (await_start true ts).0
            ∙ rw (now-steps checked t) (await_start-steps true ts))
  ]
  | inr a ↦ elim (Bool-cases (is_start t)) [
    | inl b ↦ rw (a, b) refl
    | inr b ↦ rw (a, b) (await_start-steps checked ts)
  ]
]

pmic-steps :
    (file : Bool) (version : Option ℕ)
    → keep is_step (update_pmic file version)
      ≡ (if file && pmic_is_old version then flash_pmic ∷ [] else [])
unfolding update_pmic
pmic-steps false version = refl
pmic-steps true version = elim (Bool-cases (pmic_is_old version)) [
  | inl e ↦ rw e refl
  | inr e ↦ rw e refl
]

power_off-steps :
    (b : Bool)
    → keep is_step (write_done ∷ (if b then power_off ∷ [] else []))
      ≡ write_done ∷ (if b then power_off ∷ [] else [])
power_off-steps true = refl
power_off-steps false = refl

write_card-steps :
    (f : Found) (m fuel : ℕ) (ts : List Tick)
    → m < fuel
    → EndsAt f.writing m
    → (trace : List Output) × (write_card f fuel ts ≡ some trace)
      × (keep is_step trace ≡ steps_after f m ts)
unfolding write_card
write_card-steps f m fuel ts h ends =
    let signals = replicate (suc m) signal_writer in
    let last = write_done ∷ (if await_power_down ts then power_off ∷ [] else []) in
    (
      unmount_card
          ∷ (update_pmic f.pmic_file f.pmic_version ++ (start_writing ∷ (signals ++ last))),
      rw (await_writer-rounds f.writing m fuel h ends, ◌>>=◌) refl,
      ap (λ l. unmount_card ∷ l)
          (keep-append is_step (update_pmic f.pmic_file f.pmic_version)
              (start_writing ∷ (signals ++ last))
            ∙ ap₂ ◌++◌ (pmic-steps f.pmic_file f.pmic_version) (
                ap (λ l. start_writing ∷ l)
                  (keep-append is_step signals last
                    ∙ ap₂ ◌++◌ (signals-keep (suc m)) (power_off-steps (await_power_down ts))))),
    )

finish-steps :
    (f : Found) (m fuel : ℕ) (printed : List Output)
    → keep is_step printed ≡ []
    → m < fuel
    → EndsAt f.writing m
    → (started : Option (List Tick))
    → (trace : List Output) × (elim started [
      | none ↦ some printed
      | some rest ↦ write_card f fuel rest >>= λ written. some (printed ++ written)
    ]
        ≡ some trace)
      × (keep is_step trace ≡ elim started [ none ↦ [] | some rest ↦ steps_after f m rest ])
finish-steps f m fuel printed e h ends none = (printed, refl, e)
finish-steps f m fuel printed e h ends (some rest) =
    let (written, runs, steps) = write_card-steps f m fuel rest h ends in
    (printed ++ written, rw (runs, ◌>>=◌) refl, keep-append is_step printed written ∙ rw e steps)

greeting-steps : (f : Found) → keep is_step (greeting f) ≡ []
unfolding greeting
greeting-steps f = elim (Bool-cases f.run_from_top_sd) [ inl e ↦ rw e refl | inr e ↦ rw e refl ]

-- If the first `m` signals reach dd and the next one does not, then with more than `m` rounds of
-- fuel the script does nothing to the card or the camera until `Start` comes, whatever the ticks.
-- Then it unmounts the card, writes the power controller exactly if its file is there and its
-- version is a number below 7, starts dd, sends `m + 1` signals, the last of which finds no dd, says
-- `WriteDone`, and switches off if `PowerDown` comes.
pub backend-steps :
    (f : Found) (m fuel : ℕ) (ts : List Tick)
    → m < fuel
    → EndsAt f.writing m
    → (trace : List Output) × (backend f fuel ts ≡ some trace)
      × (keep is_step trace
          ≡ elim (after_start ts) [ none ↦ [] | some rest ↦ steps_after f m rest ])
unfolding backend
backend-steps f m fuel ts h ends = rw (← await_start-rest false ts) (
    finish-steps f m fuel (greeting f ++ (await_start false ts).0)
      (keep-append is_step (greeting f) (await_start false ts).0
        ∙ rw (greeting-steps f) (await_start-steps false ts))
      h ends (await_start false ts).1)
