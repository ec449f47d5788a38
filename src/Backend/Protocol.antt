-- ===== src/Backend/Protocol.antt =====
-- The order in which update-to-debian/update_backend.sh may act, as a relation between phases, and
-- that every run of the script keeps to it.
use chronos_updates.Common.{
  ℕ, zero, suc, ◌<◌, ◌≡◌, refl, Bool, true, false, Option, none, some, List, [], ◌∷◌, ◌++◌, map,
  codes, same_codes, replicate, if◌then◌else◌, Bool-cases, inl, inr, ◌>>=◌,
}
use chronos_updates.Backend.{
  Card, Output, program_run_from_top_sd, top_sd_missing, top_sd_too_small, top_sd_good,
  top_sd_vetted_brand, top_sd_unknown_brand, usb_check_start, usb_check_done, sum_line,
  unmount_card, stop_camshutdown, stop_pc_util, flash_pmic, quit_pmic, start_writing, signal_writer,
  write_done, power_off, Tick, report_card, is_too_small, check_files, is_syscheck, is_start,
  await_start, pmic_is_old, update_pmic, await_power_down, Found, write_card, greeting, backend,
}
use chronos_updates.Backend.Writing.{after_start, EndsAt, await_writer-rounds, await_start-rest}

-- Where an update is.
pub data Phase : Type 0 where
  talking unmounted daemons_stopped tool_stopped flashed ready writing written off : Phase

-- What may happen in a phase, and the phase after it.
pub data Step : Phase → Output → Phase → Type 0 where
  -- Before `Start` the script only reports.
  greet : Step talking program_run_from_top_sd talking
  missing : Step talking top_sd_missing talking
  too_small : Step talking top_sd_too_small talking
  large_enough : Step talking top_sd_good talking
  vetted : Step talking top_sd_vetted_brand talking
  unknown : Step talking top_sd_unknown_brand talking
  check : Step talking usb_check_start talking
  sum : (l : List ℕ) → Step talking (sum_line l) talking
  check_done : Step talking usb_check_done talking
  -- The power controller is written between the unmounting and the writing, after its daemons.
  unmount : Step talking unmount_card unmounted
  stop_daemon : Step unmounted stop_camshutdown daemons_stopped
  stop_tool : Step daemons_stopped stop_pc_util tool_stopped
  flash : Step tool_stopped flash_pmic flashed
  quit : Step flashed quit_pmic ready
  -- The card is written once it is unmounted, and reported when the writer is gone.
  write_at_once : Step unmounted start_writing writing
  write_after_stop : Step tool_stopped start_writing writing
  write_after_flash : Step ready start_writing writing
  signal : Step writing signal_writer writing
  finish : Step writing write_done written
  switch_off : Step written power_off off

-- Runs from a phase to a phase.
pub data Run : Phase → List Output → Phase → Type 0 where
  here : {p : Phase} → Run p [] p
  step :
      {p q r : Phase} {o : Output} {os : List Output} → Step p o q → Run q os r → Run p (o ∷ os) r

Run-append : {p q r : Phase} {k l : List Output} → Run p k q → Run q l r → Run p (k ++ l) r
Run-append here s = s
Run-append (step a r) s = step a (Run-append r s)

report_card-Run : (c : Option Card) → Run talking (report_card c) talking
unfolding report_card
report_card-Run none = step missing here
report_card-Run (some c) = elim (Bool-cases (is_too_small c.blocks)) [
  | inl a ↦ elim (Bool-cases (same_codes c.oemid (codes "0x5344"))) [
    | inl b ↦ rw (a, b) (step too_small (step vetted here))
    | inr b ↦ rw (a, b) (step too_small (step unknown here))
  ]
  | inr a ↦ elim (Bool-cases (same_codes c.oemid (codes "0x5344"))) [
    | inl b ↦ rw (a, b) (step large_enough (step vetted here))
    | inr b ↦ rw (a, b) (step large_enough (step unknown here))
  ]
]

sums-Run : (sums : List (List ℕ)) → Run talking (map sum_line sums) talking
sums-Run [] = here
sums-Run (l ∷ sums) = step (sum l) (sums-Run sums)

check_files-Run :
    (checked : Bool) (sums : List (List ℕ)) → Run talking (check_files checked sums) talking
unfolding check_files
check_files-Run true sums = here
check_files-Run false sums = step check (Run-append (sums-Run sums) (step check_done here))

now-Run :
    (checked : Bool) (t : Tick)
    → Run talking (report_card t.card ++ check_files checked t.sums) talking
now-Run checked t = Run-append (report_card-Run t.card) (check_files-Run checked t.sums)

await_start-Run : (checked : Bool) (ts : List Tick) → Run talking (await_start checked ts).0 talking
unfolding await_start
await_start-Run checked [] = here
await_start-Run checked (t ∷ ts) = elim (Bool-cases (is_syscheck t)) [
  | inl a ↦ elim (Bool-cases (is_start t)) [
    | inl b ↦ rw (a, b) (now-Run checked t)
    | inr b ↦ rw (a, b) (Run-append (now-Run checked t) (await_start-Run true ts))
  ]
  | inr a ↦ elim (Bool-cases (is_start t)) [
    | inl b ↦ rw (a, b) here
    | inr b ↦ rw (a, b) (await_start-Run checked ts)
  ]
]

greeting-Run : (f : Found) → Run talking (greeting f) talking
unfolding greeting
greeting-Run f = elim (Bool-cases f.run_from_top_sd) [
  | inl e ↦ rw e (step greet here)
  | inr e ↦ rw e here
]

-- From the unmounting to the start of dd.
update_pmic-Run :
    (file : Bool) (version : Option ℕ) {os : List Output} {q : Phase}
    → Run writing os q
    → Run unmounted (update_pmic file version ++ (start_writing ∷ os)) q
unfolding update_pmic
update_pmic-Run false version r = step write_at_once r
update_pmic-Run true version r = elim (Bool-cases (pmic_is_old version)) [
  | inl e ↦
      rw e (step stop_daemon (step stop_tool (step flash (step quit (step write_after_flash r)))))
  | inr e ↦ rw e (step stop_daemon (step stop_tool (step write_after_stop r)))
]

signals-Run : (n : ℕ) → Run writing (replicate n signal_writer) writing
signals-Run zero = here
signals-Run (suc n) = step signal (signals-Run n)

abbrev phase_when : Bool → Phase
phase_when b = if b then off else written

-- The phase in which the ticks leave the script.
abbrev pub phase_after : List Tick → Phase
phase_after ts = elim (after_start ts) [
  | none ↦ talking
  | some rest ↦ phase_when (await_power_down rest)
]

last-Run : (b : Bool) → Run written (if b then power_off ∷ [] else []) (phase_when b)
last-Run true = step switch_off here
last-Run false = here

write_card-Run :
    (f : Found) (m fuel : ℕ) (ts : List Tick)
    → m < fuel
    → EndsAt f.writing m
    → (trace : List Output) × (write_card f fuel ts ≡ some trace)
      × Run talking trace (phase_when (await_power_down ts))
unfolding write_card
write_card-Run f m fuel ts h ends =
    let last = if await_power_down ts then power_off ∷ [] else [] in
    let signals = replicate (suc m) signal_writer in
    (
      unmount_card
          ∷ (update_pmic f.pmic_file f.pmic_version
              ++ (start_writing ∷ (signals ++ (write_done ∷ last)))),
      rw (await_writer-rounds f.writing m fuel h ends, ◌>>=◌) refl,
      step unmount (
          update_pmic-Run f.pmic_file f.pmic_version
            (Run-append (signals-Run (suc m)) (step finish (last-Run (await_power_down ts))))),
    )

started-Run :
    (f : Found) (m fuel : ℕ) (printed : List Output)
    → Run talking printed talking
    → m < fuel
    → EndsAt f.writing m
    → (started : Option (List Tick))
    → (trace : List Output) × (elim started [
      | none ↦ some printed
      | some rest ↦ write_card f fuel rest >>= λ w. some (printed ++ w)
    ]
        ≡ some trace)
      × Run talking trace
          (elim started [ none ↦ talking | some rest ↦ phase_when (await_power_down rest) ])
started-Run f m fuel printed r h ends none = (printed, refl, r)
started-Run f m fuel printed r h ends (some rest) =
    let (w, runs, s) = write_card-Run f m fuel rest h ends in
    (printed ++ w, rw (runs, ◌>>=◌) refl, Run-append r s)

-- If the first `m` signals reach dd and the next one does not, then with more than `m` rounds of
-- fuel the script returns, what it did is a run of the protocol, and the run ends in the phase that
-- the ticks determine: talking until `Start` comes, then switched off if `PowerDown` comes after it
-- and with the card written if it does not.
pub backend-refines :
    (f : Found) (m fuel : ℕ) (ts : List Tick)
    → m < fuel
    → EndsAt f.writing m
    → (trace : List Output) × (backend f fuel ts ≡ some trace) × Run talking trace (phase_after ts)
unfolding backend
backend-refines f m fuel ts h ends =
    rw (← await_start-rest false ts, phase_after)
      (started-Run f m fuel (greeting f ++ (await_start false ts).0)
        (Run-append (greeting-Run f) (await_start-Run false ts)) h ends (await_start false ts).1)
