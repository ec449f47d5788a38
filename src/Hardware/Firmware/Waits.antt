-- ===== src/Hardware/Firmware/Waits.antt =====
-- When load-hd-firmware.sh comes to its end, and what it has done then.
use chronos_updates.Common.{
  ℕ, zero, suc, ◌+◌, ◌≤◌, ◌<◌, ◌≡◌, refl, sym, subst, Bool, true, false, Option, none, some, List,
  [], ◌∷◌, ◌++◌, ◌>>=◌, arith, replicate,
}
use chronos_updates.Hardware.Video.{modprobe, ti81xxhdmi}
use chronos_updates.Hardware.Firmware.{
  Action, video, sleep_half, fbset, start, await, lcd_writes, configure_lcd, before_ipc, firmwares,
  load_hd_firmware,
}

-- The test fails the first `m` times, and then succeeds.
abbrev pub FirstAt : (ℕ → Bool) → ℕ → Type 0
FirstAt found m = ((k : ℕ) → k < m → found k ≡ false) × (found m ≡ true)

await-rounds :
    (found : ℕ → Bool) (d fuel n : ℕ)
    → d < fuel
    → ((k : ℕ) → n ≤ k → k < n + d → found k ≡ false)
    → ((k : ℕ) → k ≡ n + d → found k ≡ true)
    → await found fuel n ≡ some (replicate d sleep_half)
unfolding await
await-rounds found d zero n h before at_end = absurd (omega (arith, h))
await-rounds found zero (suc fuel) n h before at_end = rw (at_end n (omega arith)) refl
await-rounds found (suc d) (suc fuel) n h before at_end =
    let more =
      await-rounds found d fuel (n + 1) (omega (arith, h))
        (λ k a b. before k (omega arith) (omega arith)) (λ k e. at_end k (omega arith)) in
    rw (before n (omega arith) (omega arith), more) refl

await-ends :
    (found : ℕ → Bool) (m fuel : ℕ)
    → m < fuel
    → FirstAt found m
    → await found fuel 0 ≡ some (replicate m sleep_half)
await-ends found m fuel h first =
    await-rounds found m fuel 0 h (λ k a b. first.0 k (omega (arith, b)))
      (λ k e. subst (λ j. found j ≡ true) (omega (arith, sym e)) first.1)

await-never :
    (found : ℕ → Bool) (fuel n : ℕ) → ((k : ℕ) → found k ≡ false) → await found fuel n ≡ none
unfolding await
await-never found zero n h = refl
await-never found (suc fuel) n h = rw (h n, await-never found fuel (n + 1) h) refl

-- What `start` has done when it ends, after `a` rounds of the first loop and `b` of the second.
abbrev pub started_trace : ℕ → ℕ → List Action
started_trace a b =
    before_ipc
    ++ (replicate a sleep_half
        ++ (firmwares
            ++ ((lcd_writes ++ (replicate b sleep_half ++ (fbset ∷ [])))
                ++ (video (modprobe ti81xxhdmi "") ∷ []))))

pub start-ends :
    (ipc fb0 : ℕ → Bool) (a b fuel : ℕ)
    → a < fuel
    → b < fuel
    → FirstAt ipc a
    → FirstAt fb0 b
    → load_hd_firmware start ipc fb0 fuel ≡ some (0, started_trace a b)
unfolding load_hd_firmware configure_lcd
start-ends ipc fb0 a b fuel h k first second =
    rw (await-ends ipc a fuel h first, await-ends fb0 b fuel k second) refl

bind-none : (o : Option (List Action)) → ◌>>=◌ {B = ℕ × List Action} o (λ w. none) ≡ none
bind-none none = refl
bind-none (some w) = refl

start-hangs :
    (ipc fb0 : ℕ → Bool) (fuel : ℕ)
    → ((k : ℕ) → fb0 k ≡ false)
    → load_hd_firmware start ipc fb0 fuel ≡ none
unfolding load_hd_firmware configure_lcd
start-hangs ipc fb0 fuel h = rw (await-never fb0 fuel 0 h) (bind-none (await ipc fuel 0))
