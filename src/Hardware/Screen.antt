-- ===== src/Hardware/Screen.antt =====
-- How long scripts/hwsetup.sh waits for the screen, and what it does.
use chronos_updates.Common.{
  ℕ, zero, suc, ◌+◌, ◌≤◌, ◌<◌, ◌≡◌, refl, ◌∙◌, Bool, true, false, [], ◌∷◌, ◌++◌, arith,
  if◌then◌else◌, leb, leb_iff, Bool-cases, inl, inr,
}
use chronos_updates.Hardware.{
  start, videos, video_setup, fbset, writes, await_screen, timeout, sleeps, hwsetup, hwsetup_pins,
}

-- /dev/fb0 is there from the mth test on, and not before.
abbrev AppearsAt : (ℕ → Bool) → ℕ → Type 0
AppearsAt found m = ((k : ℕ) → k < m → found k ≡ false) × ((k : ℕ) → m ≤ k → found k ≡ true)

abbrev least : ℕ → ℕ → ℕ
least m n = if leb m n then m else n

await_screen-rounds :
    (found : ℕ → Bool) (d n t : ℕ)
    → ((k : ℕ) → n ≤ k → k < n + d → found k ≡ false)
    → ((k : ℕ) → k ≡ n + d → found k ≡ true)
    → await_screen found n t ≡ least d t
unfolding await_screen
await_screen-rounds found d n zero before after = ground arith
await_screen-rounds found zero n (suc t) before after = rw (after n (omega arith)) (ground arith)
await_screen-rounds found (suc d) n (suc t) before after =
    let more =
      await_screen-rounds found d (n + 1) t (λ k a b. before k (omega arith) (omega arith))
        (λ k e. after k (omega arith)) in
    rw (before n (omega arith) (omega arith), more) (ground arith)

found-at : (found : ℕ → Bool) (m : ℕ) → AppearsAt found m → (k : ℕ) → found k ≡ leb m k
found-at found m a k = elim (Bool-cases (leb m k)) [
  | inl e ↦ rw e (a.1 k ((leb_iff m k).0 e))
  | inr e ↦ rw e (a.0 k (ground (arith, e)))
]

-- If /dev/fb0 is there from the mth test for it on, counted from 0, then `hwsetup.sh start` loads and
-- sets up the video devices, sleeps m times, but not more than ten times, calls fbset if m is at most 11 and does not if it is more,
-- and in either case goes on to the pins and exits with 0.
pub hwsetup-screen :
    (found : ℕ → Bool) (m : ℕ)
    → AppearsAt found m
    → hwsetup start found ≡ (
      0,
      videos video_setup
          ++ (sleeps (least m 10)
              ++ ((if leb m 11 then fbset ∷ [] else []) ++ writes hwsetup_pins)),
    )
unfolding hwsetup
hwsetup-screen found m a =
    let rounds : await_screen found 0 timeout ≡ least m 10 =
      await_screen-rounds found m 0 10 (λ k b c. a.0 k (omega arith))
        (λ k e. a.1 k (omega arith)) in
    let last : found (least m 10 + 1) ≡ leb m 11 =
      found-at found m a (least m 10 + 1) ∙ ground arith in
    rw (rounds, last) refl
