-- ===== src/Update/Waiting.antt =====
-- The loop that waits for camApp to end.
use chronos_updates.Common.{
  ℕ, zero, suc, ◌+◌, ◌-◌, ◌≤◌, ◌<◌, ◌≡◌, refl, ap, ◌∙◌, subst, Bool, true, false, some, List, [],
  ◌∷◌, ◌++◌, arith, min, replicate, ◌>>=◌, ltb,
}
use chronos_updates.Update.{Action, sleep_tenth, kill_app, wait_for_app, timeout}

-- The actions of `i` rounds, `t` of them within the timeout.
rounds : ℕ → ℕ → List Action
rounds zero t = []
rounds (suc i) zero = kill_app ∷ rounds i zero
rounds (suc i) (suc t) = sleep_tenth ∷ rounds i t

rounds-kill : (i : ℕ) → rounds i zero ≡ replicate i kill_app
unfolding rounds
rounds-kill zero = refl
rounds-kill (suc i) = ap (λ l. kill_app ∷ l) (rounds-kill i)

rounds-replicate :
    (i t : ℕ) → rounds i t ≡ replicate (min i t) sleep_tenth ++ replicate (i - t) kill_app
unfolding rounds
rounds-replicate zero t =
    let e : zero - t ≡ zero = omega arith in
    let o : min zero t ≡ zero = omega arith in rw (e, o) refl
rounds-replicate (suc i) zero =
    let e : suc i - zero ≡ suc i = omega arith in
    let o : min (suc i) zero ≡ zero = omega arith in
    rw (e, o) (ap (λ l. kill_app ∷ l) (rounds-kill i))
rounds-replicate (suc i) (suc t) =
    let e : suc i - suc t ≡ i - t = omega arith in
    let o : min (suc i) (suc t) ≡ suc (min i t) = omega arith in
    rw (e, o) (ap (λ l. sleep_tenth ∷ l) (rounds-replicate i t))

round_off :
    (listed : ℕ → Bool) (fuel t n : ℕ)
    → listed n ≡ false
    → wait_for_app listed (suc fuel) t n ≡ some []
unfolding wait_for_app
round_off listed fuel t n h = rw h refl

round_kill :
    (listed : ℕ → Bool) (fuel n : ℕ) {more : List Action}
    → listed n ≡ true
    → wait_for_app listed fuel 0 (n + 1) ≡ some more
    → wait_for_app listed (suc fuel) 0 n ≡ some (kill_app ∷ more)
unfolding wait_for_app
round_kill listed fuel n h e = rw (h, e, ◌>>=◌) refl

round_sleep :
    (listed : ℕ → Bool) (fuel t n : ℕ) {more : List Action}
    → listed n ≡ true
    → wait_for_app listed fuel t (n + 1) ≡ some more
    → wait_for_app listed (suc fuel) (suc t) n ≡ some (sleep_tenth ∷ more)
unfolding wait_for_app
round_sleep listed fuel t n h e =
    let p : ltb 0 (suc t) ≡ true = ground arith in
    let q : suc t - 1 ≡ t = omega arith in rw (h, p, q, e, ◌>>=◌) refl

wait_for_app-ends :
    (listed : ℕ → Bool) (i fuel t n : ℕ)
    → i < fuel
    → ((k : ℕ) → n ≤ k → k < n + i → listed k ≡ true)
    → ((k : ℕ) → k ≡ n + i → listed k ≡ false)
    → wait_for_app listed fuel t n ≡ some (rounds i t)
unfolding rounds
wait_for_app-ends listed i zero t n h on off = absurd (omega arith)
wait_for_app-ends listed zero (suc fuel) t n h on off =
    round_off listed fuel t n (off n (omega arith))
wait_for_app-ends listed (suc i) (suc fuel) zero n h on off =
    round_kill listed fuel n (on n (omega arith) (omega arith)) (
      wait_for_app-ends listed i fuel zero (n + 1) (omega arith)
        (λ k a b. on k (omega arith) (omega arith)) (λ k e. off k (omega arith)))
wait_for_app-ends listed (suc i) (suc fuel) (suc t) n h on off =
    round_sleep listed fuel t n (on n (omega arith) (omega arith)) (
      wait_for_app-ends listed i fuel t (n + 1) (omega arith)
        (λ k a b. on k (omega arith) (omega arith)) (λ k e. off k (omega arith)))

-- Where camApp is listed the first `m` times that the script looks, and not the next time, the
-- loop ends after `m` rounds: up to a hundred waits, then a forced kill in each.
pub wait_for_app-rounds :
    (listed : ℕ → Bool) (m fuel : ℕ)
    → m < fuel
    → ((k : ℕ) → k < m → listed k ≡ true)
    → listed m ≡ false
    → wait_for_app listed fuel timeout 0
      ≡ some (replicate (min m timeout) sleep_tenth ++ replicate (m - timeout) kill_app)
wait_for_app-rounds listed m fuel h on off =
    wait_for_app-ends listed m fuel timeout 0 h (λ k a b. on k (omega arith))
      (λ k e. subst (λ j. listed j ≡ false) (omega arith) off)
    ∙ ap some (rounds-replicate m timeout)
