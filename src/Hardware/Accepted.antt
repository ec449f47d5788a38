-- ===== src/Hardware/Accepted.antt =====
-- That no write of scripts/hwsetup.sh and rootfs/etc/init.d/vidorder to a pin's attribute is lost.
use chronos_updates.Common.{
  ℕ, ◌≡◌, refl, ap, ◌∙◌, Bool, true, false, not, ◌&&◌, ◌||◌, List, [], ◌∷◌, ◌==◌, ==_iff, any,
  if-true, if-false, either, both, not-true, Bool-cases, inl, inr, subst,
}
use chronos_updates.Hardware.{
  input, output, Write, export_pin, set_direction, set_value, set_edge, hwsetup_pins, vidorder_pins,
}
use chronos_updates.Hardware.Pins.{Pin, is_output, is_export, pin_of, accepts, change, put, apply}

-- Each write but an export is accepted in the state in which it comes.
abbrev all_accepted : List Write → (ℕ → Pin) → Bool
all_accepted [] s = true
all_accepted (w ∷ ws) s = (is_export w || accepts w (s (pin_of w))) && all_accepted ws (apply w s)

abbrev member : ℕ → List ℕ → Bool
member n l = any (λ m. m == n) l

-- Attributes come after the export, values after the direction; `ready` has been exported, and
-- `outputs` are outputs.
ordered : List ℕ → List ℕ → List Write → Bool
ordered ready outputs [] = true
ordered ready outputs (export_pin n ∷ ws) = ordered (n ∷ ready) outputs ws
ordered ready outputs (set_direction n output ∷ ws) =
    member n ready && ordered ready (n ∷ outputs) ws
ordered ready outputs (set_direction n input ∷ ws) =
    (member n ready && not (member n outputs)) && ordered ready outputs ws
ordered ready outputs (set_value n v ∷ ws) =
    (member n ready && member n outputs) && ordered ready outputs ws
ordered ready outputs (set_edge n e ∷ ws) = member n ready && ordered ready outputs ws

abbrev Tracks : List ℕ → List ℕ → (ℕ → Pin) → Type 0
Tracks ready outputs s =
    ((n : ℕ) → member n ready ≡ true → (s n).exported ≡ true)
    × ((n : ℕ) → member n outputs ≡ true → is_output (s n).direction ≡ true)

-- What a write does not take from a pin, no write to any pin takes from it.
apply-keeps :
    (P : Pin → Type 0) (w : Write) (s : ℕ → Pin) (n : ℕ)
    → (pin_of w ≡ n → P (change w (s n)))
    → P (s n)
    → P (apply w s n)
apply-keeps P w s n changed h = elim (Bool-cases (pin_of w == n)) [
  | inl e ↦ rw e (either P (accepts w (s n)) (changed ((==_iff (pin_of w) n).0 e)) h)
  | inr e ↦ rw e h
]

pub apply-exported :
    (w : Write) (s : ℕ → Pin) (n : ℕ) → (s n).exported ≡ true → (apply w s n).exported ≡ true
apply-exported w s n h = apply-keeps (λ p. p.exported ≡ true) w s n (λ e. kept w (s n) h) h
  where
    kept : (w : Write) (p : Pin) → p.exported ≡ true → (change w p).exported ≡ true
    kept (export_pin n) p h = refl
    kept (set_direction n d) p h = h
    kept (set_value n v) p h = h
    kept (set_edge n e) p h = h

-- The pin that is written.
pub apply-same :
    (w : Write) (s : ℕ → Pin) (n : ℕ) → (pin_of w == n) ≡ true → apply w s n ≡ put w (s n)
apply-same w s n e = rw e refl

pub export-exports : (n : ℕ) (p : Pin) → (put (export_pin n) p).exported ≡ true
export-exports n p = elim (Bool-cases p.exported) [
  | inl e ↦ ap (λ (q : Pin). q.exported) (if-false _ (ap not e)) ∙ e
  | inr e ↦ ap (λ (q : Pin). q.exported) (if-true _ (ap not e))
]

and-true : {a b : Bool} → a ≡ true → b ≡ true → (a && b) ≡ true
and-true e k = rw (e, k) refl

module _ (ready outputs : List ℕ) (s : ℕ → Pin) (t : Tracks ready outputs s) where
  ready-kept : (w : Write) (n : ℕ) → member n ready ≡ true → (apply w s n).exported ≡ true
  ready-kept w n m = apply-exported w s n (t.0 n m)

  -- By a write that leaves the directions.
  outputs-kept :
      (w : Write)
      → ((p : Pin) → (change w p).direction ≡ p.direction)
      → (n : ℕ) → member n outputs ≡ true
      → is_output (apply w s n).direction ≡ true
  outputs-kept w same n m =
      apply-keeps (λ p. is_output p.direction ≡ true) w s n
        (λ e. ap is_output (same (s n)) ∙ t.1 n m) (t.1 n m)

  Tracks-export : (n : ℕ) → Tracks (n ∷ ready) outputs (apply (export_pin n) s)
  Tracks-export n = (
    (λ k m. elim (Bool-cases (n == k)) [
      | inl e ↦
          ap (λ (q : Pin). q.exported) (apply-same (export_pin n) s k e) ∙ export-exports n (s k)
      | inr e ↦ ready-kept (export_pin n) k (rw e at m)
    ]),
    outputs-kept (export_pin n) (λ p. refl),
  )

  Tracks-output :
      (n : ℕ)
      → member n ready ≡ true
      → Tracks ready (n ∷ outputs) (apply (set_direction n output) s)
  Tracks-output n r = (
    ready-kept (set_direction n output),
    (λ k m. elim (Bool-cases (n == k)) [
      | inl e ↦
          let same : n ≡ k = (==_iff n k).0 e in
          let open_ : (s k).exported ≡ true = subst (λ j. (s j).exported ≡ true) same (t.0 n r) in
          ap (λ (q : Pin). is_output q.direction)
            (apply-same (set_direction n output) s k e ∙ if-true _ open_)
      | inr e ↦
          apply-keeps (λ p. is_output p.direction ≡ true) (set_direction n output) s k (λ q. refl)
            (t.1 k (rw e at m))
    ]),
  )

  Tracks-input :
      (n : ℕ) → member n outputs ≡ false → Tracks ready outputs (apply (set_direction n input) s)
  Tracks-input n r = (
    ready-kept (set_direction n input),
    (λ k m.
        apply-keeps (λ p. is_output p.direction ≡ true) (set_direction n input) s k
          (λ q.
            let not_output : member k outputs ≡ false = subst (λ j. member j outputs ≡ false) q r in
            absurd (cc (m, not_output)))
          (t.1 k m)),
  )

ordered-accepted :
    (ready outputs : List ℕ) (ws : List Write) (s : ℕ → Pin)
    → Tracks ready outputs s
    → ordered ready outputs ws ≡ true
    → all_accepted ws s ≡ true
unfolding ordered
ordered-accepted ready outputs [] s t h = refl
ordered-accepted ready outputs (export_pin n ∷ ws) s t h =
    ordered-accepted (n ∷ ready) outputs ws (apply (export_pin n) s)
      (Tracks-export ready outputs s t n) h
ordered-accepted ready outputs (set_direction n output ∷ ws) s t h =
    let (r, k) = both (member n ready) (ordered ready (n ∷ outputs) ws) h in
    and-true (t.0 n r) (
      ordered-accepted ready (n ∷ outputs) ws (apply (set_direction n output) s)
        (Tracks-output ready outputs s t n r) k)
ordered-accepted ready outputs (set_direction n input ∷ ws) s t h =
    let (r, k) = both (member n ready && not (member n outputs)) (ordered ready outputs ws) h in
    let (m, o) = both (member n ready) (not (member n outputs)) r in
    and-true (t.0 n m) (
      ordered-accepted ready outputs ws (apply (set_direction n input) s)
        (Tracks-input ready outputs s t n (not-true (member n outputs) o)) k)
ordered-accepted ready outputs (set_value n v ∷ ws) s t h =
    let (r, k) = both (member n ready && member n outputs) (ordered ready outputs ws) h in
    let (m, o) = both (member n ready) (member n outputs) r in
    and-true (and-true (t.0 n m) (t.1 n o)) (
      ordered-accepted ready outputs ws (apply (set_value n v) s)
        (
          ready-kept ready outputs s t (set_value n v),
          outputs-kept ready outputs s t (set_value n v) (λ p. refl),
        )
        k)
ordered-accepted ready outputs (set_edge n e ∷ ws) s t h =
    let (r, k) = both (member n ready) (ordered ready outputs ws) h in
    and-true (t.0 n r) (
      ordered-accepted ready outputs ws (apply (set_edge n e) s)
        (
          ready-kept ready outputs s t (set_edge n e),
          outputs-kept ready outputs s t (set_edge n e) (λ p. refl),
        )
        k)

-- In whatever state the pins are, every write of either script to an attribute of a pin comes when
-- the pin has been exported, and every value when the pin is an output.
attributes-accepted :
    (s : ℕ → Pin) → (all_accepted hwsetup_pins s ≡ true) × (all_accepted vidorder_pins s ≡ true)
unfolding ordered
attributes-accepted s = (
  ordered-accepted [] [] hwsetup_pins s ((λ n. cc), (λ n. cc)) refl,
  ordered-accepted [] [] vidorder_pins s ((λ n. cc), (λ n. cc)) refl,
)
