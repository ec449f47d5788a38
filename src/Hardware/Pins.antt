-- ===== src/Hardware/Pins.antt =====
-- What scripts/hwsetup.sh and rootfs/etc/init.d/vidorder leave the pins as.
use chronos_updates.Common.{
  ℕ, ◌≡◌, refl, sym, ap, ◌∙◌, subst, Bool, true, false, not, ◌&&◌, Option, some, List, [], ◌∷◌,
  ◌++◌, ◌==◌, ==_iff, keep, keep-append, if◌then◌else◌, Bool-cases, inl, inr,
}
use chronos_updates.Hardware.{
  Direction, output, Edge, Write, export_pin, set_direction, set_value, set_edge, frame_end,
  fpga_control, encoder_wheel, trigger_io, recording_status, miscellaneous, hwsetup_pins,
  vidorder_pins,
}

-- A pin as sysfs documents it: its attributes are there once it is exported.
pub record Pin : Type 0 where
  pub exported : Bool
  pub direction : Option Direction
  pub level : Option ℕ
  pub edge : Option Edge

abbrev pub is_output : Option Direction → Bool
is_output (some output) = true
is_output _ = false

abbrev pub pin_of : Write → ℕ
pin_of (export_pin n) = n
pin_of (set_direction n d) = n
pin_of (set_value n v) = n
pin_of (set_edge n e) = n

abbrev pub is_export : Write → Bool
is_export (export_pin n) = true
is_export _ = false

-- A pin is exported once, its attributes need it to be exported, and its value that it is an output.
abbrev pub accepts : Write → Pin → Bool
accepts (export_pin n) p = not p.exported
accepts (set_direction n d) p = p.exported
accepts (set_value n v) p = p.exported && is_output p.direction
accepts (set_edge n e) p = p.exported

abbrev pub change : Write → Pin → Pin
change (export_pin n) p = record p { exported = true }
change (set_direction n d) p = record p { direction = some d }
change (set_value n v) p = record p { level = some v }
change (set_edge n e) p = record p { edge = some e }

-- A write that is not accepted changes nothing, and the scripts go on.
abbrev pub put : Write → Pin → Pin
put w p = if accepts w p then change w p else p

abbrev pub apply : Write → (ℕ → Pin) → ℕ → Pin
apply w s n = if pin_of w == n then put w (s n) else s n

abbrev pub apply_all : List Write → (ℕ → Pin) → ℕ → Pin
apply_all [] s = s
apply_all (w ∷ ws) s = apply_all ws (apply w s)

put_all : List Write → Pin → Pin
put_all [] p = p
put_all (w ∷ ws) p = put_all ws (put w p)

-- A pin depends on the writes to it only.
apply_all-pin :
    (ws : List Write) (s : ℕ → Pin) (n : ℕ)
    → apply_all ws s n ≡ put_all (keep (λ w. pin_of w == n) ws) (s n)
unfolding put_all
apply_all-pin [] s n = refl
apply_all-pin (w ∷ ws) s n = elim (Bool-cases (pin_of w == n)) [
  | inl e ↦ apply_all-pin ws (apply w s) n ∙ rw (e, put_all) refl
  | inr e ↦ apply_all-pin ws (apply w s) n ∙ rw e refl
]

-- Where nothing is kept of a part of a list, its place does not matter.
keep-moved :
    (f : Write → Bool) (k l m : List Write)
    → keep f l ≡ []
    → keep f (k ++ (l ++ m)) ≡ keep f (l ++ (k ++ m))
keep-moved f k l m e =
    keep-append f k (l ++ m)
    ∙ ap (λ x. keep f k ++ x) (keep-append f l m ∙ ap (λ x. x ++ keep f m) e)
    ∙ sym (keep-append f k m)
    ∙ sym (keep-append f l (k ++ m) ∙ ap (λ x. x ++ keep f (k ++ m)) e)

same_writes :
    (n : ℕ) → keep (λ w. pin_of w == n) hwsetup_pins ≡ keep (λ w. pin_of w == n) vidorder_pins
same_writes n = elim (Bool-cases (51 == n)) [
  | inl e ↦
      subst (λ m. keep (λ w. pin_of w == m) hwsetup_pins ≡ keep (λ w. pin_of w == m) vidorder_pins)
        ((==_iff 51 n).0 e) refl
  | inr e ↦
      keep-moved (λ w. pin_of w == n)
        (fpga_control ++ (encoder_wheel ++ (trigger_io ++ recording_status))) frame_end
        miscellaneous (rw e refl)
]

-- From whatever state the pins are in, the two scripts leave every pin the same, though they write
-- in another order.
pub pins-agree : (s : ℕ → Pin) (n : ℕ) → apply_all hwsetup_pins s n ≡ apply_all vidorder_pins s n
pins-agree s n =
    apply_all-pin hwsetup_pins s n
    ∙ ap (λ ws. put_all ws (s n)) (same_writes n)
    ∙ sym (apply_all-pin vidorder_pins s n)
