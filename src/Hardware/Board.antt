-- ===== src/Hardware/Board.antt =====
-- rootfs/etc/cam-board.json, which tells the camera's programs the devices and pins of the board, and
-- the pins that scripts/hwsetup.sh and rootfs/etc/init.d/vidorder set up.
use chronos_updates.Common.{
  ℕ, ◌≡◌, refl, sym, ap, ◌∙◌, subst, Bool, true, false, ◌||◌, List, [], ◌∷◌, ◌++◌, ◌==◌, ==_iff,
  any, all, both, String, if◌then◌else◌, Bool-cases, inl, inr,
}
use chronos_updates.Hardware.{
  Write, export_pin, set_direction, set_value, set_edge, hwsetup_pins, vidorder_pins,
}
use chronos_updates.Hardware.Pins.{Pin, apply, apply_all, pins-agree}
use chronos_updates.Hardware.Accepted.{apply-exported, apply-same, export-exports}

-- The value of a pin in /sys/class/gpio, or another device.
data Target : Type 0 where
  gpio : ℕ → Target
  device : String → Target

record Entry : Type 0 where
  pub name : String
  pub target : Target

abbrev pin : String → ℕ → Entry
pin name n = record { name = name; target = gpio n }

abbrev file : String → String → Entry
file name path = record { name = name; target = device path }

abbrev cam_board : List Entry
cam_board =
    file "ddr3-i2c" "/dev/i2c-0"
    ∷ file "eeprom-i2c" "/dev/i2c-1"
    ∷ file "lux1310-spidev" "/dev/spidev3.0"
    ∷ pin "lux1310-dac-cs" 33
    ∷ pin "lux1310-color" 34
    ∷ pin "encoder-a" 20
    ∷ pin "encoder-b" 26
    ∷ pin "encoder-sw" 27
    ∷ pin "shutter-sw" 66
    ∷ pin "record-led.0" 41
    ∷ pin "record-led.1" 25
    ∷ pin "trigger-pin" 127
    ∷ pin "frame-irq" 51
    ∷ file "ecp5-spidev" "/dev/spidev3.0"
    ∷ pin "ecp5-progn" 47
    ∷ pin "ecp5-init" 45
    ∷ pin "ecp5-done" 52
    ∷ pin "ecp5-cs" 58
    ∷ pin "ecp5-holdn" 58
    ∷ []

abbrev is_pin : ℕ → Entry → Bool
is_pin n e = elim e.target [ gpio m ↦ m == n | device path ↦ false ]

abbrev same_pin : Entry → Entry → Bool
same_pin e f = elim e.target [ gpio m ↦ is_pin m f | device path ↦ false ]

-- The pin is exported by one of the writes.
abbrev exports : ℕ → List Write → Bool
exports n [] = false
exports n (export_pin m ∷ ws) = m == n || exports n ws
exports n (_ ∷ ws) = exports n ws

-- The names of the pairs of entries with the same pin.
abbrev with_same : Entry → List Entry → List (String × String)
with_same e [] = []
with_same e (f ∷ es) =
    let more = with_same e es in if same_pin e f then (e.name, f.name) ∷ more else more

abbrev clashes : List Entry → List (String × String)
clashes [] = []
clashes (e ∷ es) = with_same e es ++ clashes es

stays-exported :
    (ws : List Write) (s : ℕ → Pin) (n : ℕ)
    → (s n).exported ≡ true
    → (apply_all ws s n).exported ≡ true
stays-exported [] s n h = h
stays-exported (w ∷ ws) s n h = stays-exported ws (apply w s) n (apply-exported w s n h)

exports-exported :
    (ws : List Write) (s : ℕ → Pin) (n : ℕ)
    → exports n ws ≡ true
    → (apply_all ws s n).exported ≡ true
exports-exported [] s n h = cc
exports-exported (export_pin m ∷ ws) s n h = elim (Bool-cases (m == n)) [
  | inl e ↦
      stays-exported ws (apply (export_pin m) s) n
        (ap (λ (q : Pin). q.exported) (apply-same (export_pin m) s n e) ∙ export-exports m (s n))
  | inr e ↦ exports-exported ws (apply (export_pin m) s) n (rw e at h)
]
exports-exported (set_direction m d ∷ ws) s n h =
    exports-exported ws (apply (set_direction m d) s) n h
exports-exported (set_value m v ∷ ws) s n h = exports-exported ws (apply (set_value m v) s) n h
exports-exported (set_edge m e ∷ ws) s n h = exports-exported ws (apply (set_edge m e) s) n h

abbrev is_set_up : List Write → Entry → Bool
is_set_up ws e = elim e.target [ gpio m ↦ exports m ws | device path ↦ true ]

pin-set_up :
    (ws : List Write) (n : ℕ) (t : Target)
    → (elim t [ gpio m ↦ m == n | device path ↦ false ]) ≡ true
    → (elim t [ gpio m ↦ exports m ws | device path ↦ true ]) ≡ true
    → exports n ws ≡ true
pin-set_up ws n (gpio m) h k = subst (λ j. exports j ws ≡ true) ((==_iff m n).0 h) k
pin-set_up ws n (device path) h k = cc

named-exports :
    (ws : List Write) (n : ℕ) (es : List Entry)
    → all (is_set_up ws) es ≡ true
    → any (is_pin n) es ≡ true
    → exports n ws ≡ true
named-exports ws n [] h k = cc
named-exports ws n (e ∷ es) h k =
    let (first, rest) = both (is_set_up ws e) (all (is_set_up ws) es) h in
    elim (Bool-cases (is_pin n e)) [
      | inl here ↦ pin-set_up ws n e.target here first
      | inr later ↦ named-exports ws n es rest (rw later at k)
    ]

-- In whatever state the pins are, each pin that the board's file names is exported after
-- hwsetup.sh has set up the pins, and after vidorder has.
board-exported :
    (s : ℕ → Pin) (n : ℕ)
    → any (is_pin n) cam_board ≡ true
    → ((apply_all hwsetup_pins s n).exported ≡ true)
      × ((apply_all vidorder_pins s n).exported ≡ true)
board-exported s n h =
    let done = exports-exported hwsetup_pins s n (named-exports hwsetup_pins n cam_board refl h) in
    (done, ap (λ (p : Pin). p.exported) (sym (pins-agree s n)) ∙ done)

-- Two entries of the board's file name the same pin: the chip select of the FPGA and its HOLDn, which
-- hwsetup.sh and vidorder set up on pin 53, which the file does not name.
board-clash :
    (clashes cam_board ≡ ("ecp5-cs", "ecp5-holdn") ∷ [])
    × (exports 53 hwsetup_pins ≡ true)
    × (any (is_pin 53) cam_board ≡ false)
board-clash = (refl, refl, refl)
