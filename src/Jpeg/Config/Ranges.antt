-- ===== src/Jpeg/Config/Ranges.antt =====
-- That the types of rootfs/usr/include/jmorecfg.h hold what its comments ask of them.
use chronos_updates.Common.{
  ℕ, ◌+◌, ◌-◌, ◌*◌, ◌^◌, ◌≤◌, ◌≡◌, refl, sym, subst, Bool, true, false, ◌||◌, Option, none, some,
  arith, if◌then◌else◌,
}
use chronos_updates.Jpeg.Config.{
  CType, char, unsigned_char, short, unsigned_short, int, unsigned_int, long, Machine, half,
  max_value, below_zero, Config, uint8, uint16, int16, int32, jcoef, jdimension, jpeg_max_dimension,
  max_jsample, center_jsample,
}
use native.Mathlib.Nat.{pow-le-pow_right}

at_least : (n k : ℕ) → 2 ^ n ≤ 2 ^ (n + k)
at_least n k = pow-le-pow_right {n = 2} (omega arith) {i = n} {j = n + k} (omega arith)

-- The numbers that every machine's types hold.
module _ (m : Machine) where
  bytes_hold : 255 ≤ 2 * half m char - 1
  bytes_hold = omega (arith, at_least 7 m.char_extra)

  shorts_hold : (32767 ≤ half m short - 1) × (32768 ≤ half m short) × (65535 ≤ 2 * half m short - 1)
  shorts_hold = let h = at_least 15 m.short_extra in (omega (arith, h), h, omega (arith, h))

  ints_hold : 65535 ≤ 2 * half m int - 1
  ints_hold = omega (arith, at_least 15 m.int_extra)

  longs_hold : (2147483647 ≤ half m long - 1) × (2147483648 ≤ half m long)
  longs_hold = let h = at_least 31 m.long_extra in (omega (arith, h), h)

  uint8_cases :
      (huc cu : Bool)
      → (cu ≡ true → m.char_signed ≡ false)
      → 255 ≤ max_value m (if huc then unsigned_char else if cu then char else short)
  uint8_cases true cu plain = bytes_hold
  uint8_cases false true plain =
      subst (λ b. 255 ≤ (if b then half m char - 1 else 2 * half m char - 1)) (sym (plain refl))
        bytes_hold
  uint8_cases false false plain = omega (arith, shorts_hold.0)

  uint16_cases : (hus : Bool) → 65535 ≤ max_value m (if hus then unsigned_short else unsigned_int)
  uint16_cases true = shorts_hold.2
  uint16_cases false = ints_hold

  -- A type that the header does not define is another header's.
  abbrev option_max : ℕ → Option CType → ℕ
  option_max n o = elim o [ none ↦ n | some t ↦ max_value m t ]

  abbrev option_below : ℕ → Option CType → ℕ
  option_below n o = elim o [ none ↦ n | some t ↦ below_zero m t ]

  int16_cases :
      (b : Bool)
      → (32767 ≤ option_max 32767 (if b then none else some short))
        × (32768 ≤ option_below 32768 (if b then none else some short))
  int16_cases true = (omega arith, omega arith)
  int16_cases false = (shorts_hold.0, shorts_hold.1)

  int32_cases :
      (b : Bool)
      → (2147483647 ≤ option_max 2147483647 (if b then none else some long))
        × (2147483648 ≤ option_below 2147483648 (if b then none else some long))
  int32_cases true = (omega arith, omega arith)
  int32_cases false = longs_hold

centered : (b : Bool) → (if b then 4095 else 255) ≡ 2 * (if b then 2048 else 128) - 1
centered true = refl
centered false = refl

-- On every machine with the widths that C asks for, and in every configuration of the header where
-- CHAR_IS_UNSIGNED is defined only if a plain char is unsigned: UINT8 holds the numbers up to 255,
-- UINT16 those up to 65535, INT16 and JCOEF those from -32768 to 32767, INT32 those of 32 bits, if
-- no other header defines INT16 and INT32, and JDIMENSION those up to JPEG_MAX_DIMENSION;
-- and CENTERJSAMPLE is half of MAXJSAMPLE plus one.
types-hold :
    (m : Machine) (c : Config)
    → (c.char_is_unsigned ≡ true → m.char_signed ≡ false)
    → (255 ≤ max_value m (uint8 c))
      × (65535 ≤ max_value m (uint16 c))
      × (32767 ≤ option_max m 32767 (int16 c))
      × (32768 ≤ option_below m 32768 (int16 c))
      × (2147483647 ≤ option_max m 2147483647 (int32 c))
      × (2147483648 ≤ option_below m 2147483648 (int32 c))
      × (32767 ≤ max_value m jcoef)
      × (32768 ≤ below_zero m jcoef)
      × (jpeg_max_dimension ≤ max_value m jdimension)
      × (max_jsample c ≡ 2 * center_jsample c - 1)
unfolding uint8 uint16 int16 int32 jcoef jdimension jpeg_max_dimension max_jsample center_jsample
types-hold m c plain =
    let (short_max, short_below) = int16_cases m c.xmd_h in
    let (long_max, long_below) =
      int32_cases m (c.xmd_h || (c.basetsd_h_ || (c.basetsd_h || c.qglobal_h))) in
    (
      uint8_cases m c.have_unsigned_char c.char_is_unsigned plain,
      uint16_cases m c.have_unsigned_short,
      short_max,
      short_below,
      long_max,
      long_below,
      (shorts_hold m).0,
      (shorts_hold m).1,
      omega (arith, ints_hold m),
      centered c.twelve_bits,
    )
