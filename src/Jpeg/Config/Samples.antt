-- ===== src/Jpeg/Config/Samples.antt =====
-- That a sample and a byte of a data stream are read as they were stored, in every configuration of
-- rootfs/usr/include/jmorecfg.h.
use chronos_updates.Common.{
  ℕ, zero, suc, ◌+◌, ◌*◌, ◌%◌, ◌^◌, ◌≤◌, ◌<◌, ◌≡◌, refl, sym, ap, ◌∙◌, Bool, true, false, not, ◌||◌,
  arith, ltb, ltb_iff, if◌then◌else◌, if-true, if-false, Bool-cases, inl, inr, subst,
}
use native.Mathlib.Nat.{pow-suc, mul-one, mul_assoc, mod-eq_of_lt}
use chronos_updates.Common.Int.{pos}
use chronos_updates.Jpeg.Config.{
  char, unsigned_char, short, Machine, half, value_of_bits, stored, Config, low_byte, byte_type,
  get_byte, jsample, getjsample, max_jsample, joctet, getjoctet,
}

-- A power of two with a known part.
power : (n k : ℕ) → (p : ℕ) × (2 ^ (n + k) ≡ (2 ^ n) * p) × (1 ≤ p)
power n zero =
    let same : n + 0 ≡ n = omega arith in
    (1, ap (λ i. 2 ^ i) same ∙ sym (mul-one (2 ^ n)), omega arith)
power n (suc k) =
    let (p, e, h) = power n k in
    let next : n + suc k ≡ suc (n + k) = omega arith in
    (
      p * 2,
      ap (λ i. 2 ^ i) next ∙ pow-suc 2 (n + k) ∙ ap (λ x. x * 2) e ∙ mul_assoc (2 ^ n) p 2,
      omega (arith, h),
    )

-- A byte in a type with 128 * p values that are not negative, and as many others.
module _ (p o : ℕ) (h : 1 ≤ p) (k : o < 256) where
  kept : o % (2 * (128 * p)) ≡ o
  kept = mod-eq_of_lt (omega (arith, h, k))

  unsigned_byte : value_of_bits false (128 * p) (o % (2 * (128 * p))) ≡ pos o
  unsigned_byte = ap pos kept

  signed_byte : low_byte (value_of_bits true (128 * p) (o % (2 * (128 * p)))) ≡ pos o
  signed_byte =
      ap (λ b. low_byte (value_of_bits true (128 * p) b)) kept
      ∙ elim (Bool-cases (ltb o (128 * p))) [
        | inl e ↦ ap low_byte (if-false _ (ap not e)) ∙ ap pos (omega (arith, k))
        | inr e ↦ ap low_byte (if-true _ (ap not e)) ∙ ap pos (omega (arith, k, h))
      ]

  -- As the header reads it: whether it has an unsigned char, and whether CHAR_IS_UNSIGNED is defined.
  byte_cases :
      (huc cu signed : Bool)
      → (cu ≡ true → signed ≡ false)
      → (let z = value_of_bits (if huc then false else signed) (128 * p) (o % (2 * (128 * p))) in
          if huc || cu then z else low_byte z)
        ≡ pos o
  byte_cases true cu signed plain = unsigned_byte
  byte_cases false true signed plain =
      ap (λ b. value_of_bits b (128 * p) (o % (2 * (128 * p)))) (plain refl) ∙ unsigned_byte
  byte_cases false false true plain = signed_byte
  byte_cases false false false plain = ap low_byte unsigned_byte ∙ ap pos (omega (arith, k))

stored-byte :
    (m : Machine) (huc : Bool) (o : ℕ)
    → stored m (if huc then unsigned_char else char) o
      ≡ value_of_bits (if huc then false else m.char_signed) (half m char) (o % (2 * half m char))
stored-byte m true o = refl
stored-byte m false o = refl

byte-read :
    (m : Machine) (c : Config) (o : ℕ)
    → (c.char_is_unsigned ≡ true → m.char_signed ≡ false)
    → o < 256
    → get_byte c (stored m (byte_type c) o) ≡ pos o
byte-read m c o plain k =
    let (p, e, h) = power 7 m.char_extra in
    ap (get_byte c) (stored-byte m c.have_unsigned_char o)
    ∙ subst
        (λ n.
          get_byte c
            (value_of_bits (if c.have_unsigned_char then false else m.char_signed) n (o % (2 * n)))
          ≡ pos o)
        (sym e) (byte_cases p o h k c.have_unsigned_char c.char_is_unsigned m.char_signed plain)

-- What a short holds is kept in it.
short-read : (m : Machine) (v : ℕ) → v < 32768 → stored m short v ≡ pos v
short-read m v k =
    let (p, e, h) = power 15 m.short_extra in
    subst (λ n. value_of_bits true n (v % (2 * n)) ≡ pos v) (sym e)
      (let same : v % (2 * (32768 * p)) ≡ v = mod-eq_of_lt (omega (arith, h, k)) in
        let below : ltb v (32768 * p) ≡ true = (ltb_iff v (32768 * p)).1 (omega (arith, h, k)) in
        ap (value_of_bits true (32768 * p)) same ∙ if-false _ (ap not below))

-- In every configuration of the header and on every machine, provided that CHAR_IS_UNSIGNED is
-- defined only where a plain char is unsigned: a sample up to MAXJSAMPLE that is stored in a JSAMPLE
-- is read back by GETJSAMPLE, and a byte that is stored in a JOCTET by GETJOCTET.
pub samples-read :
    (m : Machine) (c : Config) (v o : ℕ)
    → (c.char_is_unsigned ≡ true → m.char_signed ≡ false)
    → v ≤ max_jsample c
    → o < 256
    → (getjsample c (stored m (jsample c) v) ≡ pos v)
      × (getjoctet c (stored m (joctet c) o) ≡ pos o)
unfolding jsample getjsample joctet getjoctet max_jsample
samples-read m c v o plain h k = (
  elim (Bool-cases c.twelve_bits) [
    | inl e ↦
        if-true _ e
        ∙ ap (λ t. stored m t v) (if-true _ e)
        ∙ short-read m v (omega (arith, subst (λ n. v ≤ n) (if-true _ e) h))
    | inr e ↦
        if-false _ e
        ∙ ap (λ t. get_byte c (stored m t v)) (if-false _ e)
        ∙ byte-read m c v plain (omega (arith, subst (λ n. v ≤ n) (if-false _ e) h))
  ],
  byte-read m c o plain k,
)
