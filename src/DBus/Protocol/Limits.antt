-- ===== src/DBus/Protocol/Limits.antt =====
-- The limits of rootfs/usr/include/dbus-1.0/dbus/dbus-protocol.h, and the bits that lengths need.
use native.Mathlib.Decide.{dec_lt}
use native.Mathlib.Nat.{one-le-pow, pow-le-pow_right, pow-suc}
use chronos_updates.Common.{ℕ, suc, ◌+◌, ◌*◌, ◌^◌, ◌≤◌, ◌<◌, ◌↔◌, arith}

abbrev pub maximum_name_length : ℕ
maximum_name_length = 255

abbrev maximum_signature_length : ℕ
maximum_signature_length = 255

abbrev maximum_match_rule_length : ℕ
maximum_match_rule_length = 1024

abbrev maximum_match_rule_arg_number : ℕ
maximum_match_rule_arg_number = 63

maximum_array_length : ℕ
maximum_array_length = 67108864

maximum_array_length_bits : ℕ
maximum_array_length_bits = 26

maximum_message_length : ℕ
unfolding maximum_array_length
maximum_message_length = maximum_array_length * 2

maximum_message_length_bits : ℕ
maximum_message_length_bits = 27

abbrev maximum_type_recursion_depth : ℕ
maximum_type_recursion_depth = 32

below_power : (b w : ℕ) → (2 ^ b < 2 ^ w) ↔ (b < w)
below_power b w = (
  λ h. elim (dec_lt b w) [
    | yes p ↦ p
    | no p ↦
        absurd (omega (arith, pow-le-pow_right {n = 2} (omega arith) {i = w} {j = b} (omega arith)))
  ],
  λ h. omega (
    arith,
    pow-le-pow_right {n = 2} (omega arith) {i = suc b} {j = w} h,
    pow-suc 2 b,
    one-le-pow b 2 (omega arith),
  ),
)

-- The longest array's length fits `w` bits exactly if `w` is more than
-- `DBUS_MAXIMUM_ARRAY_LENGTH_BITS`.
array_length_bits : (w : ℕ) → (maximum_array_length < 2 ^ w) ↔ (maximum_array_length_bits < w)
unfolding maximum_array_length maximum_array_length_bits
array_length_bits w = below_power 26 w

-- The longest message's length fits `w` bits exactly if `w` is more than
-- `DBUS_MAXIMUM_MESSAGE_LENGTH_BITS`.
message_length_bits : (w : ℕ) → (maximum_message_length < 2 ^ w) ↔ (maximum_message_length_bits < w)
unfolding maximum_message_length maximum_message_length_bits
message_length_bits w = below_power 27 w

-- The longest array's length fits `w` bits exactly if `w` is more than
-- `DBUS_MAXIMUM_ARRAY_LENGTH_BITS`, and the longest message's exactly if `w` is more than
-- `DBUS_MAXIMUM_MESSAGE_LENGTH_BITS`.
length_bits :
    (w : ℕ)
    → ((maximum_array_length < 2 ^ w) ↔ (maximum_array_length_bits < w))
      × ((maximum_message_length < 2 ^ w) ↔ (maximum_message_length_bits < w))
length_bits w = (array_length_bits w, message_length_bits w)

-- Two lengths within the limit of an array are together within the limit of a message, and fit a
-- signed 32-bit integer.
lengths_fit_int :
    (body header : ℕ)
    → body ≤ maximum_array_length
    → header ≤ maximum_array_length
    → (body + header ≤ maximum_message_length) × (body + header < 2 ^ 31)
unfolding maximum_array_length maximum_message_length
lengths_fit_int body header h k = omega arith
