-- ===== src/DBus/Protocol/Header.antt =====
-- Message types, header flags and header fields of
-- rootfs/usr/include/dbus-1.0/dbus/dbus-protocol.h.
use Prim.Native.Nat.{bit_and, bit_or}
use Prim.Native.String.{◌++◌ as ◌<>◌}
use chronos_updates.Common.{
  ℕ, String, suc, zero, ◌≤◌, ◌<◌, ◌≡◌, ◌↔◌, refl, Bool, true, false, arith, if◌then◌else◌,
}
use chronos_updates.DBus.Protocol.Types.{TypeCode, type_as_string}

-- `DBUS_MESSAGE_TYPE_*`.
data MessageType : Type 0 where
  method_call method_return error signal : MessageType

abbrev message_type_invalid : ℕ
message_type_invalid = 0

unfoldable message_type : MessageType → ℕ
message_type method_call = 1
message_type method_return = 2
message_type error = 3
message_type signal = 4

flag_no_reply_expected : ℕ
flag_no_reply_expected = 0x1

flag_no_auto_start : ℕ
flag_no_auto_start = 0x2

-- `DBUS_HEADER_FIELD_*`.
data HeaderField : Type 0 where
  path interface member error_name reply_serial destination sender signature : HeaderField

abbrev field_invalid : ℕ
field_invalid = 0

field_code : HeaderField → ℕ
field_code path = 1
field_code interface = 2
field_code member = 3
field_code error_name = 4
field_code reply_serial = 5
field_code destination = 6
field_code sender = 7
field_code signature = 8

field_last : ℕ
unfolding field_code
field_last = field_code signature

abbrev minimum_header_size : ℕ
minimum_header_size = 16

-- `DBUS_HEADER_SIGNATURE`.
header_signature : String
unfolding type_as_string
header_signature =
    type_as_string TypeCode.byte
    <> type_as_string TypeCode.byte
    <> type_as_string TypeCode.byte
    <> type_as_string TypeCode.byte
    <> type_as_string TypeCode.uint32
    <> type_as_string TypeCode.uint32
    <> type_as_string TypeCode.array
    <> "("
    <> type_as_string TypeCode.byte
    <> type_as_string TypeCode.variant
    <> ")"

-- The flags byte of a message.
abbrev pub flags : Bool → Bool → ℕ
unfolding flag_no_reply_expected flag_no_auto_start
flags no_reply no_start =
    bit_or (if no_reply then flag_no_reply_expected else 0)
      (if no_start then flag_no_auto_start else 0)

-- Each flag is read off the flags byte, whatever the other is.
flags_independent :
    (no_reply no_start : Bool)
    → ((0 < bit_and (flags no_reply no_start) flag_no_reply_expected) ↔ (no_reply ≡ true))
      × ((0 < bit_and (flags no_reply no_start) flag_no_auto_start) ↔ (no_start ≡ true))
unfolding flag_no_reply_expected flag_no_auto_start
flags_independent true true = ground arith
flags_independent true false = ground arith
flags_independent false true = ground arith
flags_independent false false = ground arith

-- The header field that has a code.
field_of_code : (c : ℕ) → 0 < c → c ≤ field_last → (f : HeaderField) × (field_code f ≡ c)
unfolding field_code field_last
field_of_code zero h k = absurd (omega arith)
field_of_code (suc zero) h k = (path, refl)
field_of_code (suc (suc zero)) h k = (interface, refl)
field_of_code (suc (suc (suc zero))) h k = (member, refl)
field_of_code (suc (suc (suc (suc zero)))) h k = (error_name, refl)
field_of_code (suc (suc (suc (suc (suc zero))))) h k = (reply_serial, refl)
field_of_code (suc (suc (suc (suc (suc (suc zero)))))) h k = (destination, refl)
field_of_code (suc (suc (suc (suc (suc (suc (suc zero))))))) h k = (sender, refl)
field_of_code (suc (suc (suc (suc (suc (suc (suc (suc zero)))))))) h k = (signature, refl)
field_of_code (suc (suc (suc (suc (suc (suc (suc (suc (suc c))))))))) h k = absurd (omega arith)

-- The codes of the header fields are the numbers from 1 to the last.
field_codes :
    (c : ℕ) → ((f : HeaderField) × (field_code f ≡ c)) ↔ ((field_invalid < c) × (c ≤ field_last))
unfolding field_code field_last
field_codes c = ((λ (f, e). bounds f e), λ h. field_of_code c h.0 h.1)
  where
    bounds : (f : HeaderField) → field_code f ≡ c → (0 < c) × (c ≤ field_last)
    bounds path e = omega arith
    bounds _ e = omega arith
