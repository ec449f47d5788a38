-- ===== src/DBus/Protocol/Types.antt =====
-- The type codes of rootfs/usr/include/dbus-1.0/dbus/dbus-protocol.h: `DBUS_TYPE_*`, their forms
-- as strings, and the characters that bracket structs and dict entries.
use chronos_updates.Common.{
  ℕ, ◌≡◌, refl, String, Option, none, some, List, [], ◌∷◌, ◌==◌, codes, if◌then◌else◌,
}

pub data TypeCode : Type 0 where
  byte boolean int16 uint16 int32 uint32 int64 uint64 double : TypeCode
  string object_path signature array variant struct dict_entry : TypeCode

-- `DBUS_TYPE_INVALID`.
abbrev type_invalid : ℕ
type_invalid = 0

type_code : TypeCode → ℕ
type_code byte = b'y'
type_code boolean = b'b'
type_code int16 = b'n'
type_code uint16 = b'q'
type_code int32 = b'i'
type_code uint32 = b'u'
type_code int64 = b'x'
type_code uint64 = b't'
type_code double = b'd'
type_code string = b's'
type_code object_path = b'o'
type_code signature = b'g'
type_code array = b'a'
type_code variant = b'v'
type_code struct = b'r'
type_code dict_entry = b'e'

-- `DBUS_TYPE_*_AS_STRING`.
unfoldable pub type_as_string : TypeCode → String
type_as_string byte = "y"
type_as_string boolean = "b"
type_as_string int16 = "n"
type_as_string uint16 = "q"
type_as_string int32 = "i"
type_as_string uint32 = "u"
type_as_string int64 = "x"
type_as_string uint64 = "t"
type_as_string double = "d"
type_as_string string = "s"
type_as_string object_path = "o"
type_as_string signature = "g"
type_as_string array = "a"
type_as_string variant = "v"
type_as_string struct = "r"
type_as_string dict_entry = "e"

abbrev number_of_types : ℕ
number_of_types = 16

abbrev struct_begin_char : ℕ
struct_begin_char = b'('

abbrev struct_end_char : ℕ
struct_end_char = b')'

abbrev dict_entry_begin_char : ℕ
dict_entry_begin_char = b'{'

abbrev dict_entry_end_char : ℕ
dict_entry_end_char = b'}'

-- The types, in the order of the header.
abbrev all_types : List TypeCode
all_types =
    byte ∷ boolean ∷ int16 ∷ uint16 ∷ int32 ∷ uint32 ∷ int64 ∷ uint64 ∷ double ∷ string
    ∷ object_path ∷ signature ∷ array ∷ variant ∷ struct ∷ dict_entry ∷ []

-- The type in a list of types that has a code.
abbrev find_code : ℕ → List TypeCode → Option TypeCode
find_code c [] = none
find_code c (t ∷ ts) = let rest = find_code c ts in if type_code t == c then some t else rest

of_code : ℕ → Option TypeCode
unfolding type_code
of_code c = find_code c all_types

of_code-type_code : (t : TypeCode) → of_code (type_code t) ≡ some t
unfolding of_code type_code
of_code-type_code byte = refl
of_code-type_code _ = refl

-- Different types have different codes.
type_code_injective : (s t : TypeCode) → type_code s ≡ type_code t → s ≡ t
type_code_injective s t e = cc (of_code-type_code s, of_code-type_code t)

-- The form of a code as a string is the one character of the code.
as_string-type_code : (t : TypeCode) → codes (type_as_string t) ≡ type_code t ∷ []
unfolding type_code type_as_string
as_string-type_code byte = refl
as_string-type_code _ = refl
