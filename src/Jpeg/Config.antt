-- ===== src/Jpeg/Config.antt =====
-- The basic types of rootfs/usr/include/jmorecfg.h in all of its configurations, with the macros that
-- read a sample and a byte of a data stream, over the integer types of a C machine.
pub mod Samples
pub mod Ranges
use chronos_updates.Common.{
  ℕ, ◌+◌, ◌-◌, ◌*◌, ◌%◌, ◌^◌, Bool, true, false, not, ◌&&◌, ◌||◌, Option, none, some, ltb,
  if◌then◌else◌,
}
use chronos_updates.Common.Int.{ℤ, pos, negsuc}

pub data CType : Type 0 where
  char unsigned_char short unsigned_short int unsigned_int long : CType

-- A machine: how many bits its types have more than C asks for, and whether a plain char is signed.
pub record Machine : Type 0 where
  pub char_extra : ℕ
  pub short_extra : ℕ
  pub int_extra : ℕ
  pub long_extra : ℕ
  pub char_signed : Bool

abbrev is_signed : Machine → CType → Bool
is_signed m char = m.char_signed
is_signed m short = true
is_signed m int = true
is_signed m long = true
is_signed m _ = false

-- Half of the number of a type's values.
abbrev pub half : Machine → CType → ℕ
half m char = 2 ^ (7 + m.char_extra)
half m unsigned_char = 2 ^ (7 + m.char_extra)
half m short = 2 ^ (15 + m.short_extra)
half m unsigned_short = 2 ^ (15 + m.short_extra)
half m int = 2 ^ (15 + m.int_extra)
half m unsigned_int = 2 ^ (15 + m.int_extra)
half m long = 2 ^ (31 + m.long_extra)

-- The bits `b` as a value of the type.
abbrev pub value_of_bits : Bool → ℕ → ℕ → ℤ
value_of_bits signed h b = if signed && not (ltb b h) then negsuc (2 * h - 1 - b) else pos b

-- What a number is when it has been stored in the type, which keeps its low bits.
abbrev pub stored : Machine → CType → ℕ → ℤ
stored m t v = value_of_bits (is_signed m t) (half m t) (v % (2 * half m t))

abbrev pub max_value : Machine → CType → ℕ
max_value m t = if is_signed m t then half m t - 1 else 2 * half m t - 1

-- The smallest value is the negative of this number.
abbrev pub below_zero : Machine → CType → ℕ
below_zero m t = if is_signed m t then half m t else 0

-- The symbols that the header tests: `BITS_IN_JSAMPLE == 12`, those of jconfig.h, and the headers
-- that define some of the types themselves.
pub record Config : Type 0 where
  pub twelve_bits : Bool
  pub have_unsigned_char : Bool
  pub char_is_unsigned : Bool
  pub have_unsigned_short : Bool
  pub xmd_h : Bool
  pub basetsd_h_ : Bool
  pub basetsd_h : Bool
  pub qglobal_h : Bool

-- `(value) & 0xFF`, in two's complement.
abbrev pub low_byte : ℤ → ℤ
low_byte (pos n) = pos (n % 256)
low_byte (negsuc n) = pos (255 - n % 256)

abbrev pub byte_type : Config → CType
byte_type c = if c.have_unsigned_char then unsigned_char else char

abbrev pub get_byte : Config → ℤ → ℤ
get_byte c z = if c.have_unsigned_char || c.char_is_unsigned then z else low_byte z

-- `JSAMPLE`, `GETJSAMPLE`, `MAXJSAMPLE` and `CENTERJSAMPLE`.
pub jsample : Config → CType
jsample c = if c.twelve_bits then short else byte_type c

pub getjsample : Config → ℤ → ℤ
getjsample c z = if c.twelve_bits then z else get_byte c z

unfoldable pub max_jsample : Config → ℕ
max_jsample c = if c.twelve_bits then 4095 else 255

pub center_jsample : Config → ℕ
center_jsample c = if c.twelve_bits then 2048 else 128

-- `JOCTET` and `GETJOCTET`.
pub joctet : Config → CType
joctet c = byte_type c

pub getjoctet : Config → ℤ → ℤ
getjoctet c z = get_byte c z

pub jcoef : CType
jcoef = short

pub uint8 : Config → CType
uint8 c = if c.have_unsigned_char then unsigned_char else if c.char_is_unsigned then char else short

pub uint16 : Config → CType
uint16 c = if c.have_unsigned_short then unsigned_short else unsigned_int

-- Where the header defines them.
pub int16 : Config → Option CType
int16 c = if c.xmd_h then none else some short

pub int32 : Config → Option CType
int32 c = if c.xmd_h || (c.basetsd_h_ || (c.basetsd_h || c.qglobal_h)) then none else some long

pub jdimension : CType
jdimension = unsigned_int

pub jpeg_max_dimension : ℕ
jpeg_max_dimension = 65500
