-- ===== src/Abi.antt =====
-- The layout of a C struct under the procedure call standard of the camera's 32-bit ARM core: each
-- field at the next offset that its alignment divides, and the whole padded to the largest
-- alignment. The headers' structs are lists of fields.
pub mod Laws
pub mod Prefix
use chronos_updates.Common.{
  ℕ, zero, suc, ◌+◌, ◌-◌, ◌*◌, ◌/◌, String, Option, none, some, List, [], ◌∷◌, ltb, if◌then◌else◌,
}

-- An alignment.
pub data Align : Type 0 where
  one two four eight : Align

abbrev pub bytes : Align → ℕ
bytes one = 1
bytes two = 2
bytes four = 4
bytes eight = 8

pub record Extent : Type 0 where
  pub size : ℕ
  pub align : Align

-- The types of fields. An enumeration is an `int`; `other` is a union, or a type that another header
-- defines.
pub data CType : Type 0 where
  uint8 uint16 int unsigned enum boolean pointer double long size_t : CType
  array : CType → ℕ → CType
  other : Extent → CType

abbrev pub align_of : CType → Align
align_of uint8 = one
align_of uint16 = two
align_of int = four
align_of unsigned = four
align_of enum = four
align_of boolean = four
align_of pointer = four
align_of double = eight
align_of long = four
align_of size_t = four
align_of (array t n) = align_of t
align_of (other e) = e.align

abbrev pub size_of : CType → ℕ
size_of uint8 = 1
size_of uint16 = 2
size_of int = 4
size_of unsigned = 4
size_of enum = 4
size_of boolean = 4
size_of pointer = 4
size_of double = 8
size_of long = 4
size_of size_t = 4
size_of (array t n) = n * size_of t
size_of (other e) = e.size

pub record Field : Type 0 where
  pub name : String
  pub type : CType

abbrev pub field : CType → String → Field
field t n = record { name = n; type = t }

-- The next offset that the alignment divides.
pub round_up : ℕ → Align → ℕ
round_up o one = o
round_up o two = (o + 1) / 2 * 2
round_up o four = (o + 3) / 4 * 4
round_up o eight = (o + 7) / 8 * 8

pub stricter : Align → Align → Align
stricter a b = if ltb (bytes a) (bytes b) then b else a

-- The offsets of fields that start at `o` or later.
pub offsets : ℕ → List Field → List ℕ
offsets o [] = []
offsets o (f ∷ fs) = let p = round_up o (align_of f.type) in p ∷ offsets (p + size_of f.type) fs

-- The end of the last field.
pub end_of : ℕ → List Field → ℕ
end_of o [] = o
end_of o (f ∷ fs) = end_of (round_up o (align_of f.type) + size_of f.type) fs

unfoldable pub struct_align : List Field → Align
struct_align [] = one
struct_align (f ∷ fs) = stricter (align_of f.type) (struct_align fs)

pub size_of_struct : List Field → ℕ
size_of_struct fs = round_up (end_of 0 fs) (struct_align fs)
