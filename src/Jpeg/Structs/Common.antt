-- ===== src/Jpeg/Structs/Common.antt =====
-- The three master structs of rootfs/usr/include/jpeglib.h start with the same fields, so that
-- code for both halves of the library takes a pointer to `jpeg_common_struct`.
use chronos_updates.Common.{ℕ, ◌<◌, ◌≡◌, length, get_elem?}
use chronos_updates.Abi.{offsets}
use chronos_updates.Abi.Prefix.{starts_with}
use chronos_updates.Jpeg.Structs.{common_fields, common_struct, compress_struct, decompress_struct}

-- Each field of `jpeg_common_struct` is the field at its place in both master structs, at the same
-- offset.
pub common_fields_agree :
    (i : ℕ)
    → i < length common_struct
    → (get_elem? compress_struct i ≡ get_elem? common_struct i)
      × (get_elem? decompress_struct i ≡ get_elem? common_struct i)
      × (get_elem? (offsets 0 compress_struct) i ≡ get_elem? (offsets 0 common_struct) i)
      × (get_elem? (offsets 0 decompress_struct) i ≡ get_elem? (offsets 0 common_struct) i)
unfolding common_struct compress_struct decompress_struct
common_fields_agree i h =
    let (f, o) = starts_with common_fields _ i h in
    let (g, p) = starts_with common_fields _ i h in (f, g, o, p)
