-- ===== src/Jpeg/Structs/Creation.antt =====
-- `jpeg_create_compress` and `jpeg_create_decompress` of rootfs/usr/include/jpeglib.h: calls of
-- the library with its version and the size of the caller's struct. The library's function, which
-- is not in the repository, is a parameter.
use chronos_updates.Common.{ℕ, ◌+◌, ◌≤◌, ◌≡◌, some, get_elem?}
use chronos_updates.Abi.{Field, size_of, offsets, size_of_struct}
use chronos_updates.Abi.Laws.{field_in_struct}
use chronos_updates.Jpeg.Structs.{compress_struct, decompress_struct}

abbrev jpeg_lib_version : ℕ
jpeg_lib_version = 80

jpeg_create_compress {ℓ} : {A : Type ℓ} → (ℕ → ℕ → A) → A
jpeg_create_compress create = create jpeg_lib_version (size_of_struct compress_struct)

jpeg_create_decompress {ℓ} : {A : Type ℓ} → (ℕ → ℕ → A) → A
jpeg_create_decompress create = create jpeg_lib_version (size_of_struct decompress_struct)

-- The size that `jpeg_create_compress` passes covers every field of the struct.
create_compress_covers :
    (i : ℕ) {f : Field} {p : ℕ}
    → get_elem? compress_struct i ≡ some f
    → get_elem? (offsets 0 compress_struct) i ≡ some p
    → p + size_of f.type ≤ jpeg_create_compress (λ version structsize. structsize)
unfolding jpeg_create_compress
create_compress_covers i h k = (field_in_struct compress_struct i h k).0

-- The size that `jpeg_create_decompress` passes covers every field of the struct.
create_decompress_covers :
    (i : ℕ) {f : Field} {p : ℕ}
    → get_elem? decompress_struct i ≡ some f
    → get_elem? (offsets 0 decompress_struct) i ≡ some p
    → p + size_of f.type ≤ jpeg_create_decompress (λ version structsize. structsize)
unfolding jpeg_create_decompress
create_decompress_covers i h k = (field_in_struct decompress_struct i h k).0
