-- ===== src/Omx/Headers.antt =====
-- The start of the parameter structs of rootfs/usr/include/omx/omx_vfcc.h, which a component reads
-- before it knows which struct it has.
use chronos_updates.Common.{ℕ, ◌<◌, ◌≡◌, get_elem?, length}
use chronos_updates.Abi.{Extent, offsets}
use chronos_updates.Abi.Prefix.{starts_with}
use chronos_updates.Omx.{
  header_fields, Struct, port_properties, port, capture_statistics, statistics_reset,
  skipped_frames, struct_fields,
}

-- Whatever the core's types are, every parameter struct has the size, the version and the port index
-- first, each at one offset in all of them.
struct-header :
    (u32 version color_format omx_bool : Extent) (s : Struct) (i : ℕ)
    → i < length (header_fields u32 version color_format omx_bool)
    → (get_elem? (struct_fields u32 version color_format omx_bool s) i
        ≡ get_elem? (header_fields u32 version color_format omx_bool) i)
      × (get_elem? (offsets 0 (struct_fields u32 version color_format omx_bool s)) i
          ≡ get_elem? (offsets 0 (header_fields u32 version color_format omx_bool)) i)
unfolding struct_fields
struct-header u v c b port_properties i h = starts_with (header_fields u v c b) _ i h
struct-header u v c b port i h = starts_with (header_fields u v c b) _ i h
struct-header u v c b capture_statistics i h = starts_with (header_fields u v c b) _ i h
struct-header u v c b statistics_reset i h = starts_with (header_fields u v c b) _ i h
struct-header u v c b skipped_frames i h = starts_with (header_fields u v c b) _ i h
