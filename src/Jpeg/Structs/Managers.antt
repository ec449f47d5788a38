-- ===== src/Jpeg/Structs/Managers.antt =====
-- The manager structs of rootfs/usr/include/jpeglib.h, which an application may supply: each with its
-- methods, which are pointers, and its public state. The structs of the library's own modules have
-- more fields after the public ones.
use chronos_updates.Common.{ℕ, ltb, if◌then◌else◌, ◌<◌, ◌≡◌, List, [], ◌∷◌, ◌++◌, length, get_elem?}
use chronos_updates.Abi.{
  CType, uint8, int, unsigned, pointer, long, size_t, array, other, Field, field, size_of, align_of,
  round_up, stricter, offsets,
}
use chronos_updates.Abi.Prefix.{starts_with}

-- A union has room for each of its members.
abbrev union_of : CType → CType → CType
union_of a b = other (record {
  size =
      round_up (if ltb (size_of a) (size_of b) then size_of b else size_of a)
        (stricter (align_of a) (align_of b));
  align = stricter (align_of a) (align_of b);
})

abbrev msg_parm : CType
msg_parm = union_of (array int 8) (array uint8 80)

abbrev error_mgr : List Field
error_mgr =
    field pointer "error_exit"
    ∷ field pointer "emit_message"
    ∷ field pointer "output_message"
    ∷ field pointer "format_message"
    ∷ field pointer "reset_error_mgr"
    ∷ field int "msg_code"
    ∷ field msg_parm "msg_parm"
    ∷ field int "trace_level"
    ∷ field long "num_warnings"
    ∷ field pointer "jpeg_message_table"
    ∷ field int "last_jpeg_message"
    ∷ field pointer "addon_message_table"
    ∷ field int "first_addon_message"
    ∷ field int "last_addon_message"
    ∷ []

abbrev progress_mgr : List Field
progress_mgr =
    field pointer "progress_monitor"
    ∷ field long "pass_counter"
    ∷ field long "pass_limit"
    ∷ field int "completed_passes"
    ∷ field int "total_passes"
    ∷ []

abbrev destination_mgr : List Field
destination_mgr =
    field pointer "next_output_byte"
    ∷ field size_t "free_in_buffer"
    ∷ field pointer "init_destination"
    ∷ field pointer "empty_output_buffer"
    ∷ field pointer "term_destination"
    ∷ []

abbrev source_mgr : List Field
source_mgr =
    field pointer "next_input_byte"
    ∷ field size_t "bytes_in_buffer"
    ∷ field pointer "init_source"
    ∷ field pointer "fill_input_buffer"
    ∷ field pointer "skip_input_data"
    ∷ field pointer "resync_to_restart"
    ∷ field pointer "term_source"
    ∷ []

abbrev memory_mgr : List Field
memory_mgr =
    field pointer "alloc_small"
    ∷ field pointer "alloc_large"
    ∷ field pointer "alloc_sarray"
    ∷ field pointer "alloc_barray"
    ∷ field pointer "request_virt_sarray"
    ∷ field pointer "request_virt_barray"
    ∷ field pointer "realize_virt_arrays"
    ∷ field pointer "access_virt_sarray"
    ∷ field pointer "access_virt_barray"
    ∷ field pointer "free_pool"
    ∷ field pointer "self_destruct"
    ∷ field long "max_memory_to_use"
    ∷ field long "max_alloc_chunk"
    ∷ []

-- `jpeg_marker_struct`, an element of the list of saved markers.
abbrev marker_struct : List Field
marker_struct =
    field pointer "next"
    ∷ field uint8 "marker"
    ∷ field unsigned "original_length"
    ∷ field unsigned "data_length"
    ∷ field pointer "data"
    ∷ []

data Manager : Type 0 where
  error progress destination source memory : Manager

public_fields : Manager → List Field
public_fields error = error_mgr
public_fields progress = progress_mgr
public_fields destination = destination_mgr
public_fields source = source_mgr
public_fields memory = memory_mgr

-- A manager's struct that goes on with private fields, whatever these are, has the public fields in
-- their order and at their offsets, so that the library finds them through a pointer to either.
private_fields_follow :
    (m : Manager) (more : List Field) (i : ℕ)
    → i < length (public_fields m)
    → (get_elem? (public_fields m ++ more) i ≡ get_elem? (public_fields m) i)
      × (get_elem? (offsets 0 (public_fields m ++ more)) i
          ≡ get_elem? (offsets 0 (public_fields m)) i)
private_fields_follow m more i h = starts_with (public_fields m) more i h
