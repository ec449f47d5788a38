-- ===== src/Jpeg/Structs.antt =====
-- The structs of rootfs/usr/include/jpeglib.h, as lists of fields.
pub mod Common
pub mod Creation
pub mod Managers
use chronos_updates.Common.{ℕ, List, [], ◌∷◌, ◌++◌}
use chronos_updates.Abi.{
  uint8, uint16, int, unsigned, enum, boolean, pointer, double, array, Field, field,
}

abbrev dctsize2 : ℕ
dctsize2 = 64

abbrev num_quant_tbls : ℕ
num_quant_tbls = 4

abbrev num_huff_tbls : ℕ
num_huff_tbls = 4

abbrev num_arith_tbls : ℕ
num_arith_tbls = 16

abbrev max_comps_in_scan : ℕ
max_comps_in_scan = 4

abbrev c_max_blocks_in_mcu : ℕ
c_max_blocks_in_mcu = 10

abbrev d_max_blocks_in_mcu : ℕ
d_max_blocks_in_mcu = 10

-- `jpeg_common_fields`.
unfoldable pub common_fields : List Field
common_fields =
    field pointer "err"
    ∷ field pointer "mem"
    ∷ field pointer "progress"
    ∷ field pointer "client_data"
    ∷ field boolean "is_decompressor"
    ∷ field int "global_state"
    ∷ []

-- `JQUANT_TBL`.
unfoldable quant_tbl : List Field
quant_tbl = field (array uint16 dctsize2) "quantval" ∷ field boolean "sent_table" ∷ []

-- `JHUFF_TBL`.
unfoldable huff_tbl : List Field
huff_tbl =
    field (array uint8 17) "bits"
    ∷ field (array uint8 256) "huffval"
    ∷ field boolean "sent_table"
    ∷ []

-- `jpeg_component_info`.
unfoldable component_info : List Field
component_info =
    field int "component_id"
    ∷ field int "component_index"
    ∷ field int "h_samp_factor"
    ∷ field int "v_samp_factor"
    ∷ field int "quant_tbl_no"
    ∷ field int "dc_tbl_no"
    ∷ field int "ac_tbl_no"
    ∷ field unsigned "width_in_blocks"
    ∷ field unsigned "height_in_blocks"
    ∷ field int "DCT_h_scaled_size"
    ∷ field int "DCT_v_scaled_size"
    ∷ field unsigned "downsampled_width"
    ∷ field unsigned "downsampled_height"
    ∷ field boolean "component_needed"
    ∷ field int "MCU_width"
    ∷ field int "MCU_height"
    ∷ field int "MCU_blocks"
    ∷ field int "MCU_sample_width"
    ∷ field int "last_col_width"
    ∷ field int "last_row_height"
    ∷ field pointer "quant_table"
    ∷ field pointer "dct_table"
    ∷ []

-- `jpeg_scan_info`.
unfoldable scan_info : List Field
scan_info =
    field int "comps_in_scan"
    ∷ field (array int max_comps_in_scan) "component_index"
    ∷ field int "Ss"
    ∷ field int "Se"
    ∷ field int "Ah"
    ∷ field int "Al"
    ∷ []

-- `struct jpeg_marker_struct`.
unfoldable pub marker : List Field
marker =
    field pointer "next"
    ∷ field uint8 "marker"
    ∷ field unsigned "original_length"
    ∷ field unsigned "data_length"
    ∷ field pointer "data"
    ∷ []

-- The fields of `struct jpeg_compress_struct` that an application sets, behind the common ones.
abbrev compress_parameters : List Field
compress_parameters =
    field pointer "dest"
    ∷ field unsigned "image_width"
    ∷ field unsigned "image_height"
    ∷ field int "input_components"
    ∷ field enum "in_color_space"
    ∷ field double "input_gamma"
    ∷ field unsigned "scale_num"
    ∷ field unsigned "scale_denom"
    ∷ field unsigned "jpeg_width"
    ∷ field unsigned "jpeg_height"
    ∷ field int "data_precision"
    ∷ field int "num_components"
    ∷ field enum "jpeg_color_space"
    ∷ field pointer "comp_info"
    ∷ field (array pointer num_quant_tbls) "quant_tbl_ptrs"
    ∷ field (array int num_quant_tbls) "q_scale_factor"
    ∷ field (array pointer num_huff_tbls) "dc_huff_tbl_ptrs"
    ∷ field (array pointer num_huff_tbls) "ac_huff_tbl_ptrs"
    ∷ field (array uint8 num_arith_tbls) "arith_dc_L"
    ∷ field (array uint8 num_arith_tbls) "arith_dc_U"
    ∷ field (array uint8 num_arith_tbls) "arith_ac_K"
    ∷ field int "num_scans"
    ∷ field pointer "scan_info"
    ∷ field boolean "raw_data_in"
    ∷ field boolean "arith_code"
    ∷ field boolean "optimize_coding"
    ∷ field boolean "CCIR601_sampling"
    ∷ field boolean "do_fancy_downsampling"
    ∷ field int "smoothing_factor"
    ∷ field enum "dct_method"
    ∷ field unsigned "restart_interval"
    ∷ field int "restart_in_rows"
    ∷ field boolean "write_JFIF_header"
    ∷ field uint8 "JFIF_major_version"
    ∷ field uint8 "JFIF_minor_version"
    ∷ field uint8 "density_unit"
    ∷ field uint16 "X_density"
    ∷ field uint16 "Y_density"
    ∷ field boolean "write_Adobe_marker"
    ∷ field unsigned "next_scanline"
    ∷ []

-- Those that the compressor keeps.
abbrev compress_state : List Field
compress_state =
    field boolean "progressive_mode"
    ∷ field int "max_h_samp_factor"
    ∷ field int "max_v_samp_factor"
    ∷ field int "min_DCT_h_scaled_size"
    ∷ field int "min_DCT_v_scaled_size"
    ∷ field unsigned "total_iMCU_rows"
    ∷ field int "comps_in_scan"
    ∷ field (array pointer max_comps_in_scan) "cur_comp_info"
    ∷ field unsigned "MCUs_per_row"
    ∷ field unsigned "MCU_rows_in_scan"
    ∷ field int "blocks_in_MCU"
    ∷ field (array int c_max_blocks_in_mcu) "MCU_membership"
    ∷ field int "Ss"
    ∷ field int "Se"
    ∷ field int "Ah"
    ∷ field int "Al"
    ∷ field int "block_size"
    ∷ field pointer "natural_order"
    ∷ field int "lim_Se"
    ∷ field pointer "master"
    ∷ field pointer "main"
    ∷ field pointer "prep"
    ∷ field pointer "coef"
    ∷ field pointer "marker"
    ∷ field pointer "cconvert"
    ∷ field pointer "downsample"
    ∷ field pointer "fdct"
    ∷ field pointer "entropy"
    ∷ field pointer "script_space"
    ∷ field int "script_space_size"
    ∷ []

-- The fields of `struct jpeg_decompress_struct` that an application sets or reads, behind the common ones.
abbrev decompress_parameters : List Field
decompress_parameters =
    field pointer "src"
    ∷ field unsigned "image_width"
    ∷ field unsigned "image_height"
    ∷ field int "num_components"
    ∷ field enum "jpeg_color_space"
    ∷ field enum "out_color_space"
    ∷ field unsigned "scale_num"
    ∷ field unsigned "scale_denom"
    ∷ field double "output_gamma"
    ∷ field boolean "buffered_image"
    ∷ field boolean "raw_data_out"
    ∷ field enum "dct_method"
    ∷ field boolean "do_fancy_upsampling"
    ∷ field boolean "do_block_smoothing"
    ∷ field boolean "quantize_colors"
    ∷ field enum "dither_mode"
    ∷ field boolean "two_pass_quantize"
    ∷ field int "desired_number_of_colors"
    ∷ field boolean "enable_1pass_quant"
    ∷ field boolean "enable_external_quant"
    ∷ field boolean "enable_2pass_quant"
    ∷ field unsigned "output_width"
    ∷ field unsigned "output_height"
    ∷ field int "out_color_components"
    ∷ field int "output_components"
    ∷ field int "rec_outbuf_height"
    ∷ field int "actual_number_of_colors"
    ∷ field pointer "colormap"
    ∷ field unsigned "output_scanline"
    ∷ field int "input_scan_number"
    ∷ field unsigned "input_iMCU_row"
    ∷ field int "output_scan_number"
    ∷ field unsigned "output_iMCU_row"
    ∷ field pointer "coef_bits"
    ∷ []

-- Those that the decompressor keeps.
abbrev decompress_state : List Field
decompress_state =
    field (array pointer num_quant_tbls) "quant_tbl_ptrs"
    ∷ field (array pointer num_huff_tbls) "dc_huff_tbl_ptrs"
    ∷ field (array pointer num_huff_tbls) "ac_huff_tbl_ptrs"
    ∷ field int "data_precision"
    ∷ field pointer "comp_info"
    ∷ field boolean "is_baseline"
    ∷ field boolean "progressive_mode"
    ∷ field boolean "arith_code"
    ∷ field (array uint8 num_arith_tbls) "arith_dc_L"
    ∷ field (array uint8 num_arith_tbls) "arith_dc_U"
    ∷ field (array uint8 num_arith_tbls) "arith_ac_K"
    ∷ field unsigned "restart_interval"
    ∷ field boolean "saw_JFIF_marker"
    ∷ field uint8 "JFIF_major_version"
    ∷ field uint8 "JFIF_minor_version"
    ∷ field uint8 "density_unit"
    ∷ field uint16 "X_density"
    ∷ field uint16 "Y_density"
    ∷ field boolean "saw_Adobe_marker"
    ∷ field uint8 "Adobe_transform"
    ∷ field boolean "CCIR601_sampling"
    ∷ field pointer "marker_list"
    ∷ field int "max_h_samp_factor"
    ∷ field int "max_v_samp_factor"
    ∷ field int "min_DCT_h_scaled_size"
    ∷ field int "min_DCT_v_scaled_size"
    ∷ field unsigned "total_iMCU_rows"
    ∷ field pointer "sample_range_limit"
    ∷ field int "comps_in_scan"
    ∷ field (array pointer max_comps_in_scan) "cur_comp_info"
    ∷ field unsigned "MCUs_per_row"
    ∷ field unsigned "MCU_rows_in_scan"
    ∷ field int "blocks_in_MCU"
    ∷ field (array int d_max_blocks_in_mcu) "MCU_membership"
    ∷ field int "Ss"
    ∷ field int "Se"
    ∷ field int "Ah"
    ∷ field int "Al"
    ∷ field int "block_size"
    ∷ field pointer "natural_order"
    ∷ field int "lim_Se"
    ∷ field int "unread_marker"
    ∷ field pointer "master"
    ∷ field pointer "main"
    ∷ field pointer "coef"
    ∷ field pointer "post"
    ∷ field pointer "inputctl"
    ∷ field pointer "marker"
    ∷ field pointer "entropy"
    ∷ field pointer "idct"
    ∷ field pointer "upsample"
    ∷ field pointer "cconvert"
    ∷ field pointer "cquantize"
    ∷ []

-- `struct jpeg_common_struct`.
pub common_struct : List Field
common_struct = common_fields

-- `struct jpeg_compress_struct`.
pub compress_struct : List Field
compress_struct = common_fields ++ (compress_parameters ++ compress_state)

-- `struct jpeg_decompress_struct`.
pub decompress_struct : List Field
decompress_struct = common_fields ++ (decompress_parameters ++ decompress_state)
