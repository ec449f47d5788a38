-- ===== src/Jpeg/Messages.antt =====
-- The message codes and texts of rootfs/usr/include/jerror.h. The header is read twice: once for
-- the enumeration of the codes, and once for the table of the texts, both from this list. The
-- texts JCOPYRIGHT and JVERSION come from jversion.h, which is not in the repository.
pub mod Formats
pub mod Codes
use chronos_updates.Common.{String, List, [], ◌∷◌, ◌++◌}

-- `JMESSAGE(code, string)`.
pub record JMessage : Type 0 where
  pub code : String
  pub text : String

abbrev pub jmessage : String → String → JMessage
jmessage c t = record { code = c; text = t }

pub error_messages : List JMessage
error_messages =
    jmessage "JERR_BAD_ALIGN_TYPE" "ALIGN_TYPE is wrong, please fix"
    ∷ jmessage "JERR_BAD_ALLOC_CHUNK" "MAX_ALLOC_CHUNK is wrong, please fix"
    ∷ jmessage "JERR_BAD_BUFFER_MODE" "Bogus buffer control mode"
    ∷ jmessage "JERR_BAD_COMPONENT_ID" "Invalid component ID %d in SOS"
    ∷ jmessage "JERR_BAD_CROP_SPEC" "Invalid crop request"
    ∷ jmessage "JERR_BAD_DCT_COEF" "DCT coefficient out of range"
    ∷ jmessage "JERR_BAD_DCTSIZE" "DCT scaled block size %dx%d not supported"
    ∷ jmessage "JERR_BAD_DROP_SAMPLING"
        "Component index %d: mismatching sampling ratio %d:%d, %d:%d, %c"
    ∷ jmessage "JERR_BAD_HUFF_TABLE" "Bogus Huffman table definition"
    ∷ jmessage "JERR_BAD_IN_COLORSPACE" "Bogus input colorspace"
    ∷ jmessage "JERR_BAD_J_COLORSPACE" "Bogus JPEG colorspace"
    ∷ jmessage "JERR_BAD_LENGTH" "Bogus marker length"
    ∷ jmessage "JERR_BAD_LIB_VERSION" "Wrong JPEG library version: library is %d, caller expects %d"
    ∷ jmessage "JERR_BAD_MCU_SIZE" "Sampling factors too large for interleaved scan"
    ∷ jmessage "JERR_BAD_POOL_ID" "Invalid memory pool code %d"
    ∷ jmessage "JERR_BAD_PRECISION" "Unsupported JPEG data precision %d"
    ∷ jmessage "JERR_BAD_PROGRESSION" "Invalid progressive parameters Ss=%d Se=%d Ah=%d Al=%d"
    ∷ jmessage "JERR_BAD_PROG_SCRIPT" "Invalid progressive parameters at scan script entry %d"
    ∷ jmessage "JERR_BAD_SAMPLING" "Bogus sampling factors"
    ∷ jmessage "JERR_BAD_SCAN_SCRIPT" "Invalid scan script at entry %d"
    ∷ jmessage "JERR_BAD_STATE" "Improper call to JPEG library in state %d"
    ∷ jmessage "JERR_BAD_STRUCT_SIZE"
        "JPEG parameter struct mismatch: library thinks size is %u, caller expects %u"
    ∷ jmessage "JERR_BAD_VIRTUAL_ACCESS" "Bogus virtual array access"
    ∷ jmessage "JERR_BUFFER_SIZE" "Buffer passed to JPEG library is too small"
    ∷ jmessage "JERR_CANT_SUSPEND" "Suspension not allowed here"
    ∷ jmessage "JERR_CCIR601_NOTIMPL" "CCIR601 sampling not implemented yet"
    ∷ jmessage "JERR_COMPONENT_COUNT" "Too many color components: %d, max %d"
    ∷ jmessage "JERR_CONVERSION_NOTIMPL" "Unsupported color conversion request"
    ∷ jmessage "JERR_DAC_INDEX" "Bogus DAC index %d"
    ∷ jmessage "JERR_DAC_VALUE" "Bogus DAC value 0x%x"
    ∷ jmessage "JERR_DHT_INDEX" "Bogus DHT index %d"
    ∷ jmessage "JERR_DQT_INDEX" "Bogus DQT index %d"
    ∷ jmessage "JERR_EMPTY_IMAGE" "Empty JPEG image (DNL not supported)"
    ∷ jmessage "JERR_EMS_READ" "Read from EMS failed"
    ∷ jmessage "JERR_EMS_WRITE" "Write to EMS failed"
    ∷ jmessage "JERR_EOI_EXPECTED" "Didn't expect more than one scan"
    ∷ jmessage "JERR_FILE_READ" "Input file read error"
    ∷ jmessage "JERR_FILE_WRITE" "Output file write error --- out of disk space?"
    ∷ jmessage "JERR_FRACT_SAMPLE_NOTIMPL" "Fractional sampling not implemented yet"
    ∷ jmessage "JERR_HUFF_CLEN_OVERFLOW" "Huffman code size table overflow"
    ∷ jmessage "JERR_HUFF_MISSING_CODE" "Missing Huffman code table entry"
    ∷ jmessage "JERR_IMAGE_TOO_BIG" "Maximum supported image dimension is %u pixels"
    ∷ jmessage "JERR_INPUT_EMPTY" "Empty input file"
    ∷ jmessage "JERR_INPUT_EOF" "Premature end of input file"
    ∷ jmessage "JERR_MISMATCHED_QUANT_TABLE"
        "Cannot transcode due to multiple use of quantization table %d"
    ∷ jmessage "JERR_MISSING_DATA" "Scan script does not transmit all data"
    ∷ jmessage "JERR_MODE_CHANGE" "Invalid color quantization mode change"
    ∷ jmessage "JERR_NOTIMPL" "Not implemented yet"
    ∷ jmessage "JERR_NOT_COMPILED" "Requested feature was omitted at compile time"
    ∷ jmessage "JERR_NO_ARITH_TABLE" "Arithmetic table 0x%02x was not defined"
    ∷ jmessage "JERR_NO_BACKING_STORE" "Backing store not supported"
    ∷ jmessage "JERR_NO_HUFF_TABLE" "Huffman table 0x%02x was not defined"
    ∷ jmessage "JERR_NO_IMAGE" "JPEG datastream contains no image"
    ∷ jmessage "JERR_NO_QUANT_TABLE" "Quantization table 0x%02x was not defined"
    ∷ jmessage "JERR_NO_SOI" "Not a JPEG file: starts with 0x%02x 0x%02x"
    ∷ jmessage "JERR_OUT_OF_MEMORY" "Insufficient memory (case %d)"
    ∷ jmessage "JERR_QUANT_COMPONENTS" "Cannot quantize more than %d color components"
    ∷ jmessage "JERR_QUANT_FEW_COLORS" "Cannot quantize to fewer than %d colors"
    ∷ jmessage "JERR_QUANT_MANY_COLORS" "Cannot quantize to more than %d colors"
    ∷ jmessage "JERR_SOF_DUPLICATE" "Invalid JPEG file structure: two SOF markers"
    ∷ jmessage "JERR_SOF_NO_SOS" "Invalid JPEG file structure: missing SOS marker"
    ∷ jmessage "JERR_SOF_UNSUPPORTED" "Unsupported JPEG process: SOF type 0x%02x"
    ∷ jmessage "JERR_SOI_DUPLICATE" "Invalid JPEG file structure: two SOI markers"
    ∷ jmessage "JERR_SOS_NO_SOF" "Invalid JPEG file structure: SOS before SOF"
    ∷ jmessage "JERR_TFILE_CREATE" "Failed to create temporary file %s"
    ∷ jmessage "JERR_TFILE_READ" "Read failed on temporary file"
    ∷ jmessage "JERR_TFILE_SEEK" "Seek failed on temporary file"
    ∷ jmessage "JERR_TFILE_WRITE" "Write failed on temporary file --- out of disk space?"
    ∷ jmessage "JERR_TOO_LITTLE_DATA" "Application transferred too few scanlines"
    ∷ jmessage "JERR_UNKNOWN_MARKER" "Unsupported marker type 0x%02x"
    ∷ jmessage "JERR_VIRTUAL_BUG" "Virtual array controller messed up"
    ∷ jmessage "JERR_WIDTH_OVERFLOW" "Image too wide for this implementation"
    ∷ jmessage "JERR_XMS_READ" "Read from XMS failed"
    ∷ jmessage "JERR_XMS_WRITE" "Write to XMS failed"
    ∷ []

pub trace_messages : List JMessage
trace_messages =
    jmessage "JTRC_16BIT_TABLES" "Caution: quantization tables are too coarse for baseline JPEG"
    ∷ jmessage "JTRC_ADOBE" "Adobe APP14 marker: version %d, flags 0x%04x 0x%04x, transform %d"
    ∷ jmessage "JTRC_APP0" "Unknown APP0 marker (not JFIF), length %u"
    ∷ jmessage "JTRC_APP14" "Unknown APP14 marker (not Adobe), length %u"
    ∷ jmessage "JTRC_DAC" "Define Arithmetic Table 0x%02x: 0x%02x"
    ∷ jmessage "JTRC_DHT" "Define Huffman Table 0x%02x"
    ∷ jmessage "JTRC_DQT" "Define Quantization Table %d  precision %d"
    ∷ jmessage "JTRC_DRI" "Define Restart Interval %u"
    ∷ jmessage "JTRC_EMS_CLOSE" "Freed EMS handle %u"
    ∷ jmessage "JTRC_EMS_OPEN" "Obtained EMS handle %u"
    ∷ jmessage "JTRC_EOI" "End Of Image"
    ∷ jmessage "JTRC_HUFFBITS" "        %3d %3d %3d %3d %3d %3d %3d %3d"
    ∷ jmessage "JTRC_JFIF" "JFIF APP0 marker: version %d.%02d, density %dx%d  %d"
    ∷ jmessage "JTRC_JFIF_BADTHUMBNAILSIZE"
        "Warning: thumbnail image size does not match data length %u"
    ∷ jmessage "JTRC_JFIF_EXTENSION" "JFIF extension marker: type 0x%02x, length %u"
    ∷ jmessage "JTRC_JFIF_THUMBNAIL" "    with %d x %d thumbnail image"
    ∷ jmessage "JTRC_MISC_MARKER" "Miscellaneous marker 0x%02x, length %u"
    ∷ jmessage "JTRC_PARMLESS_MARKER" "Unexpected marker 0x%02x"
    ∷ jmessage "JTRC_QUANTVALS" "        %4u %4u %4u %4u %4u %4u %4u %4u"
    ∷ jmessage "JTRC_QUANT_3_NCOLORS" "Quantizing to %d = %d*%d*%d colors"
    ∷ jmessage "JTRC_QUANT_NCOLORS" "Quantizing to %d colors"
    ∷ jmessage "JTRC_QUANT_SELECTED" "Selected %d colors for quantization"
    ∷ jmessage "JTRC_RECOVERY_ACTION" "At marker 0x%02x, recovery action %d"
    ∷ jmessage "JTRC_RST" "RST%d"
    ∷ jmessage "JTRC_SMOOTH_NOTIMPL" "Smoothing not supported with nonstandard sampling ratios"
    ∷ jmessage "JTRC_SOF" "Start Of Frame 0x%02x: width=%u, height=%u, components=%d"
    ∷ jmessage "JTRC_SOF_COMPONENT" "    Component %d: %dhx%dv q=%d"
    ∷ jmessage "JTRC_SOI" "Start of Image"
    ∷ jmessage "JTRC_SOS" "Start Of Scan: %d components"
    ∷ jmessage "JTRC_SOS_COMPONENT" "    Component %d: dc=%d ac=%d"
    ∷ jmessage "JTRC_SOS_PARAMS" "  Ss=%d, Se=%d, Ah=%d, Al=%d"
    ∷ jmessage "JTRC_TFILE_CLOSE" "Closed temporary file %s"
    ∷ jmessage "JTRC_TFILE_OPEN" "Opened temporary file %s"
    ∷ jmessage "JTRC_THUMB_JPEG" "JFIF extension marker: JPEG-compressed thumbnail image, length %u"
    ∷ jmessage "JTRC_THUMB_PALETTE" "JFIF extension marker: palette thumbnail image, length %u"
    ∷ jmessage "JTRC_THUMB_RGB" "JFIF extension marker: RGB thumbnail image, length %u"
    ∷ jmessage "JTRC_UNKNOWN_IDS" "Unrecognized component IDs %d %d %d, assuming YCbCr"
    ∷ jmessage "JTRC_XMS_CLOSE" "Freed XMS handle %u"
    ∷ jmessage "JTRC_XMS_OPEN" "Obtained XMS handle %u"
    ∷ []

pub warning_messages : List JMessage
warning_messages =
    jmessage "JWRN_ADOBE_XFORM" "Unknown Adobe color transform code %d"
    ∷ jmessage "JWRN_ARITH_BAD_CODE" "Corrupt JPEG data: bad arithmetic code"
    ∷ jmessage "JWRN_BOGUS_PROGRESSION"
        "Inconsistent progression sequence for component %d coefficient %d"
    ∷ jmessage "JWRN_EXTRANEOUS_DATA" "Corrupt JPEG data: %u extraneous bytes before marker 0x%02x"
    ∷ jmessage "JWRN_HIT_MARKER" "Corrupt JPEG data: premature end of data segment"
    ∷ jmessage "JWRN_HUFF_BAD_CODE" "Corrupt JPEG data: bad Huffman code"
    ∷ jmessage "JWRN_JFIF_MAJOR" "Warning: unknown JFIF revision number %d.%02d"
    ∷ jmessage "JWRN_JPEG_EOF" "Premature end of JPEG file"
    ∷ jmessage "JWRN_MUST_RESYNC" "Corrupt JPEG data: found marker 0x%02x instead of RST%d"
    ∷ jmessage "JWRN_NOT_SEQUENTIAL" "Invalid SOS parameters for sequential JPEG"
    ∷ jmessage "JWRN_TOO_MUCH_DATA" "Application transferred too many scanlines"
    ∷ []

-- All entries, in the order of the header.
pub jmessages : String → String → List JMessage
jmessages jcopyright jversion =
    jmessage "JMSG_NOMESSAGE" "Bogus message code %d"
    ∷ (error_messages
        ++ (jmessage "JMSG_COPYRIGHT" jcopyright
            ∷ jmessage "JMSG_VERSION" jversion
            ∷ (trace_messages ++ warning_messages)))
