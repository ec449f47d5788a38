-- ===== src/Omx.antt =====
-- The interface of the video capture component, rootfs/usr/include/omx/omx_vfcc.h: its enumerations
-- with the values that C gives them, and the layout of its parameter structs. The types of the OMX
-- core, which is not in the repository, are parameters of the layouts.
pub mod Values
pub mod Headers
use chronos_updates.Common.{
  ℕ, ◌+◌, String, Option, none, some, List, [], ◌∷◌, ◌++◌, ◌>>=◌, if◌then◌else◌,
}
use text.Mathlib.Text.{◌==◌ as ◌=ₛ◌}
use chronos_updates.Abi.{Extent, enum, other, Field, field}

-- What an enumerator's line says of its value: nothing, a number, or an earlier enumerator.
pub data Definition : Type 0 where
  next : Definition
  at : ℕ → Definition
  same_as : String → Definition

pub record Enumerator : Type 0 where
  pub name : String
  pub definition : Definition

abbrev enumerator : String → Definition → Enumerator
enumerator n d = record { name = n; definition = d }

-- The value of an enumerator among those before it.
abbrev pub value_of : String → List (String × ℕ) → Option ℕ
value_of s [] = none
value_of s ((n, v) ∷ seen) = let earlier = value_of s seen in if n =ₛ s then some v else earlier

-- The value that a definition has after `n - 1`.
abbrev evaluate : ℕ → List (String × ℕ) → Definition → Option ℕ
evaluate n seen next = some n
evaluate n seen (at k) = some k
evaluate n seen (same_as s) = value_of s seen

-- The values of enumerators, the first of which is `n` where its line says nothing.
pub values_from : ℕ → List (String × ℕ) → List Enumerator → Option (List (String × ℕ))
values_from n seen [] = some []
values_from n seen (e ∷ es) = evaluate n seen e.definition >>= λ v.
    values_from (v + 1) ((e.name, v) ∷ seen) es >>= λ more. some ((e.name, v) ∷ more)

-- `OMX_VIDEO_CAPTURE_HWPORT_ID`.
pub hw_port_id_enumerators : List Enumerator
hw_port_id_enumerators =
    enumerator "OMX_VIDEO_CaptureHWPortUnUsed" (at 0)
    ∷ enumerator "OMX_VIDEO_CaptureHWPortVIP1_PORTA" next
    ∷ enumerator "OMX_VIDEO_CaptureHWPortVIP1_PORTB" next
    ∷ enumerator "OMX_VIDEO_CaptureHWPortVIP2_PORTA" next
    ∷ enumerator "OMX_VIDEO_CaptureHWPortVIP2_PORTB" next
    ∷ enumerator "OMX_VIDEO_CaptureHWPortALL_PORTS" next
    ∷ enumerator "OMX_VIDEO_CaptureHWPortTIExtensions" (at 0x6f000000)
    ∷ enumerator "OMX_VIDEO_CaptureHWPortVendorStartUnused" (at 0x7f000000)
    ∷ enumerator "OMX_VIDEO_CaptureHWPortMax" (at 0x7fffffff)
    ∷ []

-- `OMX_VIDEO_CAPTURE_HWPORT_CAPT_MODE`.
pub capture_mode_enumerators : List Enumerator
capture_mode_enumerators =
    enumerator "OMX_VIDEO_CaptureModeUnused" (at 0)
    ∷ enumerator "OMX_VIDEO_CaptureModeSC_NON_MUX" next
    ∷ enumerator "OMX_VIDEO_CaptureModeMC_LINE_MUX" next
    ∷ enumerator "OMX_VIDEO_CaptureModeMC_PEL_MUX" next
    ∷ enumerator "OMX_VIDEO_CaptureModeSC_DISCRETESYNC" next
    ∷ enumerator "OMX_VIDEO_CaptureModeMC_LINE_MUX_SPLIT_LINE" next
    ∷ enumerator "OMX_VIDEO_CaptureModeSC_DISCRETESYNC_ACTVID_VSYNC" next
    ∷ enumerator "OMX_VIDEO_CaptureModeSC_DISCRETESYNC_ACTVID_VBLK"
        (same_as "OMX_VIDEO_CaptureModeSC_DISCRETESYNC")
    ∷ enumerator "OMX_VIDEO_CaptureModeTIExtensions" (at 0x6f000000)
    ∷ enumerator "OMX_VIDEO_CaptureModeVendorStartUnused" (at 0x7f000000)
    ∷ enumerator "OMX_VIDEO_CaptureModeMax" (at 0x7fffffff)
    ∷ []

-- `OMX_VIDEO_CAPTURE_HWPORT_VIF_MODE`.
pub vif_mode_enumerators : List Enumerator
vif_mode_enumerators =
    enumerator "OMX_VIDEO_CaptureVifModeUnused" (at 0)
    ∷ enumerator "OMX_VIDEO_CaptureVifMode_08BIT" next
    ∷ enumerator "OMX_VIDEO_CaptureVifMode_16BIT" next
    ∷ enumerator "OMX_VIDEO_CaptureVifMode_24BIT" next
    ∷ enumerator "OMX_VIDEO_CaptureVifModeTIExtensions" (at 0x6f000000)
    ∷ enumerator "OMX_VIDEO_CaptureVifModeVendorStartUnused" (at 0x7f000000)
    ∷ enumerator "OMX_VIDEO_CaptureVifModeMax" (at 0x7fffffff)
    ∷ []

-- `OMX_VIDEO_CAPTURE_SCANTYPE`.
pub scan_type_enumerators : List Enumerator
scan_type_enumerators =
    enumerator "OMX_VIDEO_CaptureScanTypeUnused" (at 0)
    ∷ enumerator "OMX_VIDEO_CaptureScanTypeProgressive" next
    ∷ enumerator "OMX_VIDEO_CaptureScanTypeInterlaced" next
    ∷ enumerator "OMX_VIDEO_CaptureScanTypeTIExtensions" (at 0x6f000000)
    ∷ enumerator "OMX_VIDEO_CaptureScanTypeVendorStartUnused" (at 0x7f000000)
    ∷ enumerator "OMX_VIDEO_CaptureScanTypeMax" (at 0x7fffffff)
    ∷ []

-- The enumerations of the header.
pub data Enumeration : Type 0 where
  hw_port_id capture_mode vif_mode scan_type : Enumeration

pub enumerators : Enumeration → List Enumerator
unfolding hw_port_id_enumerators capture_mode_enumerators vif_mode_enumerators scan_type_enumerators
enumerators hw_port_id = hw_port_id_enumerators
enumerators capture_mode = capture_mode_enumerators
enumerators vif_mode = vif_mode_enumerators
enumerators scan_type = scan_type_enumerators

module _ (u32 version color_format omx_bool : Extent) where
  -- The fields that every struct starts with.
  unfoldable pub header_fields : List Field
  header_fields =
      field (other u32) "nSize"
      ∷ field (other version) "nVersion"
      ∷ field (other u32) "nPortIndex"
      ∷ []

  -- `OMX_PARAM_VFCC_HWPORT_PROPERTIES`.
  unfoldable hw_port_properties : List Field
  hw_port_properties =
      header_fields
      ++ (field enum "eCaptMode"
          ∷ field enum "eVifMode"
          ∷ field (other color_format) "eInColorFormat"
          ∷ field enum "eScanType"
          ∷ field (other u32) "nMaxWidth"
          ∷ field (other u32) "nMaxHeight"
          ∷ field (other u32) "nMaxChnlsPerHwPort"
          ∷ field (other omx_bool) "bFieldMerged"
          ∷ [])

  -- `OMX_PARAM_VFCC_HWPORT_ID`.
  unfoldable hw_port : List Field
  hw_port = header_fields ++ (field enum "eHwPortId" ∷ [])

  -- `OMX_PARAM_VIDEO_CAPTURE_STATS`.
  unfoldable capture_stats : List Field
  capture_stats =
      header_fields
      ++ (field (other u32) "uBufsRxdFromHWPort"
          ∷ field (other u32) "uHeightErrCnt"
          ∷ field (other u32) "uWidthErrCnt"
          ∷ field (other u32) "uTotalBufsAvail"
          ∷ field (other u32) "uLowBufsLevel"
          ∷ field (other u32) "uDroppedFrameCnt"
          ∷ [])

  -- `OMX_CONFIG_VIDEO_CAPTURE_RESET_STATS`.
  unfoldable reset_stats : List Field
  reset_stats = header_fields ++ []

  -- `OMX_CONFIG_VFCC_FRAMESKIP_INFO`.
  unfoldable frame_skip : List Field
  frame_skip = header_fields ++ (field (other u32) "frameSkipMask" ∷ [])

-- The parameter structs of the header.
pub data Struct : Type 0 where
  port_properties port capture_statistics statistics_reset skipped_frames : Struct

pub struct_fields : Extent → Extent → Extent → Extent → Struct → List Field
unfolding hw_port_properties hw_port capture_stats reset_stats frame_skip
struct_fields u v c b port_properties = hw_port_properties u v c b
struct_fields u v c b port = hw_port u v c b
struct_fields u v c b capture_statistics = capture_stats u v c b
struct_fields u v c b statistics_reset = reset_stats u v c b
struct_fields u v c b skipped_frames = frame_skip u v c b
