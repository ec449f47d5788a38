-- ===== src/Checks/Jpeg.antt =====
-- Macros and structs of rootfs/usr/include/jerror.h and rootfs/usr/include/jpeglib.h.
use chronos_updates.Common.{ℕ, List, [], ◌∷◌}
use chronos_updates.Jpeg.Report.{ErrorMgr}
use chronos_updates.Jpeg.Report.Macros.{Macro}

-- `jpeg_std_error` fills in more than the macros use; here, an empty table.
abbrev err : ErrorMgr
err = record {
  msg_code = 0;
  msg_parm = λ q. 0;
  trace_level = 2;
  num_warnings = 1;
  jpeg_message_table = [];
  last_jpeg_message = 0;
  addon_message_table = [];
  first_addon_message = 0;
  last_addon_message = 0;
}

abbrev bad_sizes : Macro
bad_sizes = Macro.errexit2 7 8 9

abbrev name : List ℕ
name = b'a' ∷ b'b' ∷ []
