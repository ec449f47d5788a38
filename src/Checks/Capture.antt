-- ===== src/Checks/Capture.antt =====
-- Enumerations and structs of rootfs/usr/include/omx/omx_vfcc.h.
use chronos_updates.Abi.{Extent, four}

abbrev word : Extent
word = record { size = 4; align = four }
