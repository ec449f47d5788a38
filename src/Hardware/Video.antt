-- ===== src/Hardware/Video.antt =====
-- What the scripts do to the video devices: the modules, with the parameters that scripts/hwsetup.sh
-- and rootfs/etc/init.d/load-hd-firmware.sh load them with, and the attributes of the display.
use chronos_updates.Common.{String}

pub data Module : Type 0 where
  syslink vpss ti81xxfb ti81xxhdmi : Module
  -- These two no script loads; they need vpss.
  ti81xxvo ti81xxvin : Module

-- Those of /sys/devices/platform/vpss/display1, and `graphics0/nodes` beside it.
pub data Attribute : Type 0 where
  display_enabled display_timings display_output display_order : Attribute
  graphics_nodes : Attribute

pub data VideoAction : Type 0 where
  modprobe : Module → String → VideoAction
  rmmod : Module → VideoAction
  -- `echo TEXT > ATTRIBUTE`.
  put_attribute : Attribute → String → VideoAction

abbrev pub vpss_parameters : String
vpss_parameters = "sbufaddr=0xBFB00000 mode=dvo2:800x480@60 i2c_mode=0"

abbrev pub fb_parameters : String
fb_parameters = "vram=0:24M,1:16M,2:6M"

abbrev pub lcd_timings : String
lcd_timings = "33500,800/204/49/20,480/10/23/10,1"
