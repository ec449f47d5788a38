-- ===== src/Checks/Configs.antt =====
-- A compiler without unsigned characters whose plain char is signed.
use chronos_updates.Common.{◌≡◌, true, false, arith}
use chronos_updates.Common.Int.{pos}
use chronos_updates.Jpeg.Config.{
  Machine, Config, stored, jsample, getjsample, joctet, getjoctet, max_jsample,
}
use chronos_updates.Jpeg.Config.Samples.{samples-read}

abbrev machine : Machine
machine = record {
  char_extra = 0;
  short_extra = 0;
  int_extra = 16;
  long_extra = 0;
  char_signed = true;
}

abbrev config : Config
config = record {
  twelve_bits = false;
  have_unsigned_char = false;
  char_is_unsigned = false;
  have_unsigned_short = true;
  xmd_h = false;
  basetsd_h_ = false;
  basetsd_h = false;
  qglobal_h = true;
}

samples-read_example :
    (getjsample config (stored machine (jsample config) 200) ≡ pos 200)
    × (getjoctet config (stored machine (joctet config) 255) ≡ pos 255)
unfolding max_jsample
samples-read_example = samples-read machine config 200 255 (λ e. cc) (omega arith) (omega arith)
