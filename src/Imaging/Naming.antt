-- ===== src/Imaging/Naming.antt =====
-- Under which name scripts/mksd-image.sh leaves the image.
use chronos_updates.Common.{false, Bool}
use chronos_updates.Image.{Packer, cat}
use chronos_updates.Imaging.{Name, Compressor, Suffix, gz, bz2, plain}

-- The program that unpacks a file with the suffix.
abbrev unpacker : Compressor → Compressor → Suffix → Packer
unpacker gzip bzip2 gz = gzip.packer
unpacker gzip bzip2 bz2 = bzip2.packer
unpacker gzip bzip2 plain = cat

-- Whether the program that is to pack the image refuses its name.
abbrev pub refused : Compressor → Compressor → Suffix → Name → Bool
refused gzip bzip2 gz image = gzip.refuses image
refused gzip bzip2 bz2 image = bzip2.refuses image
refused gzip bzip2 plain image = false
