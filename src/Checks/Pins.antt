-- ===== src/Checks/Pins.antt =====
-- scripts/hwsetup.sh and the init scripts on small inputs.
use chronos_updates.Common.{
  ℕ, ◌≤◌, ◌<◌, ◌≡◌, true, false, none, some, [], ◌∷◌, ◌++◌, arith, leb, keep, codes,
}
use chronos_updates.Hardware.{
  input, start, videos, video_setup, fbset, writes, sleeps, hwsetup, hwsetup_pins, vidorder_pins,
}
use chronos_updates.Hardware.Pins.{Pin, apply_all, pins-agree}
use chronos_updates.Hardware.Screen.{hwsetup-screen}
use chronos_updates.Network.{Found, starts_with, is_share, doopt, networking, mount_of, split_blank}
use chronos_updates.Network.Interfaces.{changes_interfaces, networking-interfaces}
use chronos_updates.Network.Options.{doopt-is_on}

-- No pin is exported.
abbrev at_boot : ℕ → Pin
at_boot n = record { exported = false; direction = some input; level = none; edge = none }

pins-agree_example : apply_all hwsetup_pins at_boot 51 ≡ apply_all vidorder_pins at_boot 51
pins-agree_example = pins-agree at_boot 51

before : (k : ℕ) → k < 3 → leb 3 k ≡ false
before k h = ground (arith, h)

after : (k : ℕ) → 3 ≤ k → leb 3 k ≡ true
after k h = ground (arith, h)

hwsetup-screen_example :
    hwsetup start (leb 3)
    ≡ (0, videos video_setup ++ (sleeps 3 ++ ((fbset ∷ []) ++ writes hwsetup_pins)))
hwsetup-screen_example = hwsetup-screen (leb 3) 3 (before, after)

-- The root and a share.
abbrev found : Found
found = record {
  ifup = true;
  mounts = codes "/dev/root / ext3 rw 0 0" ∷ codes "10.0.0.1:/v /mnt nfs rw 0 0" ∷ [];
  sysctl_conf = false;
  options = codes "ip_forward=yes" ∷ codes "syncookies=no" ∷ [];
  rp_filter = true;
  interfaces = codes "eth0" ∷ [];
  tcp_syncookies = true;
  ip_forward = true;
}

networking-interfaces_example : keep changes_interfaces (networking found (codes "stop")).1 ≡ []
unfolding is_share mount_of split_blank
networking-interfaces_example = networking-interfaces found (codes "stop")

doopt-is_on_example : doopt (codes "ip_forward") (codes "no") found.options ≡ true
unfolding starts_with
doopt-is_on_example = doopt-is_on (codes "ip_forward") (codes "no") found.options
