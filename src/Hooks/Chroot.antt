-- ===== src/Hooks/Chroot.antt =====
-- scripts/chronos-chroot.sh, which enters the system by hand: what it puts into it, and what it
-- takes away when the session ends. The session is a parameter.
pub mod Session
use chronos_updates.Common.{Option, none, some, ◌∷◌}
use chronos_updates.Image.{File}
use chronos_updates.Hooks.{System, dev, save_ischroot, restore_ischroot, copy, unmount}

-- Up to the trap, with `qemu-arm-static` of the host, if it has one.
pub enter : Option File → System → System
enter emulator s =
    let saved = save_ischroot s.ischroot s in
    record saved {
      ischroot = copy saved.bin_true saved.ischroot;
      qemu = copy emulator saved.qemu;
      mounts = dev ∷ saved.mounts;
    }

-- `atexit`.
pub leave : System → System
leave s =
    let back = restore_ischroot s.ischroot_saved (record s { ischroot = none }) in
    record back { mounts = unmount dev back.mounts }

-- The whole script.
pub chroot : Option File → (System → System) → System → System
chroot emulator session s = leave (session (enter emulator s))
