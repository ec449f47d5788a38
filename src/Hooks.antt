-- ===== src/Hooks.antt =====
-- scripts/hooks/completion-dpkg-configure.sh, which multistrap runs to configure the packages of a
-- new system: what it puts into the system for that time and takes away when it exits. The commands
-- that it runs in the system are a parameter.
pub mod Cleanup
pub mod Chroot
use chronos_updates.Common.{
  ℕ, Bool, true, false, Option, none, some, List, [], ◌∷◌, ◌++◌, if◌then◌else◌, codes,
}
use chronos_updates.Image.{File}

pub data Mount : Type 0 where
  uboot dev sys proc : Mount

-- The files of the system that the script names, the others, and what is mounted in it, the last
-- mount first.
pub record System : Type 0 where
  pub ischroot : Option File
  pub ischroot_saved : Option File
  pub bin_true : Option File
  pub policy : Option File
  pub qemu : Option File
  pub hwsetup : Option File
  pub others : List ℕ → Option File
  pub mounts : List Mount

-- `QEMU`, the emulator where the host is no ARM and has one; whether `BOOTPART` is given; what the
-- commands in the system do, and the last of them, which registers hwsetup.sh; and hwsetup.sh.
pub record Setting : Type 0 where
  pub emulator : Option File
  pub has_bootpart : Bool
  pub configure : System → System
  pub register : System → System
  pub script : Option File

-- `mv ischroot ischroot.debianutils`, which fails where there is no such file.
abbrev pub save_ischroot : Option File → System → System
save_ischroot none s = s
save_ischroot (some f) s = record s { ischroot = none; ischroot_saved = some f }

-- `mv ischroot.debianutils ischroot`.
abbrev pub restore_ischroot : Option File → System → System
restore_ischroot none s = s
restore_ischroot (some f) s = record s { ischroot = some f; ischroot_saved = none }

-- `cp`, which leaves its target where there is nothing to copy.
abbrev pub copy : Option File → Option File → Option File
copy none target = target
copy (some f) target = some f

abbrev policy_script : File
policy_script = codes "#!/bin/sh\nexit 101\n"

abbrev same_mount : Mount → Mount → Bool
same_mount uboot uboot = true
same_mount dev dev = true
same_mount sys sys = true
same_mount proc proc = true
same_mount _ _ = false

-- `umount -l`: the last mount at the place.
abbrev pub unmount : Mount → List Mount → List Mount
unmount m [] = []
unmount m (n ∷ ms) = if same_mount m n then ms else n ∷ unmount m ms

abbrev pub mount_boot : Bool → List Mount → List Mount
mount_boot true ms = uboot ∷ ms
mount_boot false ms = ms

abbrev pub unmount_boot : Bool → List Mount → List Mount
unmount_boot true ms = unmount uboot ms
unmount_boot false ms = ms

-- Up to the trap.
pub prepare : Setting → System → System
prepare c s =
    let saved = save_ischroot s.ischroot (record s { policy = some policy_script }) in
    record saved {
      ischroot = copy saved.bin_true saved.ischroot;
      qemu = copy c.emulator saved.qemu;
      mounts = proc ∷ sys ∷ dev ∷ mount_boot c.has_bootpart saved.mounts;
    }

-- The commands in the system, and the copy of hwsetup.sh.
pub configured : Setting → System → System
configured c s =
    let t = c.configure s in c.register (record t { hwsetup = copy c.script t.hwsetup })

-- `atexit`.
pub atexit : Setting → System → System
atexit c s = restore_ischroot s.ischroot_saved (record s {
  mounts = unmount_boot c.has_bootpart (unmount proc (unmount sys (unmount dev s.mounts)));
  qemu = elim c.emulator [ none ↦ s.qemu | some _ ↦ none ];
  policy = none;
  ischroot = none;
})

-- The whole script.
pub hook : Setting → System → System
hook c s = atexit c (configured c (prepare c s))
