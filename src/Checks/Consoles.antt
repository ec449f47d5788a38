-- ===== src/Checks/Consoles.antt =====
-- The hooks of the console and a session in a system, on small inputs.
use chronos_updates.Common.{◌≡◌, refl, true, none, some, [], ◌∷◌, codes, same_codes, if◌then◌else◌}
use chronos_updates.Console.{
  Host, plain, expand, bashrc, apt_hook, backports_source, fstab, fstab_source, getty_line,
  ConsoleFiles, console_hook, contains,
}
use chronos_updates.Network.{starts_with}
use chronos_updates.Console.Expansion.{hooks-expand}
use chronos_updates.Console.Terminals.{lists, terminals-listed}
use chronos_updates.Hooks.{System}
use chronos_updates.Hooks.Chroot.{enter, chroot}
use chronos_updates.Hooks.Chroot.Session.{chroot-leaves}
use chronos_updates.Checks.Hooks.{system}

-- An environment with a suite, and a dircolors that prints a short text.
abbrev host : Host
host = record {
  variable = λ n. if same_codes n (codes "SUITE") then codes "voyager" else [];
  output = λ c. codes "LS_COLORS='';";
}

hooks-expand_example :
    (expand host plain (codes "auto usb0") ≡ codes "auto usb0")
    × (bashrc host
        ≡ codes "export LS_OPTIONS='--color=auto'\neval \"LS_COLORS='';\"\nalias ls='ls '\n")
    × ((apt_hook host).debian_list
        ≡ codes "deb http://debian.krontech.ca/apt/debian/ voyager main\n")
    × ((apt_hook host).backports_list ≡ backports_source)
    × (fstab host ≡ fstab_source)
hooks-expand_example = hooks-expand host (codes "auto usb0") refl

-- A serial terminal is listed.
abbrev before : ConsoleFiles
before = record { inittab = []; securetty = codes "tty1" ∷ codes "ttyO3" ∷ []; root_bashrc = [] }

terminals-listed_example :
    (lists (codes "ttyO4") (console_hook host before).securetty ≡ true)
    × ((console_hook host before).inittab ≡ getty_line ∷ [])
unfolding contains starts_with
terminals-listed_example = terminals-listed host before (codes "ttyO4")

abbrev session : System → System
session s = record s { others = λ n. some n }

chroot-leaves_example :
    ((chroot (some (9 ∷ [])) session system).ischroot ≡ some (1 ∷ []))
    × ((chroot (some (9 ∷ [])) session system).ischroot_saved ≡ none)
    × ((chroot (some (9 ∷ [])) session system).mounts ≡ system.mounts)
    × ((chroot (some (9 ∷ [])) session system).qemu ≡ (session (enter (some (9 ∷ [])) system)).qemu)
    × ((enter (some (9 ∷ [])) system).qemu ≡ some (9 ∷ []))
chroot-leaves_example = chroot-leaves (some (9 ∷ [])) session system ((λ s. refl), (λ s. refl)) refl
