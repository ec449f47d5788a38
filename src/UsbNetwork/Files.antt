-- ===== src/UsbNetwork/Files.antt =====
-- The files that scripts/hooks/download-networking.sh writes in the image, by their lines.
use chronos_updates.Common.{
  ℕ, Option, none, some, List, [], ◌∷◌, ◌++◌, ◌==◌, map, codes, if◌then◌else◌,
}
use chronos_updates.UsbNetwork.{
  usb_address, usb_netmask, lease_start, lease_end, loopback, text, address, comment_out,
}

pub data HookFile : Type 0 where
  hostname persistent_net_generator interfaces udhcpd_conf resolv_conf : HookFile
  modules default_udhcpd sshd_config : HookFile

abbrev file_number : HookFile → ℕ
file_number hostname = 0
file_number persistent_net_generator = 1
file_number interfaces = 2
file_number udhcpd_conf = 3
file_number resolv_conf = 4
file_number modules = 5
file_number default_udhcpd = 6
file_number sshd_config = 7

abbrev pub Lines : Type 0
Lines = List (List ℕ)

pub data Command : Type 0 where
  -- `echo` and `cat` with `>` and `>>`, touch, and `sed -i` with the substitution.
  overwrite append : HookFile → Lines → Command
  touch sed : HookFile → Command

abbrev interfaces_lines : Lines
interfaces_lines =
    codes "## Loopback interface"
    ∷ codes "auto lo"
    ∷ codes "iface lo inet loopback"
    ∷ []
    ∷ codes "## Ethernet/RNDIS gadget"
    ∷ codes "auto usb0"
    ∷ codes "iface usb0 inet static"
    ∷ (codes "\taddress " ++ text usb_address)
    ∷ (codes "\tnetmask " ++ text usb_netmask)
    ∷ []

abbrev udhcpd_lines : Lines
udhcpd_lines =
    codes "## udhcpd configuration file (/etc/udhcpd.conf) for local USB networking"
    ∷ []
    ∷ codes "# The start and end of the IP lease block"
    ∷ (codes "start\t\t\t" ++ text lease_start)
    ∷ (codes "end\t\t\t\t" ++ text lease_end)
    ∷ (codes "option subnet\t" ++ text usb_netmask)
    ∷ []
    ∷ codes "# The interface that udhcpd will use"
    ∷ codes "interface\t\tusb0"
    ∷ []

abbrev pub sshd_lines : Lines
sshd_lines =
    []
    ∷ codes "# Permit local root login via USB"
    ∷ (codes "Match Address 192.168.12.*," ++ (text loopback ++ codes ",::1"))
    ∷ codes "\tPermitRootLogin yes"
    ∷ []
    ∷ []

-- The hook.
abbrev pub networking_hook : List Command
networking_hook =
    overwrite hostname (codes "chronos" ∷ [])
    ∷ touch persistent_net_generator
    ∷ overwrite interfaces interfaces_lines
    ∷ overwrite udhcpd_conf udhcpd_lines
    ∷ overwrite resolv_conf (
        (codes "nameserver " ++ text (address 8 8 8 8))
        ∷ (codes "nameserver " ++ text (address 8 8 4 4))
        ∷ [])
    ∷ append modules (codes "g_ether" ∷ [])
    ∷ sed default_udhcpd
    ∷ append sshd_config sshd_lines
    ∷ []

abbrev pub Files : Type 0
Files = HookFile → Option Lines

abbrev file_of : Command → HookFile
file_of (overwrite f ls) = f
file_of (append f ls) = f
file_of (touch f) = f
file_of (sed f) = f

-- The lines of the command's file after it, where it had some or was not there; sed does not make a
-- file.
abbrev pub written : Command → Option Lines → Option Lines
written (overwrite f ls) old = some ls
written (append f ls) none = some ls
written (append f ls) (some old) = some (old ++ ls)
written (touch f) none = some []
written (touch f) (some old) = some old
written (sed f) none = none
written (sed f) (some old) = some (map comment_out old)

unfoldable pub run : List Command → Files → Files
run [] s = s
run (c ∷ cs) s =
    run cs (λ f. if file_number (file_of c) == file_number f then written c (s f) else s f)
