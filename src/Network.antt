-- ===== src/Network.antt =====
-- rootfs/etc/init.d/networking: when it configures the network interfaces and takes them down, and
-- which of the kernel's options it turns on. /proc/mounts and /etc/network/options are lists of
-- lines; a missing file of options is an empty one.
pub mod Mounts
pub mod Options
pub mod Interfaces
use chronos_updates.Common.{
  ℕ, suc, ◌+◌, Bool, true, false, not, ◌&&◌, ◌||◌, Option, none, some, List, [], ◌∷◌, ◌++◌, map,
  ◌==◌, ◌>>=◌, if◌then◌else◌, codes, same_codes, any, keep, length, drop,
}

abbrev pub Line : Type 0
Line = List ℕ

abbrev pub cons_word : ℕ → Option (Line × Line) → Option (Line × Line)
cons_word c none = none
cons_word c (some (word, rest)) = some (c ∷ word, rest)

-- `[^ ]* `: what stands before the first blank, and after it.
unfoldable pub split_blank : Line → Option (Line × Line)
split_blank [] = none
split_blank (c ∷ cs) =
    let more = split_blank cs in if c == b' ' then some ([], cs) else cons_word c more

-- The mount point and the type of a line of /proc/mounts that sed prints.
unfoldable pub mount_of : Line → Option (Line × Line)
mount_of line = split_blank line >>= λ (_, a).
    split_blank a >>= λ (point, b). split_blank b >>= λ (kind, _). some (point, kind)

-- A line that sed prints as the given text.
pub prints : Line → Line → Bool
prints text line = elim (mount_of line) [
  | none ↦ false
  | some (point, kind) ↦ same_codes (point ++ (b' ' ∷ kind)) text
]

-- A line whose type is one of `^(nfs|smbfs|ncp|coda)$`.
unfoldable pub is_share : Line → Bool
is_share line = elim (mount_of line) [
  | none ↦ false
  | some (_, kind) ↦
      same_codes kind (codes "nfs")
      || (same_codes kind (codes "smbfs")
          || (same_codes kind (codes "ncp") || same_codes kind (codes "coda")))
]

-- What the script finds: ifup, the mounts, /etc/sysctl.conf, the options, `rp_filter` of all
-- interfaces and the interfaces that have one, and the files of the other two options.
pub record Found : Type 0 where
  pub ifup : Bool
  pub mounts : List Line
  pub sysctl_conf : Bool
  pub options : List Line
  pub rp_filter : Bool
  pub interfaces : List Line
  pub tcp_syncookies : Bool
  pub ip_forward : Bool

pub data Action : Type 0 where
  say_nfs say_smb say_shares : Action
  say_protected say_failed : Action
  ifup_all ifdown_all : Action
  -- `echo 1 >` to the file of the option.
  filter_interface : Line → Action
  enable_syncookies enable_forwarding : Action
  usage : Action

-- The three tests of the mounts.
pub refusal : List Line → Option Action
refusal mounts =
    if any (prints (codes "/ nfs")) mounts
    then some say_nfs
    else if any (prints (codes "/ smbfs")) mounts
    then some say_smb
    else if any is_share mounts
    then some say_shares
    else none

unfoldable pub starts_with : Line → Line → Bool
starts_with [] line = true
starts_with (c ∷ cs) [] = false
starts_with (c ∷ cs) (d ∷ ds) = c == d && starts_with cs ds

-- The lines of grep in one word of the shell.
pub join : List Line → Line
join [] = []
join (l ∷ []) = l
join (l ∷ m ∷ ls) = l ++ (b'\n' ∷ join (m ∷ ls))

-- `optval`, of what grep finds.
pub optval : Line → Line → Line → Line
optval name default [] = default
optval name default (c ∷ cs) = drop (length name + 1) (c ∷ cs)

-- `doopt`: whether the option is turned on.
pub doopt : Line → Line → List Line → Bool
doopt name default options =
    let opt = join (keep (starts_with (name ++ codes "=")) options) in
    same_codes (optval name default opt) (codes "yes")

pub spoofprotect : Found → List Action
spoofprotect f =
    if f.rp_filter
    then map filter_interface f.interfaces ++ (say_protected ∷ [])
    else say_failed ∷ []

pub syncookies : Found → List Action
syncookies f = if f.tcp_syncookies then enable_syncookies ∷ [] else []

pub forward : Found → List Action
forward f = if f.ip_forward then enable_forwarding ∷ [] else []

abbrev pub when : Bool → List Action → List Action
when true l = l
when false l = []

pub kernel_options : Found → List Action
kernel_options f =
    when (doopt (codes "spoofprotect") (codes "yes") f.options) (spoofprotect f)
    ++ (when (doopt (codes "syncookies") (codes "no") f.options) (syncookies f)
        ++ when (doopt (codes "ip_forward") (codes "no") f.options) (forward f))

pub start : Found → List Action
start f = elim (refusal f.mounts) [
  | some said ↦ said ∷ []
  | none ↦ ifup_all ∷ (if f.sysctl_conf then [] else kernel_options f)
]

pub stop : Found → List Action
stop f = elim (refusal f.mounts) [ some said ↦ said ∷ [] | none ↦ ifdown_all ∷ [] ]

abbrev pub restart : List Action
restart = ifdown_all ∷ ifup_all ∷ []

-- The `case` on the argument.
pub on_argument : Found → Line → ℕ × List Action
on_argument f argument =
    if same_codes argument (codes "start")
    then (0, start f)
    else if same_codes argument (codes "stop")
    then (0, stop f)
    else if same_codes argument (codes "force-reload") || same_codes argument (codes "restart")
    then (0, restart)
    else (1, usage ∷ [])

-- The script on its argument: its exit status, and what it does.
pub networking : Found → Line → ℕ × List Action
networking f argument = if f.ifup then on_argument f argument else (0, [])
