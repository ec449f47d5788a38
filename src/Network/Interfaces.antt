-- ===== src/Network/Interfaces.antt =====
-- When rootfs/etc/init.d/networking configures the interfaces and takes them down.
use chronos_updates.Common.{
  ℕ, ◌≡◌, refl, sym, ap, ◌∙◌, Bool, true, false, ◌||◌, List, [], ◌∷◌, ◌++◌, map, codes, same_codes,
  any, keep, keep-append, if◌then◌else◌, if-true, if-false, Bool-cases, inl, inr,
}
use chronos_updates.Network.{
  Line, is_share, Found, Action, say_nfs, say_smb, say_shares, ifup_all, ifdown_all,
  filter_interface, say_protected, doopt, when, syncookies, forward, spoofprotect, kernel_options,
  start, stop, on_argument, networking,
}
use chronos_updates.Network.Mounts.{says_refusal, refusal-share, refusal-some}

abbrev pub changes_interfaces : Action → Bool
changes_interfaces ifup_all = true
changes_interfaces ifdown_all = true
changes_interfaces _ = false

-- What is to be done to the interfaces on an argument, where shares are mounted or not.
abbrev interface_changes : Bool → Line → List Action
interface_changes shared argument =
    if same_codes argument (codes "start")
    then (if shared then [] else ifup_all ∷ [])
    else if same_codes argument (codes "stop")
    then (if shared then [] else ifdown_all ∷ [])
    else if same_codes argument (codes "force-reload") || same_codes argument (codes "restart")
    then ifdown_all ∷ ifup_all ∷ []
    else []

filters-keep : (l : List Line) → keep changes_interfaces (map filter_interface l) ≡ []
filters-keep [] = refl
filters-keep (i ∷ l) = filters-keep l

abbrev Quiet : List Action → Type 0
Quiet l = keep changes_interfaces l ≡ []

spoofprotect-keep : (f : Found) → Quiet (spoofprotect f)
unfolding spoofprotect
spoofprotect-keep f = elim (Bool-cases f.rp_filter) [
  | inl e ↦ rw e (
      keep-append changes_interfaces (map filter_interface f.interfaces) (say_protected ∷ [])
      ∙ rw (filters-keep f.interfaces) refl)
  | inr e ↦ rw e refl
]

Quiet-append : (k l : List Action) → Quiet k → Quiet l → Quiet (k ++ l)
Quiet-append k l h g = keep-append changes_interfaces k l ∙ rw (h, g) refl

Quiet-when : (b : Bool) (l : List Action) → Quiet l → Quiet (when b l)
Quiet-when true l h = h
Quiet-when false l h = refl

syncookies-keep : (f : Found) → Quiet (syncookies f)
unfolding syncookies
syncookies-keep f = elim (Bool-cases f.tcp_syncookies) [ inl e ↦ rw e refl | inr e ↦ rw e refl ]

forward-keep : (f : Found) → Quiet (forward f)
unfolding forward
forward-keep f = elim (Bool-cases f.ip_forward) [ inl e ↦ rw e refl | inr e ↦ rw e refl ]

kernel_options-keep : (f : Found) → Quiet (kernel_options f)
unfolding kernel_options
kernel_options-keep f =
    let spoof = doopt (codes "spoofprotect") (codes "yes") f.options in
    let cookies = doopt (codes "syncookies") (codes "no") f.options in
    let forwarding = doopt (codes "ip_forward") (codes "no") f.options in
    Quiet-append (when spoof (spoofprotect f))
      (when cookies (syncookies f) ++ when forwarding (forward f))
      (Quiet-when spoof (spoofprotect f) (spoofprotect-keep f))
      (Quiet-append (when cookies (syncookies f)) (when forwarding (forward f))
        (Quiet-when cookies (syncookies f) (syncookies-keep f))
        (Quiet-when forwarding (forward f) (forward-keep f)))

said-keep : (said : Action) → says_refusal said ≡ true → Quiet (said ∷ [])
said-keep say_nfs h = refl
said-keep say_smb h = refl
said-keep say_shares h = refl
said-keep ifup_all h = cc
said-keep ifdown_all h = cc
said-keep _ h = refl

unless-keep : (b : Bool) (l : List Action) → Quiet l → Quiet (if b then [] else l)
unless-keep true l h = refl
unless-keep false l h = h

start-keep :
    (f : Found)
    → keep changes_interfaces (start f) ≡ (if any is_share f.mounts then [] else ifup_all ∷ [])
unfolding start
start-keep f = elim (Bool-cases (any is_share f.mounts)) [
  | inl e ↦ let (said, r, q) = refusal-some f.mounts e in rw (r, e, start) (said-keep said q)
  | inr e ↦
      rw (refusal-share f.mounts e, e, start)
        (ap (λ l. ifup_all ∷ l)
          (unless-keep f.sysctl_conf (kernel_options f) (kernel_options-keep f)))
]

stop-keep :
    (f : Found)
    → keep changes_interfaces (stop f) ≡ (if any is_share f.mounts then [] else ifdown_all ∷ [])
unfolding stop
stop-keep f = elim (Bool-cases (any is_share f.mounts)) [
  | inl e ↦ let (said, r, q) = refusal-some f.mounts e in rw (r, e, stop) (said-keep said q)
  | inr e ↦ rw (refusal-share f.mounts e, e, stop) refl
]

on_argument-keep :
    (f : Found) (argument : Line)
    → keep changes_interfaces (on_argument f argument).1
      ≡ interface_changes (any is_share f.mounts) argument
unfolding on_argument
on_argument-keep f argument = elim (Bool-cases (same_codes argument (codes "start"))) [
  | inl a ↦ rw (a, on_argument) (start-keep f)
  | inr a ↦ elim (Bool-cases (same_codes argument (codes "stop"))) [
    | inl b ↦ rw (a, b, on_argument) (stop-keep f)
    | inr b ↦
        elim (Bool-cases
          (same_codes argument (codes "force-reload") || same_codes argument (codes "restart"))) [
            | inl c ↦ rw (a, b, c, on_argument) refl
            | inr c ↦ rw (a, b, c, on_argument) refl
          ]
  ]
]

-- With ifup there, the script changes the interfaces on `start` and `stop` exactly if no line of
-- /proc/mounts is of type nfs, smbfs, ncp or coda, at the root or anywhere else, on `restart` and
-- `force-reload` in any case, and on no other argument; without ifup it does nothing.
pub networking-interfaces :
    (f : Found) (argument : Line)
    → keep changes_interfaces (networking f argument).1
      ≡ (if f.ifup then interface_changes (any is_share f.mounts) argument else [])
unfolding networking
networking-interfaces f argument = elim (Bool-cases f.ifup) [
  | inl up ↦
      ap (λ (r : ℕ × List Action). keep changes_interfaces r.1) (if-true _ up)
      ∙ on_argument-keep f argument
      ∙ sym (if-true _ up)
  | inr up ↦
      ap (λ (r : ℕ × List Action). keep changes_interfaces r.1) (if-false _ up)
      ∙ sym (if-false _ up)
]
