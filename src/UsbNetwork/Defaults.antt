-- ===== src/UsbNetwork/Defaults.antt =====
-- That udhcpd's defaults, as scripts/hooks/download-networking.sh leaves them, set no DHCPD_ENABLED.
use chronos_updates.Common.{
  ℕ, suc, ◌≡◌, refl, sym, ap, ◌∙◌, Bool, true, false, ◌||◌, List, [], ◌∷◌, ◌==◌, any, map, length,
  some, ◌++◌, both, either, if◌then◌else◌, if-true, if-false, Bool-cases, inl, inr,
}
use chronos_updates.Network.{starts_with}
use chronos_updates.UsbNetwork.{enabled_key, comment_out}
use chronos_updates.UsbNetwork.Files.{
  Lines, Files, default_udhcpd, sshd_config, append, sed, networking_hook, run, written, sshd_lines,
}

abbrev is_blank : ℕ → Bool
is_blank c = c == b' ' || c == b'\t'

-- A line of a file for the shell sets DHCPD_ENABLED: that is its first word.
abbrev pub sets_enabled : List ℕ → Bool
sets_enabled [] = false
sets_enabled (c ∷ cs) =
    let rest = sets_enabled cs in if is_blank c then rest else starts_with enabled_key (c ∷ cs)

abbrev has_hash : List ℕ → Bool
has_hash l = any (λ c. c == b'#') l

no_hash : (a : ℕ) (k : List ℕ) → has_hash (a ∷ k) ≡ false → has_hash k ≡ false
no_hash a k h = elim (Bool-cases (a == b'#')) [ inl e ↦ absurd (cc (e, h)) | inr e ↦ rw e at h ]

comment_out-starts :
    (k l : List ℕ)
    → has_hash k ≡ false
    → starts_with k (comment_out l) ≡ true
    → starts_with k l ≡ true
unfolding comment_out starts_with
comment_out-starts [] l h e = refl
comment_out-starts (a ∷ k) [] h e = cc
comment_out-starts (a ∷ k) (c ∷ cs) h e = elim (Bool-cases (starts_with enabled_key (c ∷ cs))) [
  | inl here ↦
      let (hash, rest) =
        both (a == b'#') (starts_with k (c ∷ cs))
          (ap (starts_with (a ∷ k)) (sym (if-true (c ∷ comment_out cs) here)) ∙ e) in
      absurd (cc (hash, h))
  | inr there ↦
      let (same, rest) =
        both (a == c) (starts_with k (comment_out cs))
          (ap (starts_with (a ∷ k)) (sym (if-false (b'#' ∷ c ∷ cs) there)) ∙ e) in
      rw (same, comment_out-starts k cs (no_hash a k h) rest) refl
]

key_stays_away :
    (c : ℕ) (cs : List ℕ)
    → starts_with enabled_key (c ∷ cs) ≡ false
    → starts_with enabled_key (c ∷ comment_out cs) ≡ false
unfolding comment_out
key_stays_away c cs there = elim (Bool-cases (starts_with enabled_key (c ∷ comment_out cs))) [
  | inl e ↦
      let moved = ap (starts_with enabled_key) (if-false (b'#' ∷ c ∷ cs) there) ∙ e in
      absurd (cc (comment_out-starts enabled_key (c ∷ cs) refl moved, there))
  | inr e ↦ e
]

comment_out-unset : (l : List ℕ) → sets_enabled (comment_out l) ≡ false
unfolding comment_out starts_with
comment_out-unset [] = refl
comment_out-unset (c ∷ cs) = elim (Bool-cases (starts_with enabled_key (c ∷ cs))) [
  | inl here ↦ ap sets_enabled (if-true (c ∷ comment_out cs) here)
  | inr there ↦
      ap sets_enabled (if-false (b'#' ∷ c ∷ cs) there)
      ∙ either (λ b. b ≡ false) (is_blank c) (comment_out-unset cs) (key_stays_away c cs there)
]

lines-unset : (ls : Lines) → any sets_enabled (map comment_out ls) ≡ false
lines-unset [] = refl
lines-unset (l ∷ ls) = rw (comment_out-unset l, lines-unset ls) refl

-- Whatever lines /etc/default/udhcpd and the configuration of sshd have, after the hook no line of
-- the first sets DHCPD_ENABLED as its first word after blanks, and there are as many lines as before;
-- and the second has its lines, and after them those that permit root to log in.
pub defaults-unset :
    (s : Files) (ls ms : Lines)
    → s default_udhcpd ≡ some ls
    → s sshd_config ≡ some ms
    → (after : Lines) × (run networking_hook s default_udhcpd ≡ some after)
      × (any sets_enabled after ≡ false)
      × (length after ≡ length ls)
      × (run networking_hook s sshd_config ≡ some (ms ++ sshd_lines))
unfolding run
defaults-unset s ls ms h k = (
  map comment_out ls,
  ap (written (sed default_udhcpd)) h,
  lines-unset ls,
  same_length ls,
  ap (written (append sshd_config sshd_lines)) k,
)
  where
    same_length : (l : Lines) → length (map comment_out l) ≡ length l
    same_length [] = refl
    same_length (x ∷ xs) = ap suc (same_length xs)
