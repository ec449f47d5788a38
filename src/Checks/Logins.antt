-- ===== src/Checks/Logins.antt =====
-- A lease of the camera's network, with an sshd that knows no other wildcard than a star.
use chronos_updates.Common.{
  ℕ, ◌≡◌, ◌≢◌, ◌↔◌, ◌⊎◌, refl, ap, ◌∙◌, Bool, true, false, ◌&&◌, ◌||◌, List, [], ◌∷◌, ◌++◌, ◌==◌,
  any, some, none, length, arith, codes, same_codes, if◌then◌else◌, if-false,
}
use chronos_updates.Network.{starts_with}
use chronos_updates.UsbNetwork.{
  Address, address, usb_address, loopback, text, Sshd, permits_root, wild,
}
use chronos_updates.UsbNetwork.Logins.{OnUsb, root-logins, leases-logins}
use chronos_updates.UsbNetwork.Defaults.{sets_enabled, defaults-unset}
use chronos_updates.UsbNetwork.Files.{
  Lines, Files, default_udhcpd, sshd_config, networking_hook, run, sshd_lines,
}

-- A star stands for the rest.
star_matches : List ℕ → List ℕ → Bool
star_matches [] [] = true
star_matches [] (d ∷ t) = false
star_matches (c ∷ p) [] = c == b'*'
star_matches (c ∷ p) (d ∷ t) =
    let rest = star_matches p t in if c == b'*' then true else c == d && rest

not_star : (c : ℕ) (p : List ℕ) → wild (c ∷ p) ≡ false → ((c == b'*') ≡ false) × (wild p ≡ false)
not_star c p h = go (c == b'*') (c == b'?') (c == b'/' || (c == b'!' || c == b',')) h
  where
    go : (a b d : Bool) → (((a || b) || d) || wild p) ≡ false → (a ≡ false) × (wild p ≡ false)
    go true b d e = cc
    go false true d e = cc
    go false false true e = cc
    go false false false e = (refl, e)

plain_matches : (p t : List ℕ) → wild p ≡ false → star_matches p t ≡ same_codes p t
unfolding star_matches
plain_matches [] [] h = refl
plain_matches [] (d ∷ t) h = refl
plain_matches (c ∷ p) [] h = (not_star c p h).0
plain_matches (c ∷ p) (d ∷ t) h =
    let (first, rest) = not_star c p h in
    if-false true first ∙ ap (λ b. c == d && b) (plain_matches p t rest)

star_starts : (p t : List ℕ) → wild p ≡ false → star_matches (p ++ codes "*") t ≡ starts_with p t
unfolding star_matches starts_with
star_starts [] [] h = refl
star_starts [] (d ∷ t) h = refl
star_starts (c ∷ p) [] h = (not_star c p h).0
star_starts (c ∷ p) (d ∷ t) h =
    let (first, rest) = not_star c p h in
    if-false true first ∙ ap (λ b. c == d && b) (star_starts p t rest)

abbrev sshd : Sshd
sshd = record { matches = star_matches; matches-plain = plain_matches; matches-star = star_starts }

abbrev lease : Address
lease = address 192 168 12 77

root-logins_example : (permits_root sshd (text lease) ≡ true) ↔ (OnUsb lease ⊎ (lease ≡ loopback))
root-logins_example = root-logins sshd lease

leases-logins_example :
    OnUsb lease
    × (lease ≢ usb_address)
    × (lease.fourth ≢ 0)
    × (lease.fourth ≢ 255)
    × (permits_root sshd (text lease) ≡ true)
leases-logins_example =
    leases-logins sshd lease (omega arith) (omega arith) (omega arith) (omega arith) (omega arith)
      (omega arith)

-- The files of a system that has been unpacked.
abbrev before : Files
before default_udhcpd = some (codes "# Comment the following line" ∷ codes " DHCPD_ENABLED=no" ∷ [])
before sshd_config = some (codes "UsePAM yes" ∷ [])
before _ = none

defaults-unset_example :
    (after : Lines) × (run networking_hook before default_udhcpd ≡ some after)
    × (any sets_enabled after ≡ false)
    × (length after ≡ 2)
    × (run networking_hook before sshd_config ≡ some (codes "UsePAM yes" ∷ sshd_lines))
defaults-unset_example =
    defaults-unset before (codes "# Comment the following line" ∷ codes " DHCPD_ENABLED=no" ∷ [])
      (codes "UsePAM yes" ∷ []) refl refl
