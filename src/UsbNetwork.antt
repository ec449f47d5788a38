-- ===== src/UsbNetwork.antt =====
-- scripts/hooks/download-networking.sh, which sets up the network over USB in the image: the address
-- of the camera, the addresses that udhcpd leases, who may log in as root, and the line of
-- /etc/default/udhcpd that it comments out. The patterns of sshd are a parameter.
pub mod Files
pub mod Logins
pub mod Defaults
use chronos_updates.Common.{
  ℕ, ◌+◌, ◌*◌, ◌/◌, ◌%◌, ◌≡◌, Bool, false, ◌||◌, List, [], ◌∷◌, ◌++◌, ◌==◌, ltb, leb, any, codes,
  same_codes, if◌then◌else◌,
}
use chronos_updates.Network.{starts_with}

-- An address of IPv4 by its four numbers.
pub record Address : Type 0 where
  pub first : ℕ
  pub second : ℕ
  pub third : ℕ
  pub fourth : ℕ

abbrev pub address : ℕ → ℕ → ℕ → ℕ → Address
address a b c d = record { first = a; second = b; third = c; fourth = d }

-- `iface usb0`.
abbrev pub usb_address : Address
usb_address = address 192 168 12 1

abbrev pub usb_netmask : Address
usb_netmask = address 255 255 255 0

-- `start` and `end` of udhcpd.
abbrev pub lease_start : Address
lease_start = address 192 168 12 20

abbrev pub lease_end : Address
lease_end = address 192 168 12 254

abbrev pub loopback : Address
loopback = address 127 0 0 1

-- Addresses in their order.
abbrev pub number : Address → ℕ
number a = ((a.first * 256 + a.second) * 256 + a.third) * 256 + a.fourth

-- The bitwise conjunction with a number of a netmask whose bits are all the same.
abbrev masked_octet : ℕ → ℕ → ℕ
masked_octet o m = if m == 255 then o else 0

abbrev pub network_of : Address → Address → Address
network_of mask a =
    address (masked_octet a.first mask.first) (masked_octet a.second mask.second)
      (masked_octet a.third mask.third) (masked_octet a.fourth mask.fourth)

-- A number below 1000 in decimal digits, and an address as text.
abbrev pub decimal : ℕ → List ℕ
decimal n =
    if ltb n 10
    then (b'0' + n) ∷ []
    else if ltb n 100
    then (b'0' + n / 10) ∷ (b'0' + n % 10) ∷ []
    else (b'0' + n / 100) ∷ (b'0' + n / 10 % 10) ∷ (b'0' + n % 10) ∷ []

abbrev pub text : Address → List ℕ
text a =
    decimal a.first
    ++ (b'.' ∷ (decimal a.second ++ (b'.' ∷ (decimal a.third ++ (b'.' ∷ decimal a.fourth)))))

abbrev pub wild : List ℕ → Bool
wild p = any (λ c. (c == b'*' || c == b'?') || (c == b'/' || (c == b'!' || c == b','))) p

-- What is relied on of the patterns of sshd: one without wildcards, that is no network, negation or
-- list either, is the text itself, and a star after such a text stands for any text.
pub record Sshd : Type 0 where
  pub matches : List ℕ → List ℕ → Bool
  pub matches-plain : (p t : List ℕ) → wild p ≡ false → matches p t ≡ same_codes p t
  pub matches-star : (p t : List ℕ) → wild p ≡ false → matches (p ++ codes "*") t ≡ starts_with p t

-- `Match Address`.
abbrev root_patterns : List (List ℕ)
root_patterns = codes "192.168.12.*" ∷ codes "127.0.0.1" ∷ codes "::1" ∷ []

-- Whether the hook permits root to log in from an address.
pub permits_root : Sshd → List ℕ → Bool
permits_root s from = any (λ p. s.matches p from) root_patterns

abbrev pub enabled_key : List ℕ
enabled_key = codes "DHCPD_ENABLED="

-- `s/\(DHCPD_ENABLED=\)/#\1/`, which changes the first place in a line.
pub comment_out : List ℕ → List ℕ
comment_out [] = []
comment_out (c ∷ cs) =
    let rest = comment_out cs in
    if starts_with enabled_key (c ∷ cs) then b'#' ∷ c ∷ cs else c ∷ rest
