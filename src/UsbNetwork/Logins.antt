-- ===== src/UsbNetwork/Logins.antt =====
-- From where root may log in, as scripts/hooks/download-networking.sh sets up sshd, and what udhcpd
-- leases.
use chronos_updates.Common.{
  ℕ, ◌+◌, ◌*◌, ◌-◌, ◌≤◌, ◌<◌, ◌≡◌, ◌≢◌, ◌↔◌, ◌⊎◌, refl, sym, ap, ap₂, ◌∙◌, Bool, true, false, ◌&&◌,
  ◌||◌, List, [], ◌∷◌, ◌++◌, ◌==◌, ==_iff, any, any-append, arith, codes, same_codes,
  same_codes_self, same_codes-equal, Bool-cases, inl, inr,
}
use chronos_updates.Network.{starts_with}
use chronos_updates.UsbNetwork.{
  Address, address, usb_address, usb_netmask, lease_start, lease_end, loopback, number, network_of,
  decimal, text, Sshd, permits_root,
}

abbrev has_dot : List ℕ → Bool
has_dot l = any (λ c. c == b'.') l

dotless :
    (c : ℕ) (l : List ℕ) → has_dot (c ∷ l) ≡ false → ((c == b'.') ≡ false) × (has_dot l ≡ false)
dotless c l h = elim (Bool-cases (c == b'.')) [
  | inl e ↦ absurd (cc (e, h))
  | inr e ↦ (e, rw e at h)
]

==_sym : (a b : ℕ) → (a == b) ≡ (b == a)
==_sym a b = ground arith

-- A test of two texts, one code after the other, is one of their fields, which end in a dot.
module _ (f : List ℕ → List ℕ → Bool)
    (step : (c d : ℕ) (p t : List ℕ) → f (c ∷ p) (d ∷ t) ≡ (c == d && f p t)) where
  fields-test :
      (p t q u : List ℕ)
      → has_dot p ≡ false
      → has_dot t ≡ false
      → f (p ++ (b'.' ∷ q)) (t ++ (b'.' ∷ u)) ≡ (same_codes p t && f q u)
  fields-test [] [] q u h k = step b'.' b'.' q u
  fields-test [] (d ∷ t) q u h k =
      step b'.' d q (t ++ (b'.' ∷ u)) ∙ rw (==_sym b'.' d, (dotless d t k).0) refl
  fields-test (c ∷ p) [] q u h k = step c b'.' (p ++ (b'.' ∷ q)) u ∙ rw (dotless c p h).0 refl
  fields-test (c ∷ p) (d ∷ t) q u h k =
      step c d (p ++ (b'.' ∷ q)) (t ++ (b'.' ∷ u))
      ∙ ap (λ b. c == d && b) (fields-test p t q u (dotless c p h).1 (dotless d t k).1)
      ∙ assoc (c == d) (same_codes p t) (f q u)
    where
      assoc : (b x y : Bool) → (b && (x && y)) ≡ ((b && x) && y)
      assoc true x y = refl
      assoc false x y = refl

decimal-dotless : (n : ℕ) → has_dot (decimal n) ≡ false
decimal-dotless n = ground arith

-- What a decimal number says.
abbrev value : List ℕ → ℕ
value (a ∷ []) = a - b'0'
value (a ∷ b ∷ []) = (a - b'0') * 10 + (b - b'0')
value (a ∷ b ∷ c ∷ []) = ((a - b'0') * 10 + (b - b'0')) * 10 + (c - b'0')
value _ = 0

value-decimal : (n : ℕ) → value (decimal n) ≡ n
value-decimal n = ground arith

same_decimal : (m n : ℕ) → same_codes (decimal m) (decimal n) ≡ (m == n)
same_decimal m n = elim (Bool-cases (m == n)) [
  | inl e ↦
      ap (λ k. same_codes (decimal m) (decimal k)) (sym ((==_iff m n).0 e))
      ∙ same_codes_self (decimal m)
      ∙ sym e
  | inr e ↦ elim (Bool-cases (same_codes (decimal m) (decimal n))) [
    | inl same ↦
        let equal : m ≡ n =
          sym (value-decimal m)
          ∙ ap value (same_codes-equal (decimal m) (decimal n) same)
          ∙ value-decimal n in
        absurd (cc (e, (==_iff m n).1 equal))
    | inr differ ↦ differ ∙ sym e
  ]
]

-- The same where the first field is a number.
number-test :
    (f : List ℕ → List ℕ → Bool)
    → ((c d : ℕ) (p t : List ℕ) → f (c ∷ p) (d ∷ t) ≡ (c == d && f p t))
    → (m n : ℕ) (q u : List ℕ)
    → f (decimal m ++ (b'.' ∷ q)) (decimal n ++ (b'.' ∷ u)) ≡ (m == n && f q u)
number-test f step m n q u =
    fields-test f step (decimal m) (decimal n) q u (decimal-dotless m) (decimal-dotless n)
    ∙ ap (λ b. b && f q u) (same_decimal m n)

-- The text begins with the first three fields of the camera's addresses.
usb_prefix :
    (a : Address)
    → starts_with (codes "192.168.12.") (text a)
      ≡ (192 == a.first && (168 == a.second && (12 == a.third && true)))
unfolding starts_with
usb_prefix a =
    let test = number-test starts_with (λ c d p t. refl) in
    test 192 a.first (codes "168.12.") _
    ∙ ap (λ b. 192 == a.first && b)
        (test 168 a.second (codes "12.") _
          ∙ ap (λ b. 168 == a.second && b) (test 12 a.third [] (decimal a.fourth)))

loopback-text :
    (a : Address)
    → same_codes (codes "127.0.0.1") (text a)
      ≡ (127 == a.first && (0 == a.second && (0 == a.third && 1 == a.fourth)))
loopback-text a =
    let test = number-test same_codes (λ c d p t. refl) in
    test 127 a.first (codes "0.0.1") _
    ∙ ap (λ b. 127 == a.first && b)
        (test 0 a.second (codes "0.1") _
          ∙ ap (λ b. 0 == a.second && b)
              (test 0 a.third (codes "1") (decimal a.fourth)
                ∙ ap (λ b. 0 == a.third && b) (same_decimal 1 a.fourth)))

text-has_dot : (a : Address) → has_dot (text a) ≡ true
text-has_dot a = any-append (λ c. c == b'.') (decimal a.first) _ ∙ rw (decimal-dotless a.first) refl

six_differs : (a : Address) → same_codes (codes "::1") (text a) ≡ false
six_differs a = elim (Bool-cases (same_codes (codes "::1") (text a))) [
  | inl e ↦
      let dots : false ≡ has_dot (text a) =
        ap has_dot (same_codes-equal (codes "::1") (text a) e) in
      absurd (cc (dots, text-has_dot a))
  | inr e ↦ e
]

-- Whether root may log in, by the numbers of the address.
abbrev by_numbers : Address → Bool
by_numbers a =
    (192 == a.first && (168 == a.second && (12 == a.third && true)))
    || ((127 == a.first && (0 == a.second && (0 == a.third && 1 == a.fourth))) || false)

permits_root-numbers : (s : Sshd) (a : Address) → permits_root s (text a) ≡ by_numbers a
unfolding permits_root
permits_root-numbers s a =
    ap₂ (λ x y. x || y) (s.matches-star (codes "192.168.12.") (text a) refl ∙ usb_prefix a)
      (ap₂ (λ x y. x || y) (s.matches-plain (codes "127.0.0.1") (text a) refl ∙ loopback-text a)
        (ap (λ x. x || false) (s.matches-plain (codes "::1") (text a) refl ∙ six_differs a)))

by_numbers-true :
    (a b c d : ℕ)
    → (by_numbers (address a b c d) ≡ true)
      ↔ ((((a ≡ 192) × (b ≡ 168)) × (c ≡ 12)) ⊎ (((a ≡ 127) × (b ≡ 0)) × ((c ≡ 0) × (d ≡ 1))))
by_numbers-true a b c d = ground arith

abbrev pub OnUsb : Address → Type 0
OnUsb a = network_of usb_netmask a ≡ network_of usb_netmask usb_address

-- Where the patterns of sshd mean what its manual says, the hook permits root to log in from an
-- address exactly if, under the netmask of usb0, it is in the network of the camera's address, or if
-- it is 127.0.0.1.
pub root-logins :
    (s : Sshd) (a : Address) → (permits_root s (text a) ≡ true) ↔ (OnUsb a ⊎ (a ≡ loopback))
root-logins s a =
    let numbers = by_numbers-true a.first a.second a.third a.fourth in
    (
      (λ h. elim (numbers.0 (sym (permits_root-numbers s a) ∙ h)) [
        | inl e ↦ inl (rw (e.0.0, e.0.1, e.1) refl)
        | inr e ↦ inr (rw (e.0.0, e.0.1, e.1.0, e.1.1) refl)
      ]),
      (λ h.
          permits_root-numbers s a
          ∙ numbers.1 (elim h [
            | inl e ↦ inl (
              (ap (λ (b : Address). b.first) e, ap (λ (b : Address). b.second) e),
              ap (λ (b : Address). b.third) e,
            )
            | inr e ↦ inr (
              (ap (λ (b : Address). b.first) e, ap (λ (b : Address). b.second) e),
              (ap (λ (b : Address). b.third) e, ap (λ (b : Address). b.fourth) e),
            )
          ])),
    )

-- The numbers of an address in the range that is leased.
leased-numbers :
    (a b c d : ℕ)
    → a < 256
    → b < 256
    → c < 256
    → d < 256
    → number lease_start ≤ number (address a b c d)
    → number (address a b c d) ≤ number lease_end
    → (((a ≡ 192) × (b ≡ 168)) × (c ≡ 12)) × ((20 ≤ d) × (d ≤ 254))
leased-numbers a b c d h i j k low high =
    let first : a ≡ 192 = omega arith in
    let second : b ≡ 168 = omega arith in
    let third : c ≡ 12 = omega arith in (((first, second), third), (omega arith, omega arith))

-- An address, of four numbers below 256, in the range that udhcpd leases is in the network of the
-- camera's own address, is not that address, nor that of the network nor the one for broadcasts,
-- and, where the patterns of sshd mean what its manual says, root may log in from it.
pub leases-logins :
    (s : Sshd) (a : Address)
    → a.first < 256
    → a.second < 256
    → a.third < 256
    → a.fourth < 256
    → number lease_start ≤ number a
    → number a ≤ number lease_end
    → OnUsb a
      × (a ≢ usb_address)
      × (a.fourth ≢ 0)
      × (a.fourth ≢ 255)
      × (permits_root s (text a) ≡ true)
leases-logins s a h i j k low high =
    let n = leased-numbers a.first a.second a.third a.fourth h i j k low high in
    let on_usb : OnUsb a = rw (n.0.0.0, n.0.0.1, n.0.1) refl in
    (
      on_usb,
      (λ e. omega (arith, ap (λ (b : Address). b.fourth) e, n.1.0)),
      (λ e. omega (arith, e, n.1.0)),
      (λ e. omega (arith, e, n.1.1)),
      (root-logins s a).1 (inl on_usb),
    )
