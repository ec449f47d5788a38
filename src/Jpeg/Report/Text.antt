-- ===== src/Jpeg/Report/Text.antt =====
-- What a handler finds after `ERREXITS` and `TRACEMSS`.
use chronos_updates.Common.{
  ℕ, zero, suc, ◌≤◌, ◌<◌, ◌≡◌, ◌≢◌, ◌↔◌, refl, some, List, [], ◌∷◌, arith, get_elem?, length,
}
use chronos_updates.Jpeg.Report.{
  ErrorMgr, error_exit, msg_str_parm_max, byte_or_nul, strncpy, errexits,
}

-- The bytes of a C string: none of them is 0.
abbrev HasNoNul : List ℕ → Type 0
HasNoNul [] = Unit {0}
HasNoNul (c ∷ cs) = (c ≢ 0) × HasNoNul cs

byte-nonzero : (str : List ℕ) (q : ℕ) → HasNoNul str → q < length str → byte_or_nul str q ≢ 0
unfolding byte_or_nul
byte-nonzero [] q h lt = absurd (omega arith)
byte-nonzero (c ∷ cs) zero h lt = h.0
byte-nonzero (c ∷ cs) (suc q) h lt = byte-nonzero cs q h.1 (omega arith)

byte-end : (str : List ℕ) (q : ℕ) → length str ≤ q → byte_or_nul str q ≡ 0
unfolding byte_or_nul
byte-end [] q h = refl
byte-end (c ∷ cs) zero h = absurd (omega arith)
byte-end (c ∷ cs) (suc q) h = byte-end cs q (omega arith)

byte-at : (str : List ℕ) (q : ℕ) {c : ℕ} → get_elem? str q ≡ some c → byte_or_nul str q ≡ c
unfolding byte_or_nul
byte-at [] q h = cc
byte-at (c ∷ cs) zero h = cc
byte-at (c ∷ cs) (suc q) h = byte-at cs q h

-- `ERREXITS` calls `error_exit` with its code stored, and each of the text's first 80 bytes stands
-- at its place in `msg_parm.s`.
errexits_text :
    (err : ErrorMgr) (code : ℕ) (str : List ℕ) (q : ℕ) {c : ℕ}
    → q < msg_str_parm_max
    → get_elem? str q ≡ some c
    → ((errexits err code str).0 ≡ error_exit)
      × ((errexits err code str).1.msg_code ≡ code)
      × ((errexits err code str).1.msg_parm q ≡ c)
unfolding errexits strncpy
errexits_text err code str q lt h = (refl, refl, ground (arith, byte-at str q h))

-- After `ERREXITS` with a C string there is a terminating 0 in `msg_parm.s` exactly if the string
-- is shorter than 80 bytes.
errexits_terminated :
    (err : ErrorMgr) (code : ℕ) (str : List ℕ)
    → HasNoNul str
    → ((q : ℕ) × (q < msg_str_parm_max) × ((errexits err code str).1.msg_parm q ≡ 0))
      ↔ (length str < msg_str_parm_max)
unfolding errexits strncpy
errexits_terminated err code str h = (
  (λ (q, lt, e). ground (arith, byte-nonzero str q h)),
  λ lt. (length str, lt, ground (arith, byte-end str (length str))),
)
