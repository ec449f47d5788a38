-- ===== src/Network/Options.antt =====
-- When an option of /etc/network/options is on, in rootfs/etc/init.d/networking.
use chronos_updates.Common.{
  ℕ, suc, ◌+◌, ◌≡◌, refl, sym, ap, ap₂, ◌≤◌, ◌<◌, zero, all, ◌∙◌, Bool, true, false, ◌||◌, List, [],
  ◌∷◌, ◌++◌, ◌==◌, ==_iff, arith, codes, same_codes, same_codes-equal, any, any-append, keep,
  length, length-append, drop, both, Bool-cases, inl, inr,
}
use chronos_updates.Network.{Line, starts_with, join, optval, doopt}

-- The value of a line that sets the option.
abbrev pub value_of : Line → Line → Line
value_of name line = drop (length name + 1) line

-- On by the lines that set it: the default if there is none, and off if there are several.
abbrev is_on : Line → Line → List Line → Bool
is_on name default [] = same_codes default (codes "yes")
is_on name default (l ∷ []) = same_codes (value_of name l) (codes "yes")
is_on name default (l ∷ m ∷ ls) = false

abbrev has_break : Line → Bool
has_break l = any (λ c. c == b'\n') l

-- What begins with a text is it, and more.
starts_with-rest : (p l : Line) → starts_with p l ≡ true → (r : Line) × (l ≡ p ++ r)
unfolding starts_with
starts_with-rest [] l h = (l, refl)
starts_with-rest (c ∷ p) [] h = cc
starts_with-rest (c ∷ p) (d ∷ l) h =
    let (e, k) = both (c == d) (starts_with p l) h in
    let (r, q) = starts_with-rest p l k in (r, ap₂ ◌∷◌ (sym ((==_iff c d).0 e)) q)

-- A line break after the option's name is in its value.
drop-break : (n : ℕ) (l m : Line) → n ≤ length l → has_break (drop n (l ++ (b'\n' ∷ m))) ≡ true
drop-break zero l m h = any-append (λ c. c == b'\n') l (b'\n' ∷ m) ∙ or_true (has_break l)
  where
    or_true : (b : Bool) → (b || true) ≡ true
    or_true true = refl
    or_true false = refl
drop-break (suc n) [] m h = absurd (omega arith)
drop-break (suc n) (c ∷ l) m h = drop-break n l m (omega arith)

broken_not_yes : (v : Line) → has_break v ≡ true → same_codes v (codes "yes") ≡ false
broken_not_yes v h = elim (Bool-cases (same_codes v (codes "yes"))) [
  | inl e ↦
      let no : has_break v ≡ false = ap has_break (same_codes-equal v (codes "yes") e) in
      absurd (cc (h, no))
  | inr e ↦ e
]

-- A line that sets the option has its name and the sign.
setting-length :
    (name l : Line) → starts_with (name ++ codes "=") l ≡ true → length name + 1 ≤ length l
setting-length name l h =
    let (r, q) = starts_with-rest (name ++ codes "=") l h in
    omega (arith, ap length q, length-append (name ++ codes "=") r, length-append name (codes "="))

optval-found :
    (name default l : Line) → 0 < length l → optval name default l ≡ drop (length name + 1) l
unfolding optval
optval-found name default [] h = absurd (omega arith)
optval-found name default (c ∷ cs) h = refl

all-keep : (f : Line → Bool) (ls : List Line) → all f (keep f ls) ≡ true
all-keep f [] = refl
all-keep f (l ∷ ls) = elim (Bool-cases (f l)) [
  | inl e ↦ rw e (rw (e, all-keep f ls) refl)
  | inr e ↦ rw e (all-keep f ls)
]

optval-default : (name default : Line) → optval name default [] ≡ default
unfolding optval
optval-default name default = refl

optval-is_on :
    (name default : Line) (found : List Line)
    → all (starts_with (name ++ codes "=")) found ≡ true
    → same_codes (optval name default (join found)) (codes "yes") ≡ is_on name default found
unfolding join
optval-is_on name default [] h = ap (λ v. same_codes v (codes "yes")) (optval-default name default)
optval-is_on name default (l ∷ []) h =
    let s = setting-length name l (both (starts_with (name ++ codes "=") l) true h).0 in
    ap (λ v. same_codes v (codes "yes")) (optval-found name default l (omega arith))
optval-is_on name default (l ∷ m ∷ ls) h =
    let s =
      setting-length name l
        (both (starts_with (name ++ codes "=") l) (all (starts_with (name ++ codes "=")) (m ∷ ls))
          h).0 in
    let joined = l ++ (b'\n' ∷ join (m ∷ ls)) in
    ap (λ v. same_codes v (codes "yes"))
      (optval-found name default joined (omega (arith, length-append l (b'\n' ∷ join (m ∷ ls)))))
    ∙ broken_not_yes (drop (length name + 1) joined)
        (drop-break (length name + 1) l (join (m ∷ ls)) s)

-- An option is on if one line sets it and says `yes`, or none sets it and its default is `yes`; if
-- several lines set it, it is off, whatever they say.
pub doopt-is_on :
    (name default : Line) (options : List Line)
    → doopt name default options
      ≡ is_on name default (keep (starts_with (name ++ codes "=")) options)
unfolding doopt
doopt-is_on name default options =
    optval-is_on name default (keep (starts_with (name ++ codes "=")) options)
      (all-keep (starts_with (name ++ codes "=")) options)
