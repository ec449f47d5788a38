-- ===== src/Common/Text.antt =====
-- A text as the list of its characters' codes.
use Prim.Native.Nat.{ℕ}
use Prim.Native.Char.{code}
use Prim.Native.String.{String}
use native.Mathlib.Omega.{arith}
use mathlib.Core.Path.{◌≡◌, refl, sym, ap, ap₂, ◌∙◌}
use mathlib.Core.Logic.{◌≢◌}
use chronos_updates.Common.Lists.{length}
use chronos_updates.Common.Tests.{◌==◌}
use mathlib.Core.Bool.{Bool, true, false, ◌&&◌}
use mathlib.Core.List.{List, [], ◌∷◌}

abbrev pub codes : String → List ℕ
codes String.[] = []
codes (String.◌∷◌ c s) = code c ∷ codes s

-- The same text.
abbrev pub same_codes : List ℕ → List ℕ → Bool
same_codes [] [] = true
same_codes (c ∷ cs) (d ∷ ds) = c == d && same_codes cs ds
same_codes _ _ = false

pub same_codes-length : (a b : List ℕ) → same_codes a b ≡ true → length a ≡ length b
same_codes-length [] [] h = refl
same_codes-length [] (d ∷ ds) h = cc
same_codes-length (c ∷ cs) [] h = cc
same_codes-length (c ∷ cs) (d ∷ ds) h = ground (arith, same_codes-length cs ds)

pub same_codes-equal : (a b : List ℕ) → same_codes a b ≡ true → a ≡ b
same_codes-equal [] [] h = refl
same_codes-equal [] (d ∷ ds) h = cc
same_codes-equal (c ∷ cs) [] h = cc
same_codes-equal (c ∷ cs) (d ∷ ds) h =
    let first : c ≡ d = ground (arith, h) in
    ap₂ ◌∷◌ first (same_codes-equal cs ds (ground (arith, h)))

pub same_codes_self : (a : List ℕ) → same_codes a a ≡ true
same_codes_self [] = refl
same_codes_self (c ∷ cs) =
    let same : (c == c) ≡ true = ground arith in rw (same, same_codes_self cs) refl

pub same_codes-differ : (a b : List ℕ) → same_codes a b ≡ false → a ≢ b
same_codes-differ a b h e = cc (sym (same_codes_self a) ∙ ap (λ w. same_codes a w) e ∙ h)
