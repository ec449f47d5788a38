-- ===== src/Jpeg/Report/Parameters.antt =====
-- What is read back from `msg_parm` after the stores of a macro.
use Prim.Native.Nat.{ℕ, zero, suc, ◌+◌, ◌*◌, ◌%◌, ◌^◌, ◌≤◌, ◌<◌}
use chronos_updates.Common.{◌≡◌, refl, ◌∙◌, some, List, [], ◌∷◌, arith, get_elem?, length}
use chronos_updates.Jpeg.Report.{Parm, set_int}

-- `msg_parm.i[k]`, as a 32-bit word.
abbrev pub get_int : ℕ → Parm → ℕ
get_int k f = f (4 * k) + 256 * f (4 * k + 1) + 65536 * f (4 * k + 2) + 16777216 * f (4 * k + 3)

-- Stores from place `k` on.
unfoldable pub store_ints : ℕ → List ℕ → Parm → Parm
store_ints k [] f = f
store_ints k (p ∷ ps) f = store_ints (k + 1) ps (set_int k p f)

get_int-set_int : (k p : ℕ) (f : Parm) → get_int k (set_int k p f) ≡ p % 2 ^ 32
unfolding set_int
get_int-set_int k p f = ground arith

set_int-outside : (k p q : ℕ) (f : Parm) → q < 4 * k → set_int k p f q ≡ f q
unfolding set_int
set_int-outside k p q f h = ground arith

store_ints-below : (k : ℕ) (ps : List ℕ) (f : Parm) (q : ℕ) → q < 4 * k → store_ints k ps f q ≡ f q
unfolding store_ints
store_ints-below k [] f q h = refl
store_ints-below k (p ∷ ps) f q h =
    store_ints-below (k + 1) ps (set_int k p f) q (omega arith) ∙ set_int-outside k p q f h

pub store_ints-above :
    (k : ℕ) (ps : List ℕ) (f : Parm) (q : ℕ) → 4 * (k + length ps) ≤ q → store_ints k ps f q ≡ f q
unfolding store_ints set_int
store_ints-above k [] f q h = refl
store_ints-above k (p ∷ ps) f q h =
    store_ints-above (k + 1) ps (set_int k p f) q (omega arith) ∙ ground arith

get_int-store_ints_below :
    (k j : ℕ) (ps : List ℕ) (f : Parm) → j < k → get_int j (store_ints k ps f) ≡ get_int j f
get_int-store_ints_below k j ps f h = omega (
  arith,
  store_ints-below k ps f (4 * j) (omega arith),
  store_ints-below k ps f (4 * j + 1) (omega arith),
  store_ints-below k ps f (4 * j + 2) (omega arith),
  store_ints-below k ps f (4 * j + 3) (omega arith),
)

pub get_int-store_ints :
    (k i j : ℕ) (ps : List ℕ) (f : Parm) {p : ℕ}
    → j ≡ k + i
    → get_elem? ps i ≡ some p
    → get_int j (store_ints k ps f) ≡ p % 2 ^ 32
unfolding store_ints
get_int-store_ints k i j [] f e h = cc
get_int-store_ints k zero j (p ∷ ps) f e h =
    get_int-store_ints_below (k + 1) j ps (set_int k p f) (omega arith)
    ∙ ground (arith, get_int-set_int k p f)
get_int-store_ints k (suc i) j (p ∷ ps) f e h =
    get_int-store_ints (k + 1) i j ps (set_int k p f) (omega arith) h
