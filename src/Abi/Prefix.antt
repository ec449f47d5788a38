-- ===== src/Abi/Prefix.antt =====
-- Structs that start with the same fields.
use chronos_updates.Common.{
  ℕ, zero, suc, ◌+◌, ◌<◌, ◌≡◌, refl, ap, ◌∙◌, List, [], ◌∷◌, ◌++◌, arith, length, get_elem?,
}
use chronos_updates.Abi.{Field, align_of, size_of, round_up, offsets, end_of}

offsets-append :
    (o : ℕ) (fs gs : List Field) → offsets o (fs ++ gs) ≡ offsets o fs ++ offsets (end_of o fs) gs
unfolding offsets end_of
offsets-append o [] gs = refl
offsets-append o (f ∷ fs) gs =
    let p = round_up o (align_of f.type) in
    ap (λ l. p ∷ l) (offsets-append (p + size_of f.type) fs gs)

get_elem?-append_left {ℓ} :
    {A : Type ℓ} (xs ys : List A) (i : ℕ) → i < length xs → get_elem? (xs ++ ys) i ≡ get_elem? xs i
get_elem?-append_left [] ys i h = elim h [ ]
get_elem?-append_left (x ∷ xs) ys zero h = refl
get_elem?-append_left (x ∷ xs) ys (suc i) h = get_elem?-append_left xs ys i (omega arith)

length-offsets : (o : ℕ) (fs : List Field) → length (offsets o fs) ≡ length fs
unfolding offsets
length-offsets o [] = refl
length-offsets o (f ∷ fs) =
    ap suc (length-offsets (round_up o (align_of f.type) + size_of f.type) fs)

-- A struct that starts with fields has them, at the offsets that they have alone.
pub starts_with :
    (fs gs : List Field) (i : ℕ)
    → i < length fs
    → (get_elem? (fs ++ gs) i ≡ get_elem? fs i)
      × (get_elem? (offsets 0 (fs ++ gs)) i ≡ get_elem? (offsets 0 fs) i)
starts_with fs gs i h = (
  get_elem?-append_left fs gs i h,
  ap (λ l. get_elem? l i) (offsets-append 0 fs gs)
      ∙ get_elem?-append_left (offsets 0 fs) (offsets (end_of 0 fs) gs) i
          (omega (arith, length-offsets 0 fs)),
)
