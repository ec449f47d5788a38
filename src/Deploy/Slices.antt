-- ===== src/Deploy/Slices.antt =====
-- A part of a file that lies within a known start of it.
use chronos_updates.Common.{
  ℕ, zero, suc, ◌+◌, ◌≤◌, ◌≡◌, refl, sym, ap, ◌∙◌, [], ◌∷◌, ◌++◌, arith, length, take, drop,
}
use chronos_updates.Image.{File}

take-drop-append :
    (n k : ℕ) (f g : File) → k + n ≤ length f → take n (drop k (f ++ g)) ≡ take n (drop k f)
take-drop-append zero k f g h = refl
take-drop-append (suc n) zero [] g h = absurd (omega arith)
take-drop-append (suc n) zero (c ∷ f) g h =
    ap (λ l. c ∷ l) (take-drop-append n zero f g (omega arith))
take-drop-append (suc n) (suc k) [] g h = absurd (omega arith)
take-drop-append (suc n) (suc k) (c ∷ f) g h = take-drop-append (suc n) k f g (omega arith)

take-append-drop : (n : ℕ) (f : File) → take n f ++ drop n f ≡ f
take-append-drop zero f = refl
take-append-drop (suc n) [] = refl
take-append-drop (suc n) (c ∷ f) = ap (λ l. c ∷ l) (take-append-drop n f)

-- A file that starts with another has its parts.
pub part_of_start :
    (n k : ℕ) (f g : File)
    → take (length f) g ≡ f
    → k + n ≤ length f
    → take n (drop k g) ≡ take n (drop k f)
part_of_start n k f g start h =
    ap (λ l. take n (drop k l))
      (sym (take-append-drop (length f) g) ∙ ap (λ l. l ++ drop (length f) g) start)
    ∙ take-drop-append n k f (drop (length f) g) h
