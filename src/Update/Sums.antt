-- ===== src/Update/Sums.antt =====
-- Which reports of md5sum stop the update.
use chronos_updates.Common.{
  ℕ, ◌≤◌, ◌<◌, ◌≡◌, refl, true, false, some, List, [], ◌∷◌, ◌++◌, map, arith, length, length-append,
  codes, same_codes, Bool-cases, same_codes-length, same_codes-equal, ap, inl, inr,
}
use chronos_updates.Update.{Found, ends_with, any_failed, bad_sums}

-- What `md5sum -c` prints for a file that it cannot read, and for one whose sum is another.
abbrev pub unreadable : List ℕ → List ℕ
unreadable name = name ++ codes ": FAILED open or read"

abbrev mismatched : List ℕ → List ℕ
mismatched name = name ++ codes ": FAILED"

longer-differs : (a b : List ℕ) → length b < length a → same_codes a b ≡ false
longer-differs a b h = elim (Bool-cases (same_codes a b)) [
  | inl e ↦ absurd (omega (arith, same_codes-length a b e))
  | inr e ↦ e
]

-- What ends with a text is a text before it, and it.
pub ends_with-front : (p l : List ℕ) → ends_with p l ≡ true → (b : List ℕ) × (l ≡ b ++ p)
unfolding ends_with
ends_with-front p [] h = ([], same_codes-equal [] p h)
ends_with-front p (c ∷ l) h = elim (Bool-cases (same_codes (c ∷ l) p)) [
  | inl e ↦ ([], same_codes-equal (c ∷ l) p e)
  | inr e ↦ let (b, q) = ends_with-front p l (rw e at h) in (c ∷ b, ap (λ x. c ∷ x) q)
]

-- What stands before a long enough end does not matter.
pub ends_with-append : (p a b : List ℕ) → length p ≤ length b → ends_with p (a ++ b) ≡ ends_with p b
unfolding ends_with
ends_with-append p [] b h = refl
ends_with-append p (c ∷ a) b h =
    rw (longer-differs (c ∷ (a ++ b)) p (omega (arith, length-append a b)))
      (ends_with-append p a b h)

unreadable-passes : (names : List (List ℕ)) → any_failed (map unreadable names) ≡ false
unfolding any_failed ends_with
unreadable-passes [] = refl
unreadable-passes (name ∷ names) =
    rw (ends_with-append (codes "FAILED") name (codes ": FAILED open or read") (omega arith))
      (unreadable-passes names)

mismatched-found :
    (before after : List (List ℕ)) (name : List ℕ)
    → any_failed (before ++ (mismatched name ∷ after)) ≡ true
unfolding any_failed ends_with
mismatched-found [] after name =
    rw (ends_with-append (codes "FAILED") name (codes ": FAILED") (omega arith)) refl
mismatched-found (l ∷ before) after name = ground (arith, mismatched-found before after name)

-- A report that some listed files cannot be read, and nothing else, is not taken for bad sums.
unreadable-accepted :
    (f : Found) (names : List (List ℕ)) → f.sums ≡ some (map unreadable names) → bad_sums f ≡ false
unfolding bad_sums
unreadable-accepted f names h = rw h (unreadable-passes names)

-- A file whose sum is another is taken for bad sums, whatever stands before and after.
mismatched-refused :
    (f : Found) (before after : List (List ℕ)) (name : List ℕ)
    → f.sums ≡ some (before ++ (mismatched name ∷ after))
    → bad_sums f ≡ true
unfolding bad_sums
mismatched-refused f before after name h = rw h (mismatched-found before after name)
