-- ===== src/Console/Terminals.antt =====
-- Which terminals /etc/securetty lists after scripts/hooks/completion-console.sh.
use chronos_updates.Common.{
  ℕ, ◌≡◌, refl, ap, ◌∙◌, Bool, true, false, ◌&&◌, ◌||◌, List, [], ◌∷◌, ◌++◌, any, arith, codes,
  same_codes, if-true, if-false, Bool-cases, inl, inr,
}
use chronos_updates.Console.{Host, contains, add_terminals, getty_line, ConsoleFiles, console_hook}

abbrev pub lists : List ℕ → List (List ℕ) → Bool
lists l ls = any (λ m. same_codes m l) ls

abbrev has_serial : List (List ℕ) → Bool
has_serial ls = any (contains (codes "ttyO3")) ls

added_here :
    (s four five more serial : Bool)
    → (s || (four || (five || (more || (serial && (four || five))))))
      ≡ ((s || more) || (four || five))
added_here true four five more serial = refl
added_here false four five more serial = ground arith

added_later :
    (s four five more serial : Bool)
    → (s || (more || (serial && (four || five)))) ≡ ((s || more) || (serial && (four || five)))
added_later true four five more serial = refl
added_later false four five more serial = refl

add_terminals-listed :
    (ls : List (List ℕ)) (l : List ℕ)
    → lists l (add_terminals ls) ≡ (
        lists l ls
        || (has_serial ls && (same_codes (codes "ttyO4") l || same_codes (codes "ttyO5") l)))
unfolding add_terminals
add_terminals-listed [] l = refl
add_terminals-listed (m ∷ ls) l =
    let four = same_codes (codes "ttyO4") l in
    let five = same_codes (codes "ttyO5") l in
    elim (Bool-cases (contains (codes "ttyO3") m)) [
      | inl e ↦
          ap (lists l) (if-true _ e)
          ∙ ap (λ b. same_codes m l || (four || (five || b))) (add_terminals-listed ls l)
          ∙ added_here (same_codes m l) four five (lists l ls) (has_serial ls)
          ∙ rw e refl
      | inr e ↦
          ap (lists l) (if-false _ e)
          ∙ ap (λ b. same_codes m l || b) (add_terminals-listed ls l)
          ∙ added_later (same_codes m l) four five (lists l ls) (has_serial ls)
          ∙ rw e refl
    ]

-- After the hook, /etc/securetty lists exactly the terminals that it listed before, and, if one of
-- its lines has ttyO3 in it, ttyO4 and ttyO5; and the last line of /etc/inittab starts a getty on
-- ttyO4.
pub terminals-listed :
    (h : Host) (s : ConsoleFiles) (l : List ℕ)
    → (lists l (console_hook h s).securetty ≡ (
        lists l s.securetty
        || (has_serial s.securetty
            && (same_codes (codes "ttyO4") l || same_codes (codes "ttyO5") l))))
      × ((console_hook h s).inittab ≡ s.inittab ++ (getty_line ∷ []))
unfolding console_hook
terminals-listed h s l = (add_terminals-listed s.securetty l, refl)
