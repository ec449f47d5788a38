-- ===== src/Console/Expansion.antt =====
-- What the shell makes of the here-documents of the hooks.
use chronos_updates.Common.{
  ℕ, ◌≡◌, refl, ap, ◌∙◌, Bool, true, false, ◌||◌, List, [], ◌∷◌, ◌++◌, ◌==◌, any, codes,
  append_assoc, if-false, Bool-cases, inl, inr,
}
use chronos_updates.Console.{
  Host, Mode, plain, plain_step, expand, bashrc, apt_hook, backports_source, fstab, fstab_source,
}

-- What the shell reads in another way.
abbrev is_special : ℕ → Bool
is_special c = c == b'$' || (c == b'`' || c == b'\\')

plain_step-plain : (c : ℕ) → is_special c ≡ false → plain_step c ≡ (c ∷ [], plain)
plain_step-plain c e =
    let (p, others) = neither (c == b'$') (c == b'`' || c == b'\\') e in
    let (q, r) = neither (c == b'`') (c == b'\\') others in
    if-false _ p ∙ if-false _ q ∙ if-false _ r
  where
    neither : (a b : Bool) → (a || b) ≡ false → (a ≡ false) × (b ≡ false)
    neither true b k = cc
    neither false b k = (refl, k)

expand-plain : (h : Host) (t : List ℕ) → any is_special t ≡ false → expand h plain t ≡ t
unfolding expand
expand-plain h [] e = refl
expand-plain h (c ∷ t) e = elim (Bool-cases (is_special c)) [
  | inl special ↦ absurd (cc (special, e))
  | inr harmless ↦
      ap (λ (s : List ℕ × Mode). s.0 ++ expand h s.1 t) (plain_step-plain c harmless)
      ∙ ap (λ u. c ∷ u) (expand-plain h t (rw harmless at e))
]

-- On any host, the shell writes a text that has no dollar, backquote or backslash as it stands. The
-- lines for /root/.bashrc are written with what the host's dircolors prints, and with the host's
-- LS_OPTIONS in place of the parameter; the list of packages names the suite of the environment, and
-- the list of backports and /etc/fstab are as they stand in the hooks.
pub hooks-expand :
    (h : Host) (t : List ℕ)
    → any is_special t ≡ false
    → (expand h plain t ≡ t)
      × (bashrc h
          ≡ codes "export LS_OPTIONS='--color=auto'\neval \""
            ++ (h.output (codes "dircolors")
                ++ (codes "\"\nalias ls='ls " ++ (h.variable (codes "LS_OPTIONS") ++ codes "'\n"))))
      × ((apt_hook h).debian_list
          ≡ codes "deb http://debian.krontech.ca/apt/debian/ "
            ++ (h.variable (codes "SUITE") ++ codes " main\n"))
      × ((apt_hook h).backports_list ≡ backports_source)
      × (fstab h ≡ fstab_source)
unfolding bashrc apt_hook fstab expand
hooks-expand h t e = (
  expand-plain h t e,
  ap
      (λ u.
        codes "export LS_OPTIONS='--color=auto'\neval \""
        ++ (h.output (codes "dircolors") ++ (codes "\"\nalias ls='ls " ++ u)))
      (append_assoc (h.variable (codes "LS_OPTIONS")) (codes "'") (codes "\n")),
  refl,
  expand-plain h backports_source refl,
  expand-plain h fstab_source refl,
)
