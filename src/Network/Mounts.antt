-- ===== src/Network/Mounts.antt =====
-- The three tests that rootfs/etc/init.d/networking makes of the mounts come to one.
use chronos_updates.Common.{
  ◌≡◌, refl, ap, ◌∙◌, Bool, true, false, ◌||◌, Option, none, some, List, [], ◌∷◌, ◌++◌, ◌==◌, ◌>>=◌,
  arith, if-true, if-false, either, codes, same_codes, same_codes-equal, any, both, Bool-cases, inl,
  inr,
}
use chronos_updates.Network.{
  Line, cons_word, split_blank, mount_of, prints, is_share, Action, say_nfs, say_smb, say_shares,
  refusal,
}

abbrev has_blank : Line → Bool
has_blank l = any (λ c. c == b' ') l

abbrev word_of : Option (Line × Line) → Line
word_of none = []
word_of (some (word, _)) = word

split_blank-word : (l : Line) → has_blank (word_of (split_blank l)) ≡ false
unfolding split_blank
split_blank-word [] = refl
split_blank-word (c ∷ cs) = elim (Bool-cases (c == b' ')) [
  | inl e ↦ rw e refl
  | inr e ↦ rw e (after (split_blank cs) e (split_blank-word cs))
]
  where
    after :
        (m : Option (Line × Line))
        → (c == b' ') ≡ false
        → has_blank (word_of m) ≡ false
        → has_blank (word_of (cons_word c m)) ≡ false
    after none e h = refl
    after (some (word, rest)) e h = rw (e, h) refl

-- The text of a mount at the root is that of no other one.
root_only :
    (point kind text : Line)
    → has_blank point ≡ false
    → same_codes (point ++ (b' ' ∷ kind)) (b'/' ∷ b' ' ∷ text) ≡ true
    → same_codes kind text ≡ true
root_only [] kind text h e = cc
root_only (c ∷ []) kind text h e =
    (both (b' ' == b' ') (same_codes kind text)
      (both (c == b'/') (same_codes (b' ' ∷ kind) (b' ' ∷ text)) e).1).1
root_only (c ∷ d ∷ point) kind text h e =
    let same : (d == b' ') ≡ true =
      (both (d == b' ') (same_codes (point ++ (b' ' ∷ kind)) text)
        (both (c == b'/') (same_codes ((d ∷ point) ++ (b' ' ∷ kind)) (b' ' ∷ text)) e).1).0 in
    absurd (ground (arith, h, same))

mount_of-word : (l : Line) → has_blank (word_of (mount_of l)) ≡ false
unfolding mount_of
mount_of-word l = outer (split_blank l)
  where
    inner :
        (point : Line) (m : Option (Line × Line))
        → has_blank point ≡ false
        → has_blank (word_of (m >>= λ (kind, _). some (point, kind))) ≡ false
    inner point none h = refl
    inner point (some (kind, rest)) h = h

    middle :
        (m : Option (Line × Line))
        → has_blank (word_of m) ≡ false
        → has_blank
            (word_of (m >>= λ (point, b). split_blank b >>= λ (kind, _). some (point, kind)))
          ≡ false
    middle none h = refl
    middle (some (point, b)) h = inner point (split_blank b) h

    outer :
        (m : Option (Line × Line))
        → has_blank (
            word_of (
              m >>= λ (_, a).
              split_blank a >>= λ (point, b). split_blank b >>= λ (kind, _). some (point, kind)))
          ≡ false
    outer none = refl
    outer (some (device, a)) = middle (split_blank a) (split_blank-word a)

-- A mount at the root of one of the two types is a share.
root-share :
    (text line : Line)
    → (same_codes text (codes "nfs") || same_codes text (codes "smbfs")) ≡ true
    → prints (b'/' ∷ b' ' ∷ text) line ≡ true
    → is_share line ≡ true
unfolding prints is_share
root-share text line known h = go (mount_of line) (mount_of-word line) h
  where
    more : (a b c : Bool) → (a || b) ≡ true → (a || (b || c)) ≡ true
    more true b c h = refl
    more false true c h = refl
    more false false c h = cc

    go :
        (m : Option (Line × Line))
        → has_blank (word_of m) ≡ false
        → elim m [
          | none ↦ false
          | some (point, kind) ↦ same_codes (point ++ (b' ' ∷ kind)) (b'/' ∷ b' ' ∷ text)
        ]
          ≡ true
        → elim m [
          | none ↦ false
          | some (_, kind) ↦
              same_codes kind (codes "nfs")
              || (same_codes kind (codes "smbfs")
                  || (same_codes kind (codes "ncp") || same_codes kind (codes "coda")))
        ]
          ≡ true
    go none h e = e
    go (some (point, kind)) h e =
        let same : kind ≡ text = same_codes-equal kind text (root_only point kind text h e) in
        rw same (more (same_codes text (codes "nfs")) (same_codes text (codes "smbfs")) _ known)

any-implies :
    (f g : Line → Bool)
    → ((l : Line) → f l ≡ true → g l ≡ true)
    → (ls : List Line) → any f ls ≡ true
    → any g ls ≡ true
any-implies f g i [] h = h
any-implies f g i (l ∷ ls) h = elim (Bool-cases (f l)) [
  | inl e ↦ rw (i l e) refl
  | inr e ↦ ground (arith, any-implies f g i ls (rw e at h))
]

-- Where no share is mounted the script does not refuse.
pub refusal-share : (mounts : List Line) → any is_share mounts ≡ false → refusal mounts ≡ none
unfolding refusal
refusal-share mounts h =
    if-false _ (none_of (codes "nfs") refl)
    ∙ if-false _ (none_of (codes "smbfs") refl)
    ∙ if-false _ h
  where
    none_of :
        (text : Line)
        → (same_codes text (codes "nfs") || same_codes text (codes "smbfs")) ≡ true
        → any (prints (b'/' ∷ b' ' ∷ text)) mounts ≡ false
    none_of text known = elim (Bool-cases (any (prints (b'/' ∷ b' ' ∷ text)) mounts)) [
      | inl e ↦
          let found =
            any-implies (prints (b'/' ∷ b' ' ∷ text)) is_share (λ l. root-share text l known) mounts
              e in
          absurd (cc (h, found))
      | inr e ↦ e
    ]

abbrev pub says_refusal : Action → Bool
says_refusal say_nfs = true
says_refusal say_smb = true
says_refusal say_shares = true
says_refusal _ = false

abbrev refused : Option Action → Bool
refused none = false
refused (some said) = says_refusal said

-- Where one is mounted it does.
refusal-refused :
    (mounts : List Line) → any is_share mounts ≡ true → refused (refusal mounts) ≡ true
unfolding refusal
refusal-refused mounts h =
    either (λ o. refused o ≡ true) (any (prints (codes "/ nfs")) mounts) refl
      (either (λ o. refused o ≡ true) (any (prints (codes "/ smbfs")) mounts) refl
        (ap refused (if-true _ h)))

pub refusal-some :
    (mounts : List Line)
    → any is_share mounts ≡ true
    → (said : Action) × (refusal mounts ≡ some said) × (says_refusal said ≡ true)
refusal-some mounts h = go (refusal mounts) (refusal-refused mounts h)
  where
    go :
        (o : Option Action)
        → refused o ≡ true
        → (said : Action) × (o ≡ some said) × (says_refusal said ≡ true)
    go none e = cc
    go (some said) e = (said, refl, e)
