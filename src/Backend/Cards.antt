-- ===== src/Backend/Cards.antt =====
-- Which cards update-to-debian/update_backend.sh calls large enough, against the image that
-- scripts/chronos-mkimage.sh makes.
use chronos_updates.Common.{
  ℕ, suc, ◌+◌, ◌*◌, ◌≤◌, ◌≡◌, refl, sym, ◌∙◌, ◌⊎◌, Bool, true, false, ◌||◌, Option, none, some,
  List, [], ◌∷◌, ◌++◌, map, ltb, arith, any, any-append, get_elem?, Bool-cases, inl, inr,
}
use chronos_updates.Backend.{
  Card, Output, top_sd_good, usb_check_done, sum_line, Tick, blocks_needed, report_card,
  is_too_small, check_files, is_syscheck, is_start, await_start,
}
use chronos_updates.Image.{bootpart_size, rootfs_size}

abbrev pub is_good : Output → Bool
is_good top_sd_good = true
is_good _ = false

-- A tick at which a card was there that holds the sectors of the image, in blocks of 1024 bytes, or
-- whose size sfdisk did not print.
abbrev pub UnknownOrHolds : Tick → Type 0
UnknownOrHolds t =
    (c : Card) × (t.card ≡ some c)
    × ((c.blocks ≡ none)
        ⊎ ((n : ℕ) × (c.blocks ≡ some n) × ((63 + bootpart_size + rootfs_size) * 512 ≤ n * 1024)))

good_size :
    (o : Option ℕ)
    → is_too_small o ≡ false
    → (o ≡ none) ⊎ ((n : ℕ) × (o ≡ some n) × (blocks_needed ≤ n))
good_size none h = inl refl
good_size (some n) h = inr (n, refl, ground (arith, h))

good_not_small :
    (c : Card) → any is_good (report_card (some c)) ≡ true → is_too_small c.blocks ≡ false
unfolding report_card
good_not_small c h = ground (arith, h)

-- A good card is large enough, if its size is known.
pub good_card :
    (c : Card) {n : ℕ}
    → c.blocks ≡ some n
    → any is_good (report_card (some c)) ≡ true
    → blocks_needed ≤ n
good_card c {n} e h =
    let k : ltb n blocks_needed ≡ false = rw e at (good_not_small c h) in ground (arith, k)

report_card-good :
    (t : Tick) (o : Option Card)
    → t.card ≡ o
    → any is_good (report_card o) ≡ true
    → UnknownOrHolds t
unfolding report_card
report_card-good t none e h = cc
report_card-good t (some c) e h = elim (good_size c.blocks (good_not_small c h)) [
  | inl u ↦ (c, e, inl u)
  | inr (n, u, le) ↦ (c, e, inr (n, u, omega arith))
]

sums-good : (sums : List (List ℕ)) → any is_good (map sum_line sums) ≡ false
sums-good [] = refl
sums-good (l ∷ sums) = sums-good sums

check_files-good :
    (checked : Bool) (sums : List (List ℕ)) → any is_good (check_files checked sums) ≡ false
unfolding check_files
check_files-good true sums = refl
check_files-good false sums =
    any-append is_good (map sum_line sums) (usb_check_done ∷ []) ∙ rw (sums-good sums) refl

now-good :
    (checked : Bool) (t : Tick)
    → any is_good (report_card t.card ++ check_files checked t.sums) ≡ true
    → UnknownOrHolds t
now-good checked t h =
    let good : any is_good (report_card t.card) ≡ true = ground (
      arith,
      h,
      any-append is_good (report_card t.card) (check_files checked t.sums),
      check_files-good checked t.sums,
    ) in
    report_card-good t t.card refl good

-- The good card of a list of ticks is at the first tick or at a later one.
first_or_later :
    (checked : Bool) (t : Tick) (ts : List Tick)
    → any is_good (await_start checked (t ∷ ts)).0 ≡ true
    → (any is_good (report_card t.card ++ check_files checked t.sums) ≡ true)
      ⊎ ((after : Bool) × (any is_good (await_start after ts).0 ≡ true))
unfolding await_start
first_or_later checked t ts h = elim (Bool-cases (is_syscheck t)) [
  | inl a ↦ elim (Bool-cases (is_start t)) [
    | inl b ↦ inl (rw (a, b) at h)
    | inr b ↦
        let now = report_card t.card ++ check_files checked t.sums in
        elim (Bool-cases (any is_good now)) [
          | inl e ↦ inl e
          | inr e ↦
              let later : (any is_good now || any is_good (await_start true ts).0) ≡ true =
                sym (any-append is_good now (await_start true ts).0) ∙ (rw (a, b) at h) in
              inr (true, rw e at later)
        ]
  ]
  | inr a ↦ elim (Bool-cases (is_start t)) [
    | inl b ↦ absurd (cc (rw (a, b) at h))
    | inr b ↦ inr (checked, rw (a, b) at h)
  ]
]

good_tick :
    (checked : Bool) (ts : List Tick)
    → any is_good (await_start checked ts).0 ≡ true
    → (i : ℕ) × (t : Tick) × (get_elem? ts i ≡ some t) × UnknownOrHolds t
unfolding await_start
good_tick checked [] h = cc
good_tick checked (t ∷ ts) h = elim (first_or_later checked t ts h) [
  | inl now ↦ (0, t, refl, now-good checked t now)
  | inr (after, later) ↦ let (i, u, e, holds) = good_tick after ts later in (suc i, u, e, holds)
]

-- If `TopSDGood` is printed, then at one of the ticks a card was in the slot that holds the whole
-- image, or whose size `sfdisk -s` did not print; and any card whose size it does not print, of
-- whatever brand, is reported as good.
pub top_sd_good-fits :
    (checked : Bool) (ts : List Tick) (brand : List ℕ)
    → any is_good (await_start checked ts).0 ≡ true
    → ((i : ℕ) × (t : Tick) × (get_elem? ts i ≡ some t) × UnknownOrHolds t)
      × (any is_good (report_card (some (record { blocks = none; oemid = brand }))) ≡ true)
unfolding report_card
top_sd_good-fits checked ts brand h = (good_tick checked ts h, refl)
