-- ===== src/Checks/Deployment.antt =====
-- The image of scripts/chronos-mkimage.sh on a card, with programs that copy.
use chronos_updates.Common.{
  ℕ, ◌*◌, ◌≤◌, ◌≡◌, suc, refl, ap, true, some, List, [], ◌∷◌, ◌++◌, arith, any, codes, length,
  length-replicate, take, take-append, drop,
}
use chronos_updates.Image.{
  File, boot_partition, rootfs_partition, zeros, suffix, cat, make_ptable, bootstrapped, build,
}
use chronos_updates.Image.Slices.{partition_bytes}
use chronos_updates.Backend.{Output, report_card, backend}
use chronos_updates.Backend.Cards.{is_good}
use chronos_updates.Deploy.{CardWriter, card_after}
use chronos_updates.Deploy.Written.{deployed_card}
use chronos_updates.Checks.Card.{copying, empty}
use chronos_updates.Checks.Session.{card, tick, ticks, found, signalled}

length-over : (f g : File) → length f ≤ length g → length (f ++ drop (length f) g) ≡ length g
length-over [] g h = refl
length-over (c ∷ f) [] h = absurd (omega arith)
length-over (c ∷ f) (b ∷ g) h = ap suc (length-over f g (omega arith))

-- A dd that writes over the start of the card.
abbrev over : CardWriter
over = record {
  write = λ f card. f ++ drop (length f) card;
  write_start = λ f card h. take-append f (drop (length f) card);
  length-write = length-over;
}

empty_card : (n : ℕ) → length (zeros n) ≡ n
unfolding zeros
empty_card n = length-replicate {A = ℕ} n 0

packed : suffix "debian.img.gz" ≡ codes "gz"
unfolding suffix
packed = refl

large : any is_good (report_card (some card)) ≡ true
unfolding report_card
large = refl

deployed_card_example :
    (image : File) × (trace : List Output) × ((build (copying 0) [] "debian.img.gz" empty).1.image
      ≡ some image)
    × (backend found 4 ticks ≡ some trace)
    × (partition_bytes boot_partition (card_after over cat image trace (zeros (3900000 * 1024)))
        ≡ (bootstrapped (copying 0) [] empty).1)
    × (partition_bytes rootfs_partition (card_after over cat image trace (zeros (3900000 * 1024)))
        ≡ (bootstrapped (copying 0) [] empty).2)
    × (take (63 * 512) (card_after over cat image trace (zeros (3900000 * 1024)))
        ≡ make_ptable (copying 0))
    × (length (card_after over cat image trace (zeros (3900000 * 1024)))
        ≡ length (zeros (3900000 * 1024)))
unfolding bootstrapped
deployed_card_example =
    deployed_card (copying 0) over [] "debian.img.gz" empty found 3 4 ticks
      {rest = tick "" ∷ tick "PowerDown" ∷ []} card (zeros (3900000 * 1024)) packed refl large refl
      (empty_card (3900000 * 1024)) (omega arith) (signalled, refl) refl
