-- ===== src/Deploy/Written.antt =====
-- The card at the end of an update.
use chronos_updates.Common.{
  ℕ, zero, suc, ◌+◌, ◌*◌, ◌≤◌, ◌<◌, ◌≡◌, refl, sym, ap, ◌∙◌, Bool, true, false, ◌&&◌, String, some,
  List, [], ◌∷◌, ◌++◌, arith, any, keep, length, take, codes, replicate, if◌then◌else◌, inl, inr,
  Bool-cases,
}
use chronos_updates.Image.{
  File, Packer, Tools, Disk, boot_partition, rootfs_partition, bootpart_size, rootfs_size, suffix,
  packer, make_ptable, bootstrapped, build,
}
use chronos_updates.Image.Slices.{partition_bytes}
use chronos_updates.Image.Outcome.{IsCard, build-outcome}
use chronos_updates.Backend.{
  Card, Tick, Output, start_writing, signal_writer, write_done, power_off, Found, pmic_is_old,
  await_power_down, report_card, backend,
}
use chronos_updates.Backend.Cards.{is_good, good_card}
use chronos_updates.Backend.Writing.{is_step, after_start, steps_after, EndsAt, backend-steps}
use chronos_updates.Deploy.{CardWriter, card_after, card_after_one}
use chronos_updates.Deploy.Slices.{part_of_start}

module _ (w : CardWriter) (zcat : Packer) (image : File) where
  after_one-other :
      (o : Output) (card : File) → is_step o ≡ false → card_after_one w zcat image o card ≡ card
  after_one-other start_writing card h = cc
  after_one-other _ card h = refl

  card_after-keep :
      (os : List Output) (card : File)
      → card_after w zcat image os card ≡ card_after w zcat image (keep is_step os) card
  card_after-keep [] card = refl
  card_after-keep (o ∷ os) card = elim (Bool-cases (is_step o)) [
    | inl e ↦ rw e (card_after-keep os (card_after_one w zcat image o card))
    | inr e ↦ rw (e, after_one-other o card e) (card_after-keep os card)
  ]

  signals-after :
      (n : ℕ) (os : List Output) (card : File)
      → card_after w zcat image (replicate n signal_writer ++ os) card
        ≡ card_after w zcat image os card
  signals-after zero os card = refl
  signals-after (suc n) os card = signals-after n os card

  steps-after :
      (f : Found) (m : ℕ) (ts : List Tick) (card : File)
      → card_after w zcat image (steps_after f m ts) card ≡ w.write (zcat.unpack image) card
  steps-after f m ts card = elim (Bool-cases (f.pmic_file && pmic_is_old f.pmic_version)) [
    | inl e ↦ rw e (signals-after (suc m) _ _ ∙ last-after (await_power_down ts))
    | inr e ↦ rw e (signals-after (suc m) _ _ ∙ last-after (await_power_down ts))
  ]
    where
      last-after :
          (b : Bool)
          → card_after w zcat image
              (write_done ∷ (if b then power_off ∷ [] else []))
              (w.write (zcat.unpack image) card)
            ≡ w.write (zcat.unpack image) card
      last-after true = refl
      last-after false = refl

-- A file name in `.gz` is packed by gzip.
packer_gz : (t : Tools) (name : String) → suffix name ≡ codes "gz" → packer t name ≡ t.gzip
unfolding packer
packer_gz t name h = rw h refl

module _ (t : Tools) (w : CardWriter) (options : List String) (name : String) (d : Disk) where
  -- An image of a whole card, written to a card that is large enough.
  written_image :
      (image card : File) (blocks : ℕ)
      → IsCard t options name d image
      → length card ≡ blocks * 1024
      → (63 + bootpart_size + rootfs_size) * 512 ≤ blocks * 1024
      → let after = w.write ((packer t name).unpack image) card in
        (partition_bytes boot_partition after ≡ (bootstrapped t options d).1)
        × (partition_bytes rootfs_partition after ≡ (bootstrapped t options d).2)
        × (take (63 * 512) after ≡ make_ptable t)
        × (length after ≡ length card)
  written_image image card blocks (ptable, boot, rootfs, size) e h =
      let whole = (packer t name).unpack image in
      let start = w.write_start whole card (omega arith) in
      (
        part_of_start (bootpart_size * 512) (63 * 512) whole (w.write whole card) start
              (omega arith)
            ∙ boot,
        part_of_start (rootfs_size * 512) ((bootpart_size + 63) * 512) whole (w.write whole card)
              start (omega arith)
            ∙ rootfs,
        part_of_start (63 * 512) 0 whole (w.write whole card) start (omega arith) ∙ ptable,
        w.length-write whole card (omega arith),
      )

  -- Let the image be made under a name in `.gz` by a bootstrap that succeeds, the card be one for
  -- which `TopSDGood` is reported and whose size sfdisk prints, `Start` come, and dd end. Then the
  -- update comes to its end, and the card has the partition table at its start, in each partition of
  -- that table exactly the file system that was made for it, and its size.
  pub deployed_card :
      (f : Found) (m fuel : ℕ) (ts : List Tick) {rest : List Tick} (c : Card) (card : File)
      {blocks : ℕ}
      → suffix name ≡ codes "gz"
      → (bootstrapped t options d).0 ≡ 0
      → any is_good (report_card (some c)) ≡ true
      → c.blocks ≡ some blocks
      → length card ≡ blocks * 1024
      → m < fuel
      → EndsAt f.writing m
      → after_start ts ≡ some rest
      → (image : File) × (trace : List Output) × ((build t options name d).1.image ≡ some image)
        × (backend f fuel ts ≡ some trace)
        × (partition_bytes boot_partition (card_after w t.gzip image trace card)
            ≡ (bootstrapped t options d).1)
        × (partition_bytes rootfs_partition (card_after w t.gzip image trace card)
            ≡ (bootstrapped t options d).2)
        × (take (63 * 512) (card_after w t.gzip image trace card) ≡ make_ptable t)
        × (length (card_after w t.gzip image trace card) ≡ length card)
  deployed_card f m fuel ts {rest} c card {blocks} gz done good counted size h ends started =
      elim (build-outcome t options name d) [
        | inl (image, _, _, made, whole) ↦
            let (trace, runs, steps) = backend-steps f m fuel ts h ends in
            let steps' : keep is_step trace ≡ steps_after f m rest = rw started at steps in
            let enough : 3730000 ≤ blocks = good_card c counted good in
            let after : card_after w t.gzip image trace card
                ≡ w.write ((packer t name).unpack image) card =
              card_after-keep w t.gzip image trace card
              ∙ ap (λ l. card_after w t.gzip image l card) steps'
              ∙ steps-after w t.gzip image f m rest card
              ∙ ap (λ (p : Packer). w.write (p.unpack image) card) (sym (packer_gz t name gz)) in
            let (boot, rootfs, ptable, kept) =
              written_image image card blocks whole size (omega arith) in
            (
              image,
              trace,
              made,
              runs,
              ap (partition_bytes boot_partition) after ∙ boot,
              ap (partition_bytes rootfs_partition) after ∙ rootfs,
              ap (take (63 * 512)) after ∙ ptable,
              ap length after ∙ kept,
            )
        | inr (fails, _, _) ↦ absurd (fails done)
      ]
