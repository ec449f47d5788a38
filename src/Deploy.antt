-- ===== src/Deploy.antt =====
-- The image of scripts/chronos-mkimage.sh on the card, after update-to-debian/update_backend.sh has
-- written it with `zcat camUpdate/debian.img.gz | dd of=/dev/mmcblk1`. The image is the file
-- `debian.img.gz` that the rule `debian` of the Makefile packs.
pub mod Slices
pub mod Written
use chronos_updates.Common.{ℕ, ◌*◌, ◌≤◌, ◌≡◌, List, [], ◌∷◌, length, take}
use chronos_updates.Image.{File, Packer}
use chronos_updates.Backend.{Output, start_writing}

-- What is relied on of dd: what fits the device stands at its start, and the device keeps its size.
pub record CardWriter : Type 0 where
  pub write : File → File → File
  pub write_start : (f card : File) → length f ≤ length card → take (length f) (write f card) ≡ f
  pub length-write : (f card : File) → length f ≤ length card → length (write f card) ≡ length card

-- The card after an action of the script. dd runs in the background; what it writes is taken to be
-- there from its start on, since the next action that looks at the card is after its end.
abbrev pub card_after_one : CardWriter → Packer → File → Output → File → File
card_after_one w zcat image start_writing card = w.write (zcat.unpack image) card
card_after_one w zcat image _ card = card

-- The card after the script's actions.
abbrev pub card_after : CardWriter → Packer → File → List Output → File → File
card_after w zcat image [] card = card
card_after w zcat image (o ∷ os) card =
    card_after w zcat image os (card_after_one w zcat image o card)
