-- ===== src/Image/Slices.antt =====
-- Files put one after the other, and the parts of the result.
use chronos_updates.Common.{
  ℕ, zero, suc, ◌*◌, ◌≤◌, ◌≡◌, refl, ap, subst, [], ◌∷◌, ◌++◌, arith, length, take, drop,
  length-append, length-replicate, take-append, drop-append,
}
use chronos_updates.Image.{File, zeros, truncate, Partition, sector}

-- The bytes of a partition of a card.
abbrev pub partition_bytes : Partition → File → File
partition_bytes p f = take (p.size * sector) (drop (p.start * sector) f)

length-take : (n : ℕ) (f : File) → n ≤ length f → length (take n f) ≡ n
length-take zero f h = refl
length-take (suc n) [] h = absurd (omega arith)
length-take (suc n) (c ∷ f) h = ap suc (length-take n f (omega arith))

pub length-truncate : (n : ℕ) (f : File) → length (truncate n f) ≡ n
unfolding truncate zeros
length-truncate n f =
    length-take n (f ++ zeros n)
      (omega (arith, length-append f (zeros n), length-replicate {A = ℕ} n 0))

pub take_front : (n : ℕ) (f g : File) → length f ≡ n → take n (f ++ g) ≡ f
take_front n f g e = subst (λ k. take k (f ++ g) ≡ f) e (take-append f g)

pub drop_front : (n : ℕ) (f g : File) → length f ≡ n → drop n (f ++ g) ≡ g
drop_front n f g e = subst (λ k. drop k (f ++ g) ≡ g) e (drop-append f g)
