-- ===== src/Abi/Laws.antt =====
-- What the layout of a struct promises.
use chronos_updates.Common.{
  ℕ, zero, suc, ◌+◌, ◌%◌, ◌≤◌, ◌<◌, ◌≡◌, some, List, [], ◌∷◌, arith, get_elem?,
}
use chronos_updates.Abi.{
  Align, one, bytes, Field, align_of, size_of, round_up, stricter, offsets, end_of, struct_align,
  size_of_struct,
}

round_up-bounds : (o : ℕ) (a : Align) → (o ≤ round_up o a) × (round_up o a < o + bytes a)
unfolding round_up
round_up-bounds o one = omega arith
round_up-bounds o _ = omega arith

round_up-aligned : (o : ℕ) (a : Align) → round_up o a % bytes a ≡ 0
unfolding round_up
round_up-aligned o one = omega arith
round_up-aligned o _ = omega arith

start-le-end : (o : ℕ) (fs : List Field) → o ≤ end_of o fs
unfolding end_of
start-le-end o [] = omega arith
start-le-end o (f ∷ fs) = omega (
  arith,
  round_up-bounds o (align_of f.type),
  start-le-end (round_up o (align_of f.type) + size_of f.type) fs,
)

-- A field in its place.
record Placed (o e p : ℕ) (f : Field) : Type 0 where
  pub after : o ≤ p
  pub inside : p + size_of f.type ≤ e
  pub aligned : p % bytes (align_of f.type) ≡ 0

field-Placed :
    (o : ℕ) (fs : List Field) (i : ℕ) {f : Field} {p : ℕ}
    → get_elem? fs i ≡ some f
    → get_elem? (offsets o fs) i ≡ some p
    → Placed o (end_of o fs) p f
unfolding offsets end_of
field-Placed o [] i h k = cc
field-Placed o (g ∷ fs) zero {f} {p} h k =
    let e : g ≡ f = cc in
    let d : round_up o (align_of g.type) ≡ p = cc in
    rw (← e, ← d)
      (record {
        after = (round_up-bounds o (align_of g.type)).0;
        inside = start-le-end (round_up o (align_of g.type) + size_of g.type) fs;
        aligned = round_up-aligned o (align_of g.type);
      })
field-Placed o (g ∷ fs) (suc i) h k =
    let rest = field-Placed (round_up o (align_of g.type) + size_of g.type) fs i h k in
    record {
      after = omega (arith, rest.after, round_up-bounds o (align_of g.type));
      inside = rest.inside;
      aligned = rest.aligned;
    }

fields_disjoint :
    (o : ℕ) (fs : List Field) (i j : ℕ) {f : Field} {p q : ℕ} {g : Field}
    → i < j
    → get_elem? fs i ≡ some f
    → get_elem? fs j ≡ some g
    → get_elem? (offsets o fs) i ≡ some p
    → get_elem? (offsets o fs) j ≡ some q
    → p + size_of f.type ≤ q
unfolding offsets
fields_disjoint o [] i j lt h h' k l = cc
fields_disjoint o (g ∷ fs) i zero lt h h' k l = elim lt [ ]
fields_disjoint o (g ∷ fs) zero (suc j) {f} {p} lt h h' k l =
    let e : g ≡ f = cc in
    let d : round_up o (align_of g.type) ≡ p = cc in
    rw (← e, ← d) (field-Placed (round_up o (align_of g.type) + size_of g.type) fs j h' l).after
fields_disjoint o (g ∷ fs) (suc i) (suc j) lt h h' k l =
    fields_disjoint (round_up o (align_of g.type) + size_of g.type) fs i j (omega arith) h h' k l

stricter-le : (a b : Align) → (bytes a ≤ bytes (stricter a b)) × (bytes b ≤ bytes (stricter a b))
unfolding stricter
stricter-le a b = ground arith

-- Every field with an offset lies in the struct, whose size its alignment divides.
pub field_in_struct :
    (fs : List Field) (i : ℕ) {f : Field} {p : ℕ}
    → get_elem? fs i ≡ some f
    → get_elem? (offsets 0 fs) i ≡ some p
    → (p + size_of f.type ≤ size_of_struct fs)
      × (p % bytes (align_of f.type) ≡ 0)
      × (size_of_struct fs % bytes (struct_align fs) ≡ 0)
unfolding size_of_struct
field_in_struct fs i h k =
    let placed = field-Placed 0 fs i h k in
    (
      omega (arith, placed.inside, round_up-bounds (end_of 0 fs) (struct_align fs)),
      placed.aligned,
      round_up-aligned (end_of 0 fs) (struct_align fs),
    )
