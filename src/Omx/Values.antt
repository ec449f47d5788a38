-- ===== src/Omx/Values.antt =====
-- The values of the enumerations of rootfs/usr/include/omx/omx_vfcc.h.
use chronos_updates.Common.{
  ℕ, ◌≡◌, ◌^◌, refl, Bool, true, false, ◌&&◌, String, some, List, [], ◌∷◌, all, ltb, length,
  if◌then◌else◌,
}
use chronos_updates.Omx.{
  Enumerator, same_as, values_from, Enumeration, hw_port_id, capture_mode, vif_mode, scan_type,
  enumerators, hw_port_id_enumerators, capture_mode_enumerators, vif_mode_enumerators,
  scan_type_enumerators,
}

-- An enumerator that is defined as another one.
abbrev is_alias : Enumerator → Bool
is_alias e = elim e.definition [ same_as _ ↦ true | _ ↦ false ]

-- The values of the enumerators that are no aliases.
abbrev own_values : List Enumerator → List (String × ℕ) → List ℕ
own_values (e ∷ es) ((n, v) ∷ vs) =
    let more = own_values es vs in if is_alias e then more else v ∷ more
own_values _ _ = []

-- Each number is below the next one.
abbrev ascending : List ℕ → Bool
ascending (a ∷ b ∷ ns) = ltb a b && ascending (b ∷ ns)
ascending _ = true

-- The enumerators of every enumeration have values, one each, that a signed 32-bit integer holds;
-- those of the enumerators that are no aliases ascend, so that no two of them are equal.
enumerators-valued :
    (e : Enumeration)
    → (vs : List (String × ℕ)) × (values_from 0 [] (enumerators e) ≡ some vs)
      × (length vs ≡ length (enumerators e))
      × (all (λ (n, v). ltb v (2 ^ 31)) vs ≡ true)
      × (ascending (own_values (enumerators e) vs) ≡ true)
unfolding values_from enumerators hw_port_id_enumerators capture_mode_enumerators
    vif_mode_enumerators scan_type_enumerators
enumerators-valued hw_port_id = (_, refl, refl, refl, refl)
enumerators-valued capture_mode = (_, refl, refl, refl, refl)
enumerators-valued vif_mode = (_, refl, refl, refl, refl)
enumerators-valued scan_type = (_, refl, refl, refl, refl)
