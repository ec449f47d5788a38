-- ===== src/DBus/Protocol/Errors/Laws.antt =====
-- Error names tell errors apart, are legal names, and agree with the enumeration's order.
use text.Mathlib.Text.{◌==◌ as ◌=ₛ◌}
use chronos_updates.Common.{
  ℕ, ◌+◌, ◌≡◌, ◌≢◌, ◌↔◌, ◌<◌, refl, Bool, true, false, ◌&&◌, ◌||◌, String, Option, none, some, List,
  [], ◌∷◌, arith, ltb, leb, ◌==◌, codes, if◌then◌else◌, length, get_elem?,
}
use chronos_updates.DBus.Protocol.Limits.{maximum_name_length}
use chronos_updates.DBus.Protocol.Errors.{
  ErrorName, failed, error_name, error_names, DBusGError, gerror_failed, gerror_value, named_after,
  gerror_remote_exception,
}

-- The error that has a name.
find_name : String → List ErrorName → Option ErrorName
find_name s [] = none
find_name s (e ∷ es) = let rest = find_name s es in if error_name e =ₛ s then some e else rest

find_name-error_name : (e : ErrorName) → find_name (error_name e) error_names ≡ some e
unfolding find_name error_name
find_name-error_name failed = refl
find_name-error_name _ = refl

-- Different errors have different names.
error_name_injective : (d e : ErrorName) → error_name d ≡ error_name e → d ≡ e
error_name_injective d e h = cc (find_name-error_name d, find_name-error_name e)

abbrev is_letter : ℕ → Bool
is_letter c = leb b'a' c && leb c b'z' || (leb b'A' c && leb c b'Z' || c == b'_')

abbrev pub is_digit : ℕ → Bool
is_digit c = leb b'0' c && leb c b'9'

-- Elements of letters, digits and `_` that start with no digit, joined by dots. `started` says
-- that the present element has a character.
abbrev legal_elements : Bool → List ℕ → Bool
legal_elements started [] = started
legal_elements started (c ∷ cs) =
    if c == b'.'
    then started && legal_elements false cs
    else (is_letter c || (started && is_digit c)) && legal_elements true cs

-- Every error name is made of legal elements, and is shorter than the limit.
error_name_legal :
    (e : ErrorName)
    → (legal_elements false (codes (error_name e)) ≡ true)
      × (length (codes (error_name e)) < maximum_name_length)
unfolding error_name
error_name_legal failed = (refl, omega arith)
error_name_legal _ = (refl, omega arith)

-- The value of an enumerator of `DBusGError` is the place of its own name in the list of
-- dbus-protocol.h exactly if it is below 28.
gerror_value_index :
    (g : DBusGError)
    → (get_elem? error_names (gerror_value g) ≡ named_after g) ↔ (gerror_value g < 28)
unfolding gerror_value named_after
gerror_value_index gerror_failed = ground arith
gerror_value_index _ = ground arith

-- An enumerator other than the last is spelled after the name at its own place below 28, and seven
-- places further on from there.
gerror_value_order :
    (g : DBusGError)
    → g ≢ gerror_remote_exception
    → let v = gerror_value g in
      get_elem? error_names (if ltb v 28 then v else v + 7) ≡ named_after g
unfolding gerror_value named_after
gerror_value_order gerror_failed h = refl
gerror_value_order _ h = ground arith
