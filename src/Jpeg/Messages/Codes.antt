-- ===== src/Jpeg/Messages/Codes.antt =====
-- The value of a message code of rootfs/usr/include/jerror.h is its place in the enumeration that
-- the list of messages makes, and so its text's place in the table that the same list makes.
use text.Mathlib.Text.{◌==◌ as ◌=ₛ◌}
use text.Mathlib.TextEquality.{eq_iff}
use mathlib.Core.Option
use chronos_updates.Common.{
  ℕ, zero, suc, ◌≡◌, refl, Bool, true, not, ◌&&◌, String, Option, none, some, List, [], ◌∷◌, map,
  arith, all, get_elem?, all-get_elem?, if◌then◌else◌,
}
use chronos_updates.Jpeg.Messages.{
  JMessage, error_messages, trace_messages, warning_messages, jmessages,
}

-- The enumerators, in order.
abbrev pub enumerators : List JMessage → List String
enumerators ms = map (λ m. m.code) ms

-- The string table: each text at the place of its message.
abbrev string_table : List JMessage → List String
string_table ms = map (λ m. m.text) ms

-- The value of an enumerator, `JMSG_LASTMSGCODE` being the number of messages.
pub value_of : String → List String → Option ℕ
value_of s [] = none
value_of s (t ∷ ts) = let later = Option.map suc (value_of s ts) in if t =ₛ s then some 0 else later

absent : String → List String → Bool
absent s ts = all (λ t. not (s =ₛ t)) ts

distinct : List String → Bool
unfolding absent
distinct [] = true
distinct (s ∷ ts) = absent s ts && distinct ts

distinct-value_of :
    (ts : List String) (i : ℕ) (s : String)
    → distinct ts ≡ true
    → get_elem? ts i ≡ some s
    → value_of s ts ≡ some i
unfolding distinct absent value_of
distinct-value_of [] i s h e = cc
distinct-value_of (t ∷ ts) zero s h e = ground (arith, eq_iff t s)
distinct-value_of (t ∷ ts) (suc i) s h e =
    let parts : (absent t ts ≡ true) × (distinct ts ≡ true) = ground arith in
    let other : not (t =ₛ s) ≡ true = all-get_elem? (λ u. not (t =ₛ u)) ts i s parts.0 e in
    ground (arith, distinct-value_of ts i s parts.1 e)

get_elem?-map {ℓ κ} :
    {A : Type ℓ} {B : Type κ} (f : A → B) (xs : List A) (i : ℕ) {x : A}
    → get_elem? xs i ≡ some x
    → get_elem? (map f xs) i ≡ some (f x)
get_elem?-map f [] i e = cc
get_elem?-map f (y ∷ ys) zero e = cc
get_elem?-map f (y ∷ ys) (suc i) e = get_elem?-map f ys i e

jmessages-distinct : (a b : String) → distinct (enumerators (jmessages a b)) ≡ true
unfolding distinct jmessages error_messages trace_messages warning_messages
jmessages-distinct a b = refl

-- The message at place `i` of the list has the value `i` as an enumerator, and its text stands at
-- place `i` of the string table.
value_of-string_table :
    (a b : String) (i : ℕ) {m : JMessage}
    → get_elem? (jmessages a b) i ≡ some m
    → (value_of m.code (enumerators (jmessages a b)) ≡ some i)
      × (get_elem? (string_table (jmessages a b)) i ≡ some m.text)
value_of-string_table a b i e = (
  distinct-value_of (enumerators (jmessages a b)) i _ (jmessages-distinct a b)
      (get_elem?-map (λ m. m.code) (jmessages a b) i e),
  get_elem?-map (λ m. m.text) (jmessages a b) i e,
)
