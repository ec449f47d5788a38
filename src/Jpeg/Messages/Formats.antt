-- ===== src/Jpeg/Messages/Formats.antt =====
-- The conversions that the texts of rootfs/usr/include/jerror.h ask for: a message has up to eight
-- `int` parameters or one string (rootfs/usr/include/jpeglib.h, `msg_parm`).
use chronos_updates.Common.{
  ℕ, ◌≡◌, refl, Bool, true, false, ◌&&◌, ◌||◌, String, some, List, [], ◌∷◌, ◌++◌, arith, leb, ◌==◌,
  codes, if◌then◌else◌, all, all-get_elem?, get_elem?, length,
}
use chronos_updates.Jpeg.Messages.{
  JMessage, jmessage, error_messages, trace_messages, warning_messages, jmessages,
}

-- Where the reader of a text is: in plain text, or in a conversion, past its `%`.
data Place : Type 0 where
  plain conversion : Place

abbrev is_digit : ℕ → Bool
is_digit c = leb b'0' c && leb c b'9'

-- The letters of the conversions of a text, without their flags and widths.
conversions : Place → List ℕ → List ℕ
conversions p [] = []
conversions plain (c ∷ cs) = conversions (if c == b'%' then conversion else plain) cs
conversions conversion (c ∷ cs) = elim (is_digit c) [
  | true ↦ conversions conversion cs
  | false ↦ c ∷ conversions plain cs
]

takes_int : ℕ → Bool
takes_int c = c == b'd' || c == b'u' || c == b'x' || c == b'c'

-- At most eight conversions of an `int`, or one of a string.
fits : List ℕ → Bool
unfolding takes_int
fits (c ∷ []) = takes_int c || c == b's'
fits cs = all takes_int cs && leb (length cs) 8

message_fits : JMessage → Bool
unfolding fits conversions
message_fits m = fits (conversions plain (codes m.text))

all-append {ℓ} :
    {A : Type ℓ} (p : A → Bool) (xs ys : List A)
    → all p xs ≡ true
    → all p ys ≡ true
    → all p (xs ++ ys) ≡ true
all-append p [] ys h k = k
all-append p (x ∷ xs) ys h k = ground (arith, all-append p xs ys)

errors_fit : all message_fits error_messages ≡ true
unfolding message_fits error_messages
errors_fit = refl

traces_fit : all message_fits trace_messages ≡ true
unfolding message_fits trace_messages
traces_fit = refl

warnings_fit : all message_fits warning_messages ≡ true
unfolding message_fits warning_messages
warnings_fit = refl

first_fits : message_fits (jmessage "JMSG_NOMESSAGE" "Bogus message code %d") ≡ true
unfolding message_fits
first_fits = refl

module _ (jcopyright jversion : String) where
  all_fit :
      message_fits (jmessage "JMSG_COPYRIGHT" jcopyright) ≡ true
      → message_fits (jmessage "JMSG_VERSION" jversion) ≡ true
      → all message_fits (jmessages jcopyright jversion) ≡ true
  unfolding jmessages
  all_fit c v = rw first_fits (
      all-append message_fits error_messages _ errors_fit
        (rw (c, v) (all-append message_fits trace_messages _ traces_fit warnings_fit)))

  -- Where the texts of jversion.h do, every text asks for at most eight integers, or for one
  -- string.
  jmessages_fit :
      message_fits (jmessage "JMSG_COPYRIGHT" jcopyright) ≡ true
      → message_fits (jmessage "JMSG_VERSION" jversion) ≡ true
      → (i : ℕ) {m : JMessage} → get_elem? (jmessages jcopyright jversion) i ≡ some m
      → message_fits m ≡ true
  jmessages_fit c v i e =
      all-get_elem? message_fits (jmessages jcopyright jversion) i _ (all_fit c v) e
