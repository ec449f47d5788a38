-- ===== src/DBus/Glib.antt =====
-- The calling convention of dbus-glib's variadic functions, which the client wrappers of
-- rootfs/usr/include/dbus-1.0/dbus/dbus-glib-bindings.h use. libdbus-glib itself is not in the
-- repository: what it does with a call is the parameter `DBusGlib`.
use chronos_updates.Common.{
  ℕ, ◌≡◌, Bool, true, false, String, Option, none, some, List, [], ◌∷◌, map, ◌>>=◌, if◌then◌else◌,
}

-- The `GType` tags that the wrappers pass; `uchar_array` is
-- `dbus_g_type_get_collection ("GArray", G_TYPE_UCHAR)`.
pub data GType : Type 0 where
  invalid string uint boolean strv uchar_array : GType

-- The C types of the variables whose addresses the wrappers pass: `char *`, `guint`, `gboolean`,
-- `char **` and `GArray *`.
pub data CType : Type 0 where
  char_ptr guint gboolean char_ptr_ptr garray_ptr : CType

-- What a call carries or returns, by its tag.
pub data Value : Type 0 where
  text : String → Value
  number : ℕ → Value
  flag : Bool → Value
  texts : List String → Value
  bytes : List ℕ → Value

-- One variadic argument: a tag, a `const char *`, a `guint`, or the address of a variable.
pub data VarArg : Type 0 where
  tag : GType → VarArg
  chars : String → VarArg
  count : ℕ → VarArg
  out : CType → VarArg

-- The tags whose values a variable of the C type holds.
abbrev pub holds : GType → CType → Bool
holds string char_ptr = true
holds uint guint = true
holds boolean gboolean = true
holds strv char_ptr_ptr = true
holds uchar_array garray_ptr = true
holds _ _ = false

-- The input part of an argument list, up to its `G_TYPE_INVALID`, and the rest. A tag that the
-- next argument does not fit, or a list with no end, is undefined behaviour, `none`.
abbrev pub in_args : List VarArg → Option (List Value × List VarArg)
in_args (tag invalid ∷ rest) = some ([], rest)
in_args (tag string ∷ chars s ∷ rest) = in_args rest >>= λ (vs, r). some (text s ∷ vs, r)
in_args (tag uint ∷ count n ∷ rest) = in_args rest >>= λ (vs, r). some (number n ∷ vs, r)
in_args _ = none

-- The output part: the tags that are asked for. Each has to fit the variable behind it.
abbrev pub out_args : List VarArg → Option (List GType)
out_args (tag invalid ∷ []) = some []
out_args (tag t ∷ out c ∷ rest) =
    let asked = out_args rest in if holds t c then asked >>= (λ ts. some (t ∷ ts)) else none
out_args _ = none

-- The input arguments of a call that ends at their `G_TYPE_INVALID`.
abbrev pub only_in_args : List VarArg → Option (List Value)
only_in_args va = in_args va >>= λ (vs, r). elim r [ [] ↦ some vs | _ ∷ _ ↦ none ]

-- A C variable that a call may set: as it was (`untouched`), or set to a value.
pub data Local : Type 0 where
  untouched : Local
  set_to : Value → Local

-- How a call ends: with values, or with an error and what the library then leaves in the variables.
pub data Reply (Failure : Type 0) : Type 0 where
  returned : List Value → Reply Failure
  failed : Failure → List Local → Reply Failure

-- What the wrappers rely on of dbus-glib. `World` is the state of the connection and the bus.
-- Its documentation describes a blocking call as a `begin_call` that an `end_call` follows.
pub record DBusGlib : Type 1 where
  pub World : Type 0
  pub Proxy : Type 0
  pub Failure : Type 0
  pub CallId : Type 0
  pub call : World → Proxy → String → List Value → List GType → Reply Failure × World
  pub begin_call : World → Proxy → String → List Value → CallId × World
  pub end_call : World → Proxy → CallId → List GType → Reply Failure × World
  pub call_is_begin_end :
      (w : World) (p : Proxy) (m : String) (vs : List Value) (ts : List GType)
      → call w p m vs ts ≡ end_call (begin_call w p m vs).1 p (begin_call w p m vs).0 ts

-- What a call leaves in the caller's variables.
pub record Returned (Failure : Type 0) : Type 0 where
  pub success : Bool
  pub outs : List Local
  pub error : Option Failure

-- `TRUE` with the variables set, or `FALSE` with the error set.
unfoldable pub settle : {F : Type 0} → Reply F → Returned F
settle (returned vs) = record { success = true; outs = map set_to vs; error = none }
settle (failed e left) = record { success = false; outs = left; error = some e }
