-- ===== src/JsonWriter/Tree.antt =====
-- What the calls for a whole value write, and the JSON text that it should be.
use libiproute.Prelude.{
  ℕ, zero, suc, ◌≡◌, ◌/◌, ◌%◌, ◌&&◌, ◌||◌, not, leb, ◌==◌, All, Bool, true, false, Option, some, [],
  ◌∷◌, ◌++◌, if◌then◌else◌, ◌>>=◌, Bytes, codes,
}
use Prim.Native.Nat.{max}
use libiproute.Prelude.Int.{ℤ}
use libiproute.CLib.{print_num, digit_char}
use libiproute.JsonWriter.{
  Writer, escape_char, jsonw_name, jsonw_start_object, jsonw_end_object, jsonw_start_array,
  jsonw_end_array, jsonw_string, jsonw_bool, jsonw_null,
}
use libiproute.JsonWriter.Values.{print_signed, jsonw_u64, jsonw_s64}

-- The values of JSON, less the fractions.
mutual
  pub data Value : Type 0 where
    null_value : Value
    truth : Bool → Value
    text : Bytes → Value
    count : ℕ → Value
    whole : ℤ → Value
    array : Items → Value
    object : Fields → Value

  pub data Items : Type 0 where
    no_items : Items
    item : Value → Items → Items

  pub data Fields : Type 0 where
    no_fields : Fields
    field : Bytes → Value → Fields → Fields

-- The calls that write a value: those of `jsonw_start_array` or `jsonw_start_object`, of the parts,
-- and of the end.
unfoldable mutual
  pub write : Value → Writer → Option Writer
  write null_value w = some (jsonw_null w)
  write (truth b) w = some (jsonw_bool w b)
  write (text s) w = some (jsonw_string w s)
  write (count n) w = some (jsonw_u64 w n)
  write (whole z) w = some (jsonw_s64 w z)
  write (array vs) w = write_items vs (jsonw_start_array w) >>= jsonw_end_array
  write (object fs) w = write_fields fs (jsonw_start_object w) >>= jsonw_end_object

  pub write_items : Items → Writer → Option Writer
  write_items no_items w = some w
  write_items (item v vs) w = write v w >>= write_items vs

  pub write_fields : Fields → Writer → Option Writer
  write_fields no_fields w = some w
  write_fields (field name v fs) w = write v (jsonw_name w name) >>= write_fields fs

-- How deep a value is nested.
unfoldable mutual
  pub height : Value → ℕ
  height null_value = 0
  height (truth b) = 0
  height (text s) = 0
  height (count n) = 0
  height (whole z) = 0
  height (array vs) = suc (height_items vs)
  height (object fs) = suc (height_fields fs)

  pub height_items : Items → ℕ
  height_items no_items = 0
  height_items (item v vs) = max (height v) (height_items vs)

  pub height_fields : Fields → ℕ
  height_fields no_fields = 0
  height_fields (field name v fs) = max (height v) (height_fields fs)

-- A text in quotes, as `jsonw_puts` writes it.
abbrev pub escape : Bytes → Bytes
escape [] = []
escape (c ∷ s) = escape_char c ++ escape s

abbrev pub quoted : Bytes → Bytes
quoted s = b'"' ∷ escape s ++ b'"' ∷ []

-- A character in a JSON text (RFC 8259): the quotation mark, the backslash and the control characters
-- are escaped.
abbrev pub json_char : ℕ → Bytes
json_char c =
    if c == b'"' || c == b'\\'
    then b'\\' ∷ c ∷ []
    else if leb 32 c
    then c ∷ []
    else if c == 8
    then codes "\\b"
    else if c == 9
    then codes "\\t"
    else if c == 10
    then codes "\\n"
    else if c == 12
    then codes "\\f"
    else if c == 13
    then codes "\\r"
    else codes "\\u00" ++ digit_char (c / 16) ∷ digit_char (c % 16) ∷ []

abbrev pub json_chars : Bytes → Bytes
json_chars [] = []
json_chars (c ∷ s) = json_char c ++ json_chars s

abbrev pub json_string : Bytes → Bytes
json_string s = b'"' ∷ json_chars s ++ b'"' ∷ []

-- No backslash, no apostrophe, and of the control characters those with a letter of their own.
abbrev pub is_plain : ℕ → Bool
is_plain c =
    not (c == b'\\')
    && not (c == b'\'')
    && (leb 32 c || c == 8 || c == 9 || c == 10 || c == 12 || c == 13)

abbrev pub Plain : Bytes → Type 0
Plain s = All (λ (c : ℕ). is_plain c ≡ true) s

-- All texts of a value are plain.
unfoldable mutual
  pub PlainValue : Value → Type 0
  PlainValue null_value = Unit
  PlainValue (truth b) = Unit
  PlainValue (text s) = Plain s
  PlainValue (count n) = Unit
  PlainValue (whole z) = Unit
  PlainValue (array vs) = PlainItems vs
  PlainValue (object fs) = PlainFields fs

  pub PlainItems : Items → Type 0
  PlainItems no_items = Unit
  PlainItems (item v vs) = PlainValue v × PlainItems vs

  pub PlainFields : Fields → Type 0
  PlainFields no_fields = Unit
  PlainFields (field name v fs) = Plain name × PlainValue v × PlainFields fs

abbrev pub blanks : ℕ → Bytes
blanks zero = []
blanks (suc n) = codes "    " ++ blanks n

-- A new line at a depth, and a blank, where the text is laid out.
abbrev pub new_line : Bool → ℕ → Bytes
new_line true depth = b'\n' ∷ blanks depth
new_line false depth = []

abbrev pub blank : Bool → Bytes
blank true = b' ' ∷ []
blank false = []

-- The name of a member, up to its value: as the writer quotes it, and in JSON.
abbrev pub name_text : Bool → ℕ → Bytes → Bytes
name_text pretty depth name = new_line pretty depth ++ (quoted name ++ (codes ":" ++ blank pretty))

abbrev pub json_name : Bool → ℕ → Bytes → Bytes
json_name pretty depth name =
    new_line pretty depth ++ (json_string name ++ (codes ":" ++ blank pretty))

-- The texts at the end of an array and of an object; an empty one has a blank, or nothing.
abbrev pub array_end : Bool → Items → Bytes
array_end pretty no_items = codes "]"
array_end pretty (item v vs) = blank pretty ++ codes "]"

abbrev pub object_end : Bool → ℕ → Fields → Bytes
object_end pretty depth no_fields = codes "}"
object_end pretty depth (field name v fs) = new_line pretty depth ++ codes "}"

-- The JSON text of a value at a depth; the parts are separated by commas.
unfoldable mutual
  pub render : Bool → ℕ → Value → Bytes
  render pretty depth null_value = codes "null"
  render pretty depth (truth b) = if b then codes "true" else codes "false"
  render pretty depth (text s) = json_string s
  render pretty depth (count n) = print_num 10 n
  render pretty depth (whole z) = print_signed z
  render pretty depth (array vs) =
      (codes "[" ++ blank pretty) ++ (render_items [] pretty (suc depth) vs ++ array_end pretty vs)
  render pretty depth (object fs) =
      codes "{" ++ (render_fields [] pretty (suc depth) fs ++ object_end pretty depth fs)

  pub render_items : Bytes → Bool → ℕ → Items → Bytes
  render_items before pretty depth no_items = []
  render_items before pretty depth (item v vs) =
      (before ++ render pretty depth v) ++ render_items (codes ",") pretty depth vs

  pub render_fields : Bytes → Bool → ℕ → Fields → Bytes
  render_fields before pretty depth no_fields = []
  render_fields before pretty depth (field name v fs) =
      (before ++ json_name pretty depth name)
      ++ render pretty depth v
      ++ render_fields (codes ",") pretty depth fs
