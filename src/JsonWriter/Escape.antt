-- ===== src/JsonWriter/Escape.antt =====
-- What a reader of quoted texts makes of the texts that the writer quotes.
use libiproute.Prelude.{
  ℕ, ◌≡◌, refl, ap, ◌∙◌, arith, Bool, true, false, Option, none, some, [], ◌∷◌, ◌++◌, append_assoc,
  map, ◌==◌, if◌then◌else◌, Bytes,
}
use libiproute.JsonWriter.{Writer, escape_char, jsonw_puts}
use libiproute.JsonWriter.Tree.{escape, quoted}
use libiproute.JsonWriter.Laws.{jsonw_puts-quoted}

-- The character that stands behind a backslash.
abbrev meaning : ℕ → Option ℕ
meaning c =
    if c == b't'
    then some 9
    else if c == b'n'
    then some 10
    else if c == b'r'
    then some 13
    else if c == b'f'
    then some 12
    else if c == b'b'
    then some 8
    else if c == b'"'
    then some b'"'
    else if c == b'\''
    then some b'\''
    else if c == b'\\'
    then some b'\\'
    else none

abbrev in_front : ℕ → Option (Bytes × Bytes) → Option (Bytes × Bytes)
in_front c none = none
in_front c (some (s, rest)) = some (c ∷ s, rest)

-- The text up to the closing quote, and what is behind it.
unfoldable pub read_body : Bool → Bytes → Option (Bytes × Bytes)
read_body escaped [] = none
read_body true (c ∷ s) =
    let rest = read_body false s in elim (meaning c) [ none ↦ none | some d ↦ in_front d rest ]
read_body false (c ∷ s) =
    let rest = read_body (c == b'\\') s in
    if c == b'"' then some ([], s) else if c == b'\\' then rest else in_front c rest

unfoldable pub read_quoted : Bytes → Option (Bytes × Bytes)
unfolding read_body
read_quoted [] = none
read_quoted (c ∷ s) = let rest = read_body false s in if c == b'"' then rest else none

-- A backslash is lost.
abbrev pub kept : ℕ → ℕ
kept c = if c == b'\\' then b'\n' else c

read_body-escape_char :
    (c : ℕ) (tail : Bytes)
    → read_body false (escape_char c ++ tail) ≡ in_front (kept c) (read_body false tail)
unfolding read_body
read_body-escape_char c tail = ground arith

read_body-escape :
    (s rest : Bytes) → read_body false (escape s ++ b'"' ∷ rest) ≡ some (map kept s, rest)
unfolding read_body
read_body-escape [] rest = refl
read_body-escape (c ∷ s) rest =
    ap (read_body false) (append_assoc (escape_char c) (escape s) (b'"' ∷ rest))
    ∙ read_body-escape_char c (escape s ++ b'"' ∷ rest)
    ∙ ap (in_front (kept c)) (read_body-escape s rest)

-- What jsonw_puts adds for a text is read back, with whatever follows behind it, as that text with
-- a newline in place of each backslash.
pub read_quoted-jsonw_puts :
    (w : Writer) (s : Bytes)
    → (added : Bytes) × (jsonw_puts w s ≡ record w { out = w.out ++ added })
      × ((rest : Bytes) → read_quoted (added ++ rest) ≡ some (map kept s, rest))
unfolding read_quoted
read_quoted-jsonw_puts w s = (
  quoted s,
  jsonw_puts-quoted w s,
  λ rest. ap (read_body false) (append_assoc (escape s) (b'"' ∷ []) rest) ∙ read_body-escape s rest,
)
