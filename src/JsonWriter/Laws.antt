-- ===== src/JsonWriter/Laws.antt =====
-- What each call adds to the text, and what it leaves of the separator.
use libiproute.Prelude.{
  ℕ, zero, suc, ◌≡◌, refl, sym, ap, ◌∙◌, Bool, true, false, not, [], ◌∷◌, ◌++◌, append_assoc,
  append-nil, ◌==◌, if◌then◌else◌, Bool-cases, inl, inr, Bytes, codes,
}
use libiproute.JsonWriter.{
  Writer, fputs, putc, indent_loop, puts_loop, escape_char, jsonw_puts, jsonw_indent, jsonw_eol,
  jsonw_eor, jsonw_name, jsonw_string, jsonw_printf,
}
use libiproute.JsonWriter.Tree.{escape, quoted, blanks, new_line, blank, name_text}

-- More text, and a separator.
abbrev pub added : Writer → Bytes → ℕ → Writer
added w t s = record w { out = w.out ++ t; sep = s }

abbrev pub sep_text : ℕ → Bytes
sep_text sep = if sep == 0 then [] else sep ∷ []

pub added-added :
    (w : Writer) (t t' : Bytes) (s s' : ℕ) → added (added w t s) t' s' ≡ added w (t ++ t') s'
added-added w t t' s s' =
    ap (λ (o : Bytes). record w { out = o; sep = s' }) (append_assoc w.out t t')

pub fputs-fputs : (w : Writer) (t t' : Bytes) → fputs t' (fputs t w) ≡ fputs (t ++ t') w
fputs-fputs w t t' = ap (λ (o : Bytes). record w { out = o }) (append_assoc w.out t t')

pub fputs-nil : (w : Writer) → fputs [] w ≡ w
fputs-nil w = ap (λ (o : Bytes). record w { out = o }) (append-nil w.out)

puts_loop-escape : (s : Bytes) (w : Writer) → puts_loop s w ≡ fputs (escape s) w
unfolding puts_loop
puts_loop-escape [] w = sym (fputs-nil w)
puts_loop-escape (c ∷ s) w =
    puts_loop-escape s (fputs (escape_char c) w) ∙ fputs-fputs w (escape_char c) (escape s)

pub jsonw_puts-quoted : (w : Writer) (s : Bytes) → jsonw_puts w s ≡ fputs (quoted s) w
unfolding jsonw_puts
jsonw_puts-quoted w s =
    ap (putc b'"') (puts_loop-escape s (putc b'"' w))
    ∙ fputs-fputs (putc b'"' w) (escape s) (b'"' ∷ [])
    ∙ fputs-fputs w (b'"' ∷ []) (escape s ++ b'"' ∷ [])

indent_loop-blanks : (i : ℕ) (w : Writer) → indent_loop i w ≡ fputs (blanks i) w
unfolding indent_loop
indent_loop-blanks zero w = sym (fputs-nil w)
indent_loop-blanks (suc i) w =
    indent_loop-blanks i (fputs (codes "    ") w) ∙ fputs-fputs w (codes "    ") (blanks i)

eol_text :
    (pretty : Bool) (w : Writer)
    → (if not pretty then w else jsonw_indent (putc b'\n' w)) ≡ fputs (new_line pretty w.depth) w
unfolding jsonw_indent
eol_text true w =
    indent_loop-blanks w.depth (putc b'\n' w) ∙ fputs-fputs w (b'\n' ∷ []) (blanks w.depth)
eol_text false w = sym (fputs-nil w)

pub jsonw_eol-new_line : (w : Writer) → jsonw_eol w ≡ fputs (new_line w.pretty w.depth) w
unfolding jsonw_eol
jsonw_eol-new_line w = eol_text w.pretty w

pub blank_text :
    (pretty : Bool) (w : Writer) → (if pretty then putc b' ' w else w) ≡ fputs (blank pretty) w
blank_text true w = refl
blank_text false w = sym (fputs-nil w)

pub jsonw_eor-added : (w : Writer) → jsonw_eor w ≡ added w (sep_text w.sep) b','
unfolding jsonw_eor
jsonw_eor-added w = elim (Bool-cases (w.sep == 0)) [
  | inl first ↦
      rw first (ap (λ (o : Bytes). record w { out = o; sep = b',' }) (sym (append-nil w.out)))
  | inr later ↦ rw later refl
]

pub jsonw_printf-added :
    (w : Writer) (t : Bytes) → jsonw_printf w t ≡ added w (sep_text w.sep ++ t) b','
unfolding jsonw_printf
jsonw_printf-added w t =
    ap (fputs t) (jsonw_eor-added w) ∙ added-added w (sep_text w.sep) t b',' b','

pub jsonw_string-added :
    (w : Writer) (s : Bytes) → jsonw_string w s ≡ added w (sep_text w.sep ++ quoted s) b','
unfolding jsonw_string
jsonw_string-added w s =
    jsonw_puts-quoted (jsonw_eor w) s
    ∙ ap (fputs (quoted s)) (jsonw_eor-added w)
    ∙ added-added w (sep_text w.sep) (quoted s) b',' b','

-- The text behind the end of the line before.
named_text :
    (pretty : Bool) (name : Bytes) (w : Writer)
    → (let named = putc b':' (jsonw_puts w name) in if pretty then putc b' ' named else named)
      ≡ fputs (quoted name ++ (codes ":" ++ blank pretty)) w
named_text pretty name w =
    blank_text pretty (putc b':' (jsonw_puts w name))
    ∙ fputs-fputs (jsonw_puts w name) (codes ":") (blank pretty)
    ∙ ap (fputs (codes ":" ++ blank pretty)) (jsonw_puts-quoted w name)
    ∙ fputs-fputs w (quoted name) (codes ":" ++ blank pretty)

pub jsonw_name-added :
    (w : Writer) (name : Bytes)
    → jsonw_name w name ≡ added w (sep_text w.sep ++ name_text w.pretty w.depth name) 0
unfolding jsonw_name
jsonw_name-added w name =
    let rest = quoted name ++ (codes ":" ++ blank w.pretty) in
    let line =
      ap jsonw_eol (jsonw_eor-added w) ∙ jsonw_eol-new_line (added w (sep_text w.sep) b',') in
    named_text w.pretty name (record (jsonw_eol (jsonw_eor w)) { sep = 0 })
    ∙ ap (λ (x : Writer). added x rest 0) line
    ∙ ap (λ (o : Bytes). record w { out = o; sep = 0 })
        (append_assoc (w.out ++ sep_text w.sep) (new_line w.pretty w.depth) rest
          ∙ append_assoc w.out (sep_text w.sep) (new_line w.pretty w.depth ++ rest))
