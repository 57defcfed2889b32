-- ===== src/JsonWriter/Collections.antt =====
-- How the calls of lib/json_writer.c begin and end arrays and objects, and plain texts in quotes.
use libiproute.Prelude.{
  ℕ, suc, ◌+◌, ◌-◌, ◌%◌, ◌^◌, ◌≤◌, ◌<◌, ◌≡◌, refl, sym, ap, ◌∙◌, arith, Bool, true, false, not,
  ◌&&◌, some, [], ◌∷◌, ◌++◌, append_assoc, ◌==◌, if◌then◌else◌, Bytes, codes,
}
use Prim.Native.Nat.{max}
use libiproute.JsonWriter.{
  Writer, fputs, putc, jsonw_eol, jsonw_start_object, jsonw_end_object, jsonw_start_array,
  jsonw_end_array, jsonw_begin, jsonw_end, jsonw_name, escape_char,
}
use libiproute.JsonWriter.Tree.{
  Items, no_items, item, Fields, no_fields, field, new_line, blank, Plain, is_plain, escape, quoted,
  json_char, json_chars, json_string, json_name, array_end, object_end,
}
use libiproute.JsonWriter.Laws.{
  fputs-nil, added, sep_text, blank_text, jsonw_eol-new_line, jsonw_eor-added, jsonw_name-added,
}

-- A collection begun.
abbrev pub opened : Writer → Bytes → Writer
opened w t = record w { out = w.out ++ t; depth = suc w.depth; sep = 0 }

jsonw_begin-opened :
    (w : Writer) (c : ℕ)
    → suc w.depth < 2 ^ 32
    → jsonw_begin w c ≡ opened w (sep_text w.sep ++ c ∷ [])
unfolding jsonw_begin
jsonw_begin-opened w c h =
    let deeper : (w.depth + 1) % 2 ^ 32 ≡ suc w.depth = omega arith in
    ap (λ (x : Writer). record (putc c x) { depth = (x.depth + 1) % 2 ^ 32; sep = 0 })
      (jsonw_eor-added w)
    ∙ ap (λ (d : ℕ). record w { out = w.out ++ sep_text w.sep ++ c ∷ []; depth = d; sep = 0 })
        deeper
    ∙ ap (λ (o : Bytes). record w { out = o; depth = suc w.depth; sep = 0 })
        (append_assoc w.out (sep_text w.sep) (c ∷ []))

pub jsonw_start_object-opened :
    (w : Writer)
    → suc w.depth < 2 ^ 32
    → jsonw_start_object w ≡ opened w (sep_text w.sep ++ codes "{")
unfolding jsonw_start_object
jsonw_start_object-opened w h = jsonw_begin-opened w b'{' h

pub jsonw_start_array-opened :
    (w : Writer)
    → suc w.depth < 2 ^ 32
    → jsonw_start_array w ≡ opened w (sep_text w.sep ++ (codes "[" ++ blank w.pretty))
unfolding jsonw_start_array
jsonw_start_array-opened w h =
    blank_text w.pretty (jsonw_begin w b'[')
    ∙ ap (fputs (blank w.pretty)) (jsonw_begin-opened w b'[' h)
    ∙ ap (λ (o : Bytes). record w { out = o; depth = suc w.depth; sep = 0 })
        (append_assoc w.out (sep_text w.sep ++ codes "[") (blank w.pretty)
          ∙ ap (λ (t : Bytes). w.out ++ t)
              (append_assoc (sep_text w.sep) (codes "[") (blank w.pretty)))

-- The line that ends before a closing brace.
line_end :
    (w : Writer) (first : Bool)
    → (if first then w else jsonw_eol w) ≡ fputs (if first then [] else new_line w.pretty w.depth) w
line_end w true = sym (fputs-nil w)
line_end w false = jsonw_eol-new_line w

jsonw_end-closed :
    (w : Writer) (s c : ℕ)
    → jsonw_end (record w { depth = suc w.depth; sep = s }) c
      ≡ some (record w {
        out = w.out ++ ((if s == 0 then [] else new_line w.pretty w.depth) ++ c ∷ []);
        sep = b',';
      })
unfolding jsonw_end
jsonw_end-closed w s c =
    let inside : (suc w.depth == 0) ≡ false = ground arith in
    let up : suc w.depth - 1 ≡ w.depth = omega arith in
    let end = if s == 0 then [] else new_line w.pretty w.depth in
    rw (inside, up)
      (ap (λ (x : Writer). some (record (putc c x) { sep = b',' }))
          (line_end (record w { sep = s }) (s == 0))
        ∙ ap (λ (o : Bytes). some (record w { out = o; sep = b',' }))
            (append_assoc w.out end (c ∷ [])))

-- The separator behind the parts.
abbrev pub items_sep : Items → ℕ → ℕ
items_sep no_items s = s
items_sep (item v vs) s = b','

abbrev pub fields_sep : Fields → ℕ → ℕ
fields_sep no_fields s = s
fields_sep (field name v fs) s = b','

pub items_sep_comma : (vs : Items) → items_sep vs b',' ≡ b','
items_sep_comma no_items = refl
items_sep_comma (item v vs) = refl

pub fields_sep_comma : (fs : Fields) → fields_sep fs b',' ≡ b','
fields_sep_comma no_fields = refl
fields_sep_comma (field name v fs) = refl

pub le_max : (a b : ℕ) → (a ≤ max a b) × (b ≤ max a b)
le_max a b = (omega arith, omega arith)

reopen :
    (w : Writer) (t body end : Bytes)
    → some (record w { out = (w.out ++ t ++ body) ++ end; sep = b',' })
      ≡ some (added w (t ++ (body ++ end)) b',')
reopen w t body end =
    ap (λ (o : Bytes). some (record w { out = o; sep = b',' }))
      (append_assoc (w.out ++ t) body end ∙ append_assoc w.out t (body ++ end))

spaced :
    (pretty first : Bool) (w : Writer)
    → (if pretty && not first then putc b' ' w else w)
      ≡ fputs (if first then [] else blank pretty) w
spaced true true w = sym (fputs-nil w)
spaced true false w = refl
spaced false true w = sym (fputs-nil w)
spaced false false w = sym (fputs-nil w)

array_end_text :
    (w : Writer) (s : ℕ) (t body : Bytes)
    → jsonw_end_array (added (opened w t) body s)
      ≡ some (added w (t ++ (body ++ ((if s == 0 then [] else blank w.pretty) ++ codes "]"))) b',')
unfolding jsonw_end_array
array_end_text w s t body =
    let end = if s == 0 then [] else blank w.pretty in
    ap (λ (x : Writer). jsonw_end (record x { sep = 0 }) b']')
      (spaced w.pretty (s == 0) (added (opened w t) body s))
    ∙ jsonw_end-closed (record w { out = (w.out ++ t ++ body) ++ end }) 0 b']'
    ∙ ap (λ (o : Bytes). some (record w { out = o; sep = b',' }))
        (append_assoc (w.out ++ t ++ body) end (codes "]"))
    ∙ reopen w t body (end ++ codes "]")

pub array-closed :
    (w : Writer) (t body : Bytes) (vs : Items)
    → jsonw_end_array (added (opened w t) body (items_sep vs 0))
      ≡ some (added w (t ++ (body ++ array_end w.pretty vs)) b',')
array-closed w t body no_items = array_end_text w 0 t body
array-closed w t body (item v vs) = array_end_text w b',' t body

pub object-closed :
    (w : Writer) (t body : Bytes) (fs : Fields)
    → jsonw_end_object (added (opened w t) body (fields_sep fs 0))
      ≡ some (added w (t ++ (body ++ object_end w.pretty w.depth fs)) b',')
unfolding jsonw_end_object
object-closed w t body no_fields =
    jsonw_end-closed (record w { out = w.out ++ t ++ body }) 0 b'}' ∙ reopen w t body (codes "}")
object-closed w t body (field name v fs) =
    jsonw_end-closed (record w { out = w.out ++ t ++ body }) b',' b'}'
    ∙ reopen w t body (new_line w.pretty w.depth ++ codes "}")

escape_char-json_char : (c : ℕ) → is_plain c ≡ true → escape_char c ≡ json_char c
escape_char-json_char c h = ground arith

escape-json_chars : (s : Bytes) → Plain s → escape s ≡ json_chars s
escape-json_chars [] h = refl
escape-json_chars (c ∷ s) (h, hs) =
    rw (escape_char-json_char c h) (ap (λ (t : Bytes). json_char c ++ t) (escape-json_chars s hs))

pub quoted-json_string : (s : Bytes) → Plain s → quoted s ≡ json_string s
quoted-json_string s h = ap (λ (t : Bytes). b'"' ∷ t ++ b'"' ∷ []) (escape-json_chars s h)

pub jsonw_name-json_name :
    (w : Writer) (name : Bytes)
    → Plain name
    → jsonw_name w name ≡ added w (sep_text w.sep ++ json_name w.pretty w.depth name) 0
jsonw_name-json_name w name h =
    jsonw_name-added w name
    ∙ ap
        (λ (t : Bytes).
          added w
            (sep_text w.sep ++ (new_line w.pretty w.depth ++ (t ++ (codes ":" ++ blank w.pretty))))
            0)
        (quoted-json_string name h)
