-- ===== src/JsonWriter/Render.antt =====
-- The calls of lib/json_writer.c for a value, and its JSON text.
use libiproute.Prelude.{
  ℕ, suc, ◌+◌, ◌^◌, ◌<◌, ◌≡◌, sym, ap, ◌∙◌, arith, Bool, Option, some, [], ◌++◌, append_assoc,
  if◌then◌else◌, ◌>>=◌, Bytes, codes,
}
use libiproute.JsonWriter.{
  Writer, jsonw_end_object, jsonw_end_array, jsonw_null, jsonw_bool, jsonw_new, jsonw_pretty,
  jsonw_destroy,
}
use libiproute.CLib.{print_num}
use libiproute.JsonWriter.Values.{print_signed, jsonw_u64, jsonw_s64}
use libiproute.JsonWriter.Tree.{
  Value, null_value, truth, text, count, whole, array, object, Items, no_items, item, Fields,
  no_fields, field, write, write_items, write_fields, height, height_items, height_fields, blank,
  PlainValue, PlainItems, PlainFields, json_name, array_end, object_end, render, render_items,
  render_fields,
}
use libiproute.JsonWriter.Laws.{
  fputs-nil, added, sep_text, added-added, jsonw_printf-added, jsonw_string-added,
}
use libiproute.JsonWriter.Collections.{
  opened, jsonw_start_object-opened, jsonw_start_array-opened, items_sep, fields_sep,
  items_sep_comma, fields_sep_comma, le_max, array-closed, object-closed, quoted-json_string,
  jsonw_name-json_name,
}

mutual
  unfolding write write_items write_fields height height_items height_fields render render_items
      render_fields jsonw_null jsonw_bool jsonw_u64 jsonw_s64 PlainValue PlainItems PlainFields

  write-added :
      (v : Value) (w : Writer)
      → PlainValue v
      → w.depth + height v < 2 ^ 32
      → write v w ≡ some (added w (sep_text w.sep ++ render w.pretty w.depth v) b',')
  write-added null_value w k h = ap some (jsonw_printf-added w (codes "null"))
  write-added (truth b) w k h =
      ap some (jsonw_printf-added w (if b then codes "true" else codes "false"))
  write-added (text s) w k h =
      ap some (jsonw_string-added w s)
      ∙ ap (λ (t : Bytes). some (added w (sep_text w.sep ++ t) b',')) (quoted-json_string s k)
  write-added (count n) w k h = ap some (jsonw_printf-added w (print_num 10 n))
  write-added (whole z) w k h = ap some (jsonw_printf-added w (print_signed z))
  write-added (array vs) w k h =
      let t = sep_text w.sep ++ (codes "[" ++ blank w.pretty) in
      ap (λ (x : Writer). write_items vs x >>= jsonw_end_array)
        (jsonw_start_array-opened w (omega arith))
      ∙ ap (λ (x : Option Writer). x >>= jsonw_end_array)
          (write_items-added vs (opened w t) k (omega arith))
      ∙ array-closed w t (render_items [] w.pretty (suc w.depth) vs) vs
      ∙ ap (λ (x : Bytes). some (added w x b','))
          (append_assoc (sep_text w.sep) (codes "[" ++ blank w.pretty)
            (render_items [] w.pretty (suc w.depth) vs ++ array_end w.pretty vs))
  write-added (object fs) w k h =
      let t = sep_text w.sep ++ codes "{" in
      ap (λ (x : Writer). write_fields fs x >>= jsonw_end_object)
        (jsonw_start_object-opened w (omega arith))
      ∙ ap (λ (x : Option Writer). x >>= jsonw_end_object)
          (write_fields-added fs (opened w t) k (omega arith))
      ∙ object-closed w t (render_fields [] w.pretty (suc w.depth) fs) fs
      ∙ ap (λ (x : Bytes). some (added w x b','))
          (append_assoc (sep_text w.sep) (codes "{")
            (render_fields [] w.pretty (suc w.depth) fs ++ object_end w.pretty w.depth fs))

  write_items-added :
      (vs : Items) (w : Writer)
      → PlainItems vs
      → w.depth + height_items vs < 2 ^ 32
      → write_items vs w
        ≡ some (added w (render_items (sep_text w.sep) w.pretty w.depth vs) (items_sep vs w.sep))
  write_items-added no_items w k h = ap some (sym (fputs-nil w))
  write_items-added (item v vs) w (k, ks) h =
      let t = sep_text w.sep ++ render w.pretty w.depth v in
      let rest = render_items (codes ",") w.pretty w.depth vs in
      ap (λ (x : Option Writer). x >>= write_items vs)
        (write-added v w k (omega (arith, le_max (height v) (height_items vs))))
      ∙ write_items-added vs (added w t b',') ks
          (omega (arith, le_max (height v) (height_items vs)))
      ∙ ap some (added-added w t rest b',' (items_sep vs b','))
      ∙ ap (λ (s : ℕ). some (added w (t ++ rest) s)) (items_sep_comma vs)

  write_fields-added :
      (fs : Fields) (w : Writer)
      → PlainFields fs
      → w.depth + height_fields fs < 2 ^ 32
      → write_fields fs w
        ≡ some (added w (render_fields (sep_text w.sep) w.pretty w.depth fs) (fields_sep fs w.sep))
  write_fields-added no_fields w k h = ap some (sym (fputs-nil w))
  write_fields-added (field name v fs) w (kn, k, ks) h =
      let t = sep_text w.sep ++ json_name w.pretty w.depth name in
      let rest = render_fields (codes ",") w.pretty w.depth fs in
      let body = render w.pretty w.depth v in
      ap (λ (x : Writer). write v x >>= write_fields fs) (jsonw_name-json_name w name kn)
      ∙ ap (λ (x : Option Writer). x >>= write_fields fs)
          (write-added v (added w t 0) k (omega (arith, le_max (height v) (height_fields fs))))
      ∙ ap (λ (x : Writer). write_fields fs x) (added-added w t body 0 b',')
      ∙ write_fields-added fs (added w (t ++ body) b',') ks
          (omega (arith, le_max (height v) (height_fields fs)))
      ∙ ap some (added-added w (t ++ body) rest b',' (fields_sep fs b','))
      ∙ ap (λ (s : ℕ). some (added w (t ++ body ++ rest) s)) (fields_sep_comma fs)

-- A value of null, truth values, numbers that are whole, texts, arrays and objects, of which no text
-- or name has a backslash, an apostrophe or a control character without a letter of its own. Whatever
-- the writer did before, the calls for the value add its JSON text behind the separator that is due, laid out or not, and leave the depth as it was and a comma due; no assertion fails,
-- as long as the depth stays below 2^32.
pub write-render :
    (v : Value) (w : Writer)
    → PlainValue v
    → w.depth + height v < 2 ^ 32
    → write v w
      ≡ some (record w { out = w.out ++ (sep_text w.sep ++ render w.pretty w.depth v); sep = b',' })
write-render v w k h = write-added v w k h

-- A document of one value: its text and a new line.
document-render :
    (pretty : Bool) (v : Value)
    → PlainValue v
    → height v < 2 ^ 32
    → (write v (jsonw_pretty jsonw_new pretty) >>= jsonw_destroy)
      ≡ some (render pretty 0 v ++ codes "\n")
unfolding jsonw_pretty jsonw_new jsonw_destroy
document-render pretty v k h =
    ap (λ (x : Option Writer). x >>= jsonw_destroy)
      (write-added v (record { out = []; depth = 0; pretty = pretty; sep = 0 }) k (omega arith))
