-- ===== src/JsonWriter/Runs.antt =====
-- Concrete runs, and the theorems at concrete inputs.
use libiproute.Prelude.{
  ◌≡◌, refl, arith, true, false, none, some, [], ◌++◌, ◌>>=◌, map, Bytes, codes,
}
use libiproute.JsonWriter.{
  jsonw_new, jsonw_pretty, jsonw_destroy, jsonw_start_object, jsonw_end_object, jsonw_puts,
  run_writer,
}
use libiproute.JsonWriter.Values.{jsonw_uint_field, jsonw_u64}
use libiproute.JsonWriter.Tree.{
  Value, text, count, array, object, no_items, item, no_fields, field, write, render, height,
  PlainValue,
}
use libiproute.JsonWriter.Render.{write-render}
use libiproute.JsonWriter.Escape.{read_quoted, kept, read_quoted-jsonw_puts}

-- The members "a": [7, "x\""] and "b": {}.
abbrev sample : Value
sample = object (
    field (codes "a") (array (item (count 7) (item (text (codes "x\"")) no_items)))
      (field (codes "b") (object no_fields) no_fields))

compact :
    (write sample jsonw_new >>= jsonw_destroy) ≡ some (codes "{\"a\":[7,\"x\\\"\"],\"b\":{}}\n")
unfolding run_writer write jsonw_u64
compact = refl

laid_out :
    (write sample (jsonw_pretty jsonw_new true) >>= jsonw_destroy)
    ≡ some (codes "{\n    \"a\": [ 7,\"x\\\"\" ],\n    \"b\": {}\n}\n")
unfolding run_writer write jsonw_u64
laid_out = refl

-- An object that is not closed, and one closed twice.
unbalanced : jsonw_destroy (jsonw_start_object jsonw_new) ≡ none
unfolding run_writer
unbalanced = refl

closed_twice : (jsonw_end_object (jsonw_start_object jsonw_new) >>= jsonw_end_object) ≡ none
unfolding run_writer
closed_twice = refl

member : (jsonw_uint_field (jsonw_start_object jsonw_new) (codes "n") 3).out ≡ codes "{\"n\":3"
unfolding run_writer jsonw_uint_field
member = refl

write-render_example :
    write sample jsonw_new
    ≡ some (record jsonw_new { out = jsonw_new.out ++ ([] ++ render false 0 sample); sep = b',' })
unfolding jsonw_new height PlainValue
write-render_example =
    write-render sample jsonw_new ((refl, tt), (tt, ((refl, (refl, tt)), tt)), ((refl, tt), tt, tt))
      (omega arith)

read_quoted-jsonw_puts_example :
    (added : Bytes) × (jsonw_puts jsonw_new (codes "C:\\dir")
      ≡ record jsonw_new { out = jsonw_new.out ++ added })
    × ((rest : Bytes) → read_quoted (added ++ rest) ≡ some (map kept (codes "C:\\dir"), rest))
read_quoted-jsonw_puts_example = read_quoted-jsonw_puts jsonw_new (codes "C:\\dir")
