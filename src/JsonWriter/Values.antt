-- ===== src/JsonWriter/Values.antt =====
-- Numbers and the members of objects, lib/json_writer.c from `jsonw_float_fmt` on.
use libiproute.Prelude.{ℕ, suc, Bool, ◌∷◌, Bytes, codes}
use libiproute.Prelude.Int.{ℤ, pos, negsuc}
use libiproute.CLib.{print_num}
use libiproute.JsonWriter.{Writer, jsonw_printf, jsonw_name, jsonw_string, jsonw_bool, jsonw_null}

-- `%d`
abbrev pub print_signed : ℤ → Bytes
print_signed (pos n) = print_num 10 n
print_signed (negsuc n) = b'-' ∷ print_num 10 (suc n)

unfoldable pub jsonw_hu : Writer → ℕ → Writer
jsonw_hu self num = jsonw_printf self (print_num 10 num)

unfoldable pub jsonw_uint : Writer → ℕ → Writer
jsonw_uint self num = jsonw_printf self (print_num 10 num)

unfoldable pub jsonw_u64 : Writer → ℕ → Writer
jsonw_u64 self num = jsonw_printf self (print_num 10 num)

unfoldable pub jsonw_xint : Writer → ℕ → Writer
jsonw_xint self num = jsonw_printf self (print_num 16 num)

unfoldable pub jsonw_luint : Writer → ℕ → Writer
jsonw_luint self num = jsonw_printf self (print_num 10 num)

unfoldable pub jsonw_lluint : Writer → ℕ → Writer
jsonw_lluint self num = jsonw_printf self (print_num 10 num)

unfoldable pub jsonw_int : Writer → ℤ → Writer
jsonw_int self num = jsonw_printf self (print_signed num)

unfoldable pub jsonw_s64 : Writer → ℤ → Writer
jsonw_s64 self num = jsonw_printf self (print_signed num)

unfoldable pub jsonw_string_field : Writer → Bytes → Bytes → Writer
jsonw_string_field self prop val = jsonw_string (jsonw_name self prop) val

unfoldable pub jsonw_bool_field : Writer → Bytes → Bool → Writer
jsonw_bool_field self prop val = jsonw_bool (jsonw_name self prop) val

unfoldable pub jsonw_hu_field : Writer → Bytes → ℕ → Writer
unfolding jsonw_hu
jsonw_hu_field self prop num = jsonw_hu (jsonw_name self prop) num

unfoldable pub jsonw_uint_field : Writer → Bytes → ℕ → Writer
unfolding jsonw_uint
jsonw_uint_field self prop num = jsonw_uint (jsonw_name self prop) num

unfoldable pub jsonw_u64_field : Writer → Bytes → ℕ → Writer
unfolding jsonw_u64
jsonw_u64_field self prop num = jsonw_u64 (jsonw_name self prop) num

unfoldable pub jsonw_xint_field : Writer → Bytes → ℕ → Writer
unfolding jsonw_xint
jsonw_xint_field self prop num = jsonw_xint (jsonw_name self prop) num

unfoldable pub jsonw_luint_field : Writer → Bytes → ℕ → Writer
unfolding jsonw_luint
jsonw_luint_field self prop num = jsonw_luint (jsonw_name self prop) num

unfoldable pub jsonw_lluint_field : Writer → Bytes → ℕ → Writer
unfolding jsonw_lluint
jsonw_lluint_field self prop num = jsonw_lluint (jsonw_name self prop) num

unfoldable pub jsonw_int_field : Writer → Bytes → ℤ → Writer
unfolding jsonw_int
jsonw_int_field self prop num = jsonw_int (jsonw_name self prop) num

unfoldable pub jsonw_s64_field : Writer → Bytes → ℤ → Writer
unfolding jsonw_s64
jsonw_s64_field self prop num = jsonw_s64 (jsonw_name self prop) num

unfoldable pub jsonw_null_field : Writer → Bytes → Writer
jsonw_null_field self prop = jsonw_null (jsonw_name self prop)

-- `Double` and what `vfprintf` prints of one, are of the C library.
module _ {Double : Type 0} (vfprintf : Bytes → Double → Bytes) where
  unfoldable pub jsonw_float_fmt : Writer → Bytes → Double → Writer
  jsonw_float_fmt self fmt num = jsonw_printf self (vfprintf fmt num)

  unfoldable pub jsonw_float : Writer → Double → Writer
  jsonw_float self num = jsonw_printf self (vfprintf (codes "%g") num)

  unfoldable pub jsonw_float_field : Writer → Bytes → Double → Writer
  unfolding jsonw_float
  jsonw_float_field self prop val = jsonw_float (jsonw_name self prop) val

  unfoldable pub jsonw_float_field_fmt : Writer → Bytes → Bytes → Double → Writer
  unfolding jsonw_float_fmt
  jsonw_float_field_fmt self prop fmt val = jsonw_float_fmt (jsonw_name self prop) fmt val
