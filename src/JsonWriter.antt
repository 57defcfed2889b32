-- ===== src/JsonWriter.antt =====
-- The streaming writer of lib/json_writer.c, every function of it. What a call writes is added to
-- the text; a failed `assert` is `none`. The C library's `%g` on a `double` is a parameter.
pub mod Values
pub mod Tree
pub mod Laws
pub mod Collections
pub mod Render
pub mod Escape
mod Runs
use libiproute.Prelude.{
  ℕ, zero, suc, ◌+◌, ◌-◌, ◌*◌, ◌%◌, ◌^◌, Bool, true, false, not, ◌&&◌, Option, none, some, List, [],
  ◌∷◌, ◌++◌, ◌==◌, if◌then◌else◌, Bytes, codes,
}
use libiproute.Prelude.Int.{ℤ, pos, negsuc}
use libiproute.CLib.{run_clib}

-- `struct json_writer`, with the text that `out` was given; `sep` is 0 or a comma.
pub record Writer : Type 0 where
  pub out : Bytes
  pub depth : ℕ
  pub pretty : Bool
  pub sep : ℕ

abbrev pub fputs : Bytes → Writer → Writer
fputs s self = record self { out = self.out ++ s }

abbrev pub putc : ℕ → Writer → Writer
putc c self = fputs (c ∷ []) self

-- `i` rounds of the loop.
unfoldable pub indent_loop : ℕ → Writer → Writer
indent_loop zero self = self
indent_loop (suc i) self = indent_loop i (fputs (codes "    ") self)

unfoldable pub jsonw_indent : Writer → Writer
unfolding indent_loop
jsonw_indent self = indent_loop self.depth self

unfoldable pub jsonw_eol : Writer → Writer
jsonw_eol self = if not self.pretty then self else jsonw_indent (putc b'\n' self)

unfoldable pub jsonw_eor : Writer → Writer
jsonw_eor self =
    let printed = if self.sep == 0 then self else putc self.sep self in
    record printed { sep = b',' }

-- What the cases of the switch write for a character. A backslash is written like a newline.
abbrev pub escape_char : ℕ → Bytes
escape_char c =
    if c == b'\t'
    then codes "\\t"
    else if c == b'\n'
    then codes "\\n"
    else if c == b'\r'
    then codes "\\r"
    else if c == 12
    then codes "\\f"
    else if c == 8
    then codes "\\b"
    else if c == b'\\'
    then codes "\\n"
    else if c == b'"'
    then codes "\\\""
    else if c == b'\''
    then codes "\\'"
    else c ∷ []

unfoldable pub puts_loop : Bytes → Writer → Writer
puts_loop [] self = self
puts_loop (c ∷ str) self = puts_loop str (fputs (escape_char c) self)

unfoldable pub jsonw_puts : Writer → Bytes → Writer
unfolding puts_loop
jsonw_puts self str = putc b'"' (puts_loop str (putc b'"' self))

-- With memory for the writer.
unfoldable pub jsonw_new : Writer
jsonw_new = record { out = []; depth = 0; pretty = false; sep = 0 }

-- The text in the end.
unfoldable pub jsonw_destroy : Writer → Option Bytes
jsonw_destroy self = if self.depth == 0 then some (fputs (codes "\n") self).out else none

unfoldable pub jsonw_pretty : Writer → Bool → Writer
jsonw_pretty self on = record self { pretty = on }

unfoldable pub jsonw_begin : Writer → ℕ → Writer
unfolding jsonw_eor
jsonw_begin self c =
    let begun = putc c (jsonw_eor self) in
    record begun { depth = (begun.depth + 1) % 2 ^ 32; sep = 0 }

unfoldable pub jsonw_end : Writer → ℕ → Option Writer
unfolding jsonw_eol jsonw_indent
jsonw_end self c =
    if self.depth == 0
    then none
    else (let up = record self { depth = self.depth - 1 } in
        let line = if self.sep == 0 then up else jsonw_eol up in
        some (record (putc c line) { sep = b',' }))

unfoldable pub jsonw_name : Writer → Bytes → Writer
unfolding jsonw_eor jsonw_eol jsonw_indent jsonw_puts
jsonw_name self name =
    let line = jsonw_eol (jsonw_eor self) in
    let named = putc b':' (jsonw_puts (record line { sep = 0 }) name) in
    if self.pretty then putc b' ' named else named

-- With the text that `vfprintf` makes of the format and its arguments.
unfoldable pub jsonw_printf : Writer → Bytes → Writer
unfolding jsonw_eor
jsonw_printf self text = fputs text (jsonw_eor self)

unfoldable pub jsonw_start_object : Writer → Writer
unfolding jsonw_begin
jsonw_start_object self = jsonw_begin self b'{'

unfoldable pub jsonw_end_object : Writer → Option Writer
unfolding jsonw_end
jsonw_end_object self = jsonw_end self b'}'

unfoldable pub jsonw_start_array : Writer → Writer
unfolding jsonw_begin
jsonw_start_array self =
    let begun = jsonw_begin self b'[' in if self.pretty then putc b' ' begun else begun

unfoldable pub jsonw_end_array : Writer → Option Writer
unfolding jsonw_end
jsonw_end_array self =
    let spaced = if self.pretty && not (self.sep == 0) then putc b' ' self else self in
    jsonw_end (record spaced { sep = 0 }) b']'

unfoldable pub jsonw_string : Writer → Bytes → Writer
unfolding jsonw_eor jsonw_puts
jsonw_string self value = jsonw_puts (jsonw_eor self) value

unfoldable pub jsonw_bool : Writer → Bool → Writer
unfolding jsonw_printf
jsonw_bool self val = jsonw_printf self (if val then codes "true" else codes "false")

unfoldable pub jsonw_null : Writer → Writer
unfolding jsonw_printf
jsonw_null self = jsonw_printf self (codes "null")

-- Opens this module for a run.
unfoldable pub run_writer : ℕ
unfolding indent_loop jsonw_indent jsonw_eol jsonw_eor puts_loop jsonw_puts jsonw_new jsonw_destroy
    jsonw_pretty jsonw_begin jsonw_end jsonw_name jsonw_printf jsonw_start_object jsonw_end_object
    jsonw_start_array jsonw_end_array jsonw_string jsonw_bool jsonw_null run_clib
run_writer = 0
