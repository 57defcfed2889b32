-- ===== src/U32/Handle/Laws.antt =====
-- The handles of tc/f_u32.c, with a table and without, printed and read.
use libiproute.Prelude.{
  ℕ, ◌+◌, ◌*◌, ◌/◌, ◌%◌, ◌^◌, ◌≤◌, ◌<◌, ◌≡◌, refl, ap, ◌∙◌, arith, Bool, true, false, some, [], ◌∷◌,
  ◌++◌, append-nil, append_assoc, ◌==◌, if◌then◌else◌, Bytes, Bool-cases, inl, inr, leb,
}
use libiproute.Prelude.Bits.{bit_and-low_mask, bit_and-high_mask, bit_or_fields}
use libiproute.CLib.{run_clib, print_num, print_before}
use libiproute.CLib.Print.{Ends, print_num-append}
use libiproute.CLib.Parse.{hexadecimal, strtoul-print_before}
use libiproute.U32.Handle.{
  has_colon, hex_number, table_part, joined, node_part, hash_part, get_u32_handle,
  sprint_u32_handle, tc_u32_htid, tc_u32_hash, tc_u32_node,
}

colon_inside : (s t : Bytes) → has_colon (s ++ b':' ∷ t) ≡ true
unfolding has_colon
colon_inside [] t = refl
colon_inside (c ∷ s) t = ground (arith, colon_inside s t)

number_read :
    (n : ℕ) (rest : Bytes)
    → n < 2 ^ 32
    → Ends rest
    → hex_number (print_before 16 n rest) ≡ (n, rest, true)
unfolding hex_number
number_read n rest h e =
    let small : n % 2 ^ 32 ≡ n = omega arith in
    ground (arith, strtoul-print_before hexadecimal n rest e)

no_digits : hex_number [] ≡ (0, [], false)
unfolding run_clib hex_number
no_digits = refl

no_digits_colon : (s : Bytes) → hex_number (b':' ∷ s) ≡ (0, b':' ∷ s, false)
unfolding run_clib hex_number
no_digits_colon [] = refl
no_digits_colon (c ∷ s) = refl

node_read : (a b n : ℕ) → n < 0x1000 → node_part a b (b':' ∷ print_num 16 n) ≡ some (joined a b n)
unfolding print_num node_part
node_read a b n h =
    let small : leb 0x1000 n ≡ false = ground arith in rw (number_read n [] (omega arith) tt, small)

hash_read :
    (a n : ℕ) (rest : Bytes)
    → n < 0x100
    → Ends rest
    → hash_part a (b':' ∷ print_before 16 n rest) ≡ node_part a n rest
unfolding hash_part
hash_read a n rest h e =
    let small : leb 0x100 n ≡ false = ground arith in rw (number_read n rest (omega arith) e, small)

-- What is printed behind the table.
abbrev tail_text : ℕ → ℕ → Bytes
tail_text hash nodeid =
    (if hash == 0 then [] else print_num 16 hash)
    ++ ((if nodeid == 0 then [] else b':' ∷ print_num 16 nodeid) ++ [])

tail_read :
    (a hash nodeid : ℕ)
    → hash < 0x100
    → nodeid < 0x1000
    → hash_part a (b':' ∷ tail_text hash nodeid) ≡ some (joined a hash nodeid)
unfolding hash_part node_part
tail_read a hash nodeid h k = elim (Bool-cases (hash == 0)) [
  | inl e ↦
      let z : hash ≡ 0 = ground arith in
      elim (Bool-cases (nodeid == 0)) [
        | inl f ↦ let y : nodeid ≡ 0 = ground arith in rw (z, y, no_digits)
        | inr f ↦ rw (f, append-nil, z, no_digits_colon) (node_read a 0 nodeid k)
      ]
  | inr e ↦ elim (Bool-cases (nodeid == 0)) [
    | inl f ↦
        let y : nodeid ≡ 0 = ground arith in rw (e, y, print_num-append, hash_read a hash [] h tt)
    | inr f ↦
        rw
          (e, f, append-nil, print_num-append, hash_read a hash (b':' ∷ print_num 16 nodeid) h refl)
          (node_read a hash nodeid k)
  ]
]

joined_fields : (a b c : ℕ) → b < 0x100 → c < 0x1000 → joined a b c ≡ a * 2 ^ 20 + b * 2 ^ 12 + c
joined_fields a b c h k =
    let first = bit_or_fields 20 a (b * 2 ^ 12) (omega arith) in
    let second = bit_or_fields 12 (a * 2 ^ 8 + b) c (omega arith) in
    let same : (a * 2 ^ 8 + b) * 2 ^ 12 ≡ a * 2 ^ 20 + b * 2 ^ 12 = omega arith in
    rw (first, ← same, second)

module _ (h : ℕ) (small : h < 2 ^ 32) where
  fields :
      (tc_u32_htid h ≡ h / 2 ^ 20 * 2 ^ 20)
      × (tc_u32_hash h ≡ h / 2 ^ 12 % 2 ^ 8)
      × (tc_u32_node h ≡ h % 2 ^ 12)
  fields = (bit_and-high_mask 20 12 h small, bit_and-low_mask 8 (h / 2 ^ 12), bit_and-low_mask 12 h)

  table_read :
      (a : ℕ) (rest : Bytes)
      → a < 0x1000
      → table_part (print_num 16 a ++ b':' ∷ rest) ≡ hash_part a (b':' ∷ rest)
  unfolding table_part
  table_read a rest k =
      let few : leb 0x1000 a ≡ false = ground arith in
      rw (print_num-append, number_read a (b':' ∷ rest) (omega arith) refl, few)

  -- A handle of 32 bits that names a hash table is read back as printed.
  pub get_u32_handle-sprint_u32_handle :
      (stale : Bool) → 2 ^ 20 ≤ h → get_u32_handle stale (sprint_u32_handle false h) ≡ some h
  unfolding get_u32_handle sprint_u32_handle
  get_u32_handle-sprint_u32_handle stale table =
      let (ft, fh, fn) = fields in
      let given : (h == 0) ≡ false = ground arith in
      let named : (h / 2 ^ 20 * 2 ^ 20 == 0) ≡ false = ground arith in
      let number : h / 2 ^ 20 * 2 ^ 20 / 2 ^ 20 ≡ h / 2 ^ 20 = omega arith in
      let whole : h / 2 ^ 20 * 2 ^ 20 + h / 2 ^ 12 % 2 ^ 8 * 2 ^ 12 + h % 2 ^ 12 ≡ h =
        omega arith in
      rw (given, ft, fh, fn, named, number, append_assoc, colon_inside)
        (table_read (h / 2 ^ 20) (tail_text (h / 2 ^ 12 % 2 ^ 8) (h % 2 ^ 12)) (omega arith)
          ∙ tail_read (h / 2 ^ 20) (h / 2 ^ 12 % 2 ^ 8) (h % 2 ^ 12) (omega arith) (omega arith)
          ∙ ap some (
              joined_fields (h / 2 ^ 20) (h / 2 ^ 12 % 2 ^ 8) (h % 2 ^ 12) (omega arith)
                (omega arith)
              ∙ whole))

  -- A handle of a bucket and of a node below 256, without a table: the text is read back as the
  -- handle of the table with the number of the bucket, and of the bucket with the number of the node.
  pub get_u32_handle_shifts :
      (stale : Bool)
      → h < 2 ^ 20
      → 2 ^ 12 ≤ h
      → 0 < h % 2 ^ 12
      → h % 2 ^ 12 < 0x100
      → get_u32_handle stale (sprint_u32_handle false h)
        ≡ some (h / 2 ^ 12 * 2 ^ 20 + h % 2 ^ 12 * 2 ^ 12)
  unfolding get_u32_handle sprint_u32_handle node_part print_num
  get_u32_handle_shifts stale low bucket node few =
      let (ft, fh, fn) = fields in
      let given : (h == 0) ≡ false = ground arith in
      let none_named : (h / 2 ^ 20 * 2 ^ 20 == 0) ≡ true = ground arith in
      let hash : h / 2 ^ 12 % 2 ^ 8 ≡ h / 2 ^ 12 = omega arith in
      let some_bucket : (h / 2 ^ 12 == 0) ≡ false = ground arith in
      let some_node : (h % 2 ^ 12 == 0) ≡ false = ground arith in
      rw (given, ft, fh, fn, none_named, hash, some_bucket, some_node, append-nil, colon_inside)
        (table_read (h / 2 ^ 12) (print_num 16 (h % 2 ^ 12)) (omega arith)
          ∙ hash_read (h / 2 ^ 12) (h % 2 ^ 12) [] few tt
          ∙ ap some (joined_fields (h / 2 ^ 12) (h % 2 ^ 12) 0 few (omega arith) ∙ omega arith))
