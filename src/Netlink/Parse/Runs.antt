-- ===== src/Netlink/Parse/Runs.antt =====
-- Concrete runs, and the theorems at concrete inputs.
use libiproute.Prelude.{
  ◌+◌, ◌-◌, ◌≤◌, ◌≡◌, refl, arith, true, false, not, none, some, [], ◌∷◌, Bytes, leb, ◌==◌,
  if◌then◌else◌,
}
use libiproute.Netlink.Memory.{Memory, store, align4, rta_len}
use libiproute.Netlink.Parse.{
  walk, visit, rta_ok, parse_rtattr, parse_rtattr_flags, parse_rtattr_byindex, run_parse,
}
use libiproute.Netlink.Parse.Laws.{
  IsMemory, InStream, masked_type, first_of_type, walk_step, parse_rtattr_flags-first,
  parse_rtattr_flags-InStream,
}
use libiproute.Netlink.Build.Laws.{store-IsMemory}

-- Three attributes: type 1 with a byte, type 2 with none, type 0x8001 with two.
abbrev three_attrs : Bytes
three_attrs = 5 ∷ 0 ∷ 1 ∷ 0 ∷ 7 ∷ 0 ∷ 0 ∷ 0 ∷ 4 ∷ 0 ∷ 2 ∷ 0 ∷ 6 ∷ 0 ∷ 1 ∷ 128 ∷ 9 ∷ 9 ∷ 0 ∷ 0 ∷ []

abbrev three : Memory
three = store (λ i. 0) 0 three_attrs

three-IsMemory : IsMemory three
three-IsMemory = store-IsMemory (λ i. 0) 0 three_attrs (λ i. omega arith) (ground arith)

first_wins : (parse_rtattr_flags three 2 0 20 0x8000).0 1 ≡ some 0
unfolding run_parse
first_wins = refl

flagged : (parse_rtattr three 2 0 20).0 0x8001 ≡ none
unfolding run_parse
flagged = refl

padding_cut : (parse_rtattr three 2 0 19).1 ≡ true
unfolding run_parse
padding_cut = refl

by_index : parse_rtattr_byindex three 2 0 20 ≡ (0 ∷ 8 ∷ [], false)
unfolding run_parse
by_index = refl

walk_step_example : walk three 0 20 ≡ (
    if rta_ok three 0 20
    then (if leb (align4 (rta_len three 0)) 20
        then visit 0 (walk three (0 + align4 (rta_len three 0)) (20 - align4 (rta_len three 0)))
        else record { visited = 0 ∷ []; deficit = true })
    else record { visited = []; deficit = not (20 == 0) })
walk_step_example = walk_step three 0 20 three-IsMemory

parse_rtattr_flags-first_example :
    (parse_rtattr_flags three 2 0 20 0x8000).0 1
    ≡ (if leb 1 2 then first_of_type three 0x8000 1 (walk three 0 20).visited else none)
parse_rtattr_flags-first_example = parse_rtattr_flags-first three 2 0 20 0x8000 1

parse_rtattr_flags-InStream_example :
    (2 ≤ 2) × InStream three 0 20 8 × (masked_type three 0x8000 8 ≡ 2)
unfolding run_parse
parse_rtattr_flags-InStream_example = parse_rtattr_flags-InStream three 2 0 20 0x8000 2 8 refl
