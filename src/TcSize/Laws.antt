-- ===== src/TcSize/Laws.antt =====
-- Sizes in ATM cells, the shifts that the loops find, and the entries of a size table.
use libiproute.Prelude.{
  ℕ, ◌+◌, ◌*◌, ◌/◌, ◌%◌, ◌^◌, ◌<◌, ◌≤◌, ◌≡◌, arith, some, List, [], ltb, Bool-cases, inl, inr, All,
  length,
}
use libiproute.Prelude.Int.{negsuc}
use libiproute.TcSize.{tc_align_to_atm, SizeSpec, rounds_from, fill_down, SizeTable, table}

-- A size whose cells fit 31 bits is aligned to the least number of whole cells that carry it.
pub tc_align_to_atm-least :
    (size : ℕ)
    → size < 2 ^ 31
    → (cells : ℕ) × (tc_align_to_atm size ≡ cells * 53)
      × (size ≤ cells * 48)
      × (cells * 48 < size + 48)
unfolding tc_align_to_atm
tc_align_to_atm-least size h = elim (Bool-cases (ltb 0 (size % 48))) [
  | inl part ↦ (size / 48 + 1, ground arith, omega arith, ground arith)
  | inr whole ↦ (size / 48, ground arith, ground arith, omega arith)
]

-- The entries of a table are those of the last round, and each has 16 bits.
abbrev pub IsTable : SizeSpec → List ℕ → Type 0
IsTable s es =
    (fill_down s (rounds_from s.tsize) [] ≡ some es)
    × All (λ (v : ℕ). v ≤ 0xffff) es
    × (length es ≡ s.tsize)

-- What comes of the rounds from `again` on.
abbrev pub Filled : SizeSpec → SizeTable → Type 0
Filled s r =
    (n : ℕ) × (es : List ℕ) × (r ≡ table (record s { size_log = n; cell_align = negsuc 0 }) es)
    × IsTable (record s { size_log = n }) es
