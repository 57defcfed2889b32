-- ===== src/RtNames/Ends.antt =====
-- The loops of lib/rt_names.c and lib/names.c over the lines of a file, and their rounds.
use libiproute.Prelude.{
  ℕ, zero, suc, ◌+◌, ◌<◌, ◌≡◌, refl, ap, ◌∙◌, arith, Option, some, List, [], ◌∷◌, Bytes, length,
  set, Bool-cases, Option-cases, inl, inr,
}
use libiproute.Prelude.Int.{ℤ, pos, negsuc}
use libiproute.RtNames.{
  Files, IdName, ended, corrupted, entry, read_entry, fread_id_name, skip_blank, nothing_here,
  scan_line, Table, tab_loop, tab_round, tab_lines,
}
use libiproute.RtNames.Db.{Pairs, scan_id_name, read_id_name, load_loop, load_lines, load_round}
use libiproute.RtNames.Hash.{Hash, names_round, hash_add, hash_loop, hash_round, hash_lines}

-- What is left behind an entry is shorter.
abbrev pub Shorter : ℕ → IdName → Type 0
Shorter n ended = Unit
Shorter n corrupted = Unit
Shorter n (entry id name rest) = length rest < n

longer : (n : ℕ) (r : IdName) → Shorter n r → Shorter (suc n) r
longer n ended h = tt
longer n corrupted h = tt
longer n (entry id name rest) h = omega arith

pub read_entry-Shorter :
    (scan : Bytes → Option (ℤ × Bytes)) (lines : List Bytes)
    → Shorter (length lines) (read_entry scan lines)
unfolding read_entry
read_entry-Shorter scan [] = tt
read_entry-Shorter scan (buf ∷ lines) = elim (Bool-cases (nothing_here (skip_blank buf))) [
  | inl e ↦ rw e (longer (length lines) (read_entry scan lines) (read_entry-Shorter scan lines))
  | inr e ↦ elim (Option-cases (scan (skip_blank buf))) [
    | inl z ↦ rw (e, z) tt
    | inr (p, z) ↦ rw (e, z) (omega arith)
  ]
]

fread_id_name-Shorter :
    (f : Files) (lines : List Bytes) → Shorter (length lines) (fread_id_name f lines)
unfolding fread_id_name
fread_id_name-Shorter f lines = read_entry-Shorter (scan_line f) lines

names_round-alike {ℓ} :
    {R : Type ℓ} (at_end bad : R) (next next' : List Bytes → Hash → R) (n : ℕ)
    → ((rest : List Bytes) (hash : Hash) → length rest < n → next rest hash ≡ next' rest hash)
    → (hash : Hash) (r : IdName) → Shorter n r
    → names_round at_end bad next hash r ≡ names_round at_end bad next' hash r
names_round-alike at_end bad next next' n same hash ended s = refl
names_round-alike at_end bad next next' n same hash corrupted s = refl
names_round-alike at_end bad next next' n same hash (entry (negsuc k) name rest) s =
    same rest hash s
names_round-alike at_end bad next next' n same hash (entry (pos id) name rest) s =
    same rest (hash_add hash id name) s

tab_round-alike :
    (next next' : List Bytes → Table → Option Table) (n : ℕ)
    → ((rest : List Bytes) (tab : Table) → length rest < n → next rest tab ≡ next' rest tab)
    → (size : ℕ) (tab : Table) (r : IdName) → Shorter n r
    → tab_round next size tab r ≡ tab_round next' size tab r
tab_round-alike next next' n same size tab ended s = refl
tab_round-alike next next' n same size tab corrupted s = refl
tab_round-alike next next' n same size tab (entry (negsuc k) name rest) s = same rest tab s
tab_round-alike next next' n same size tab (entry (pos id) name rest) s =
    rw (same rest tab s, same rest (set tab id (some name)) s) refl

hash_loop-rounds :
    (f : Files) (a b : ℕ) (lines : List Bytes) (hash : Hash)
    → length lines < a
    → length lines < b
    → hash_loop f a lines hash ≡ hash_loop f b lines hash
unfolding hash_loop
hash_loop-rounds f zero b lines hash ha hb = absurd (omega arith)
hash_loop-rounds f (suc a) zero lines hash ha hb = absurd (omega arith)
hash_loop-rounds f (suc a) (suc b) lines hash ha hb =
    names_round-alike hash hash (hash_loop f a) (hash_loop f b) (length lines)
      (λ rest hash' h. hash_loop-rounds f a b rest hash' (omega arith) (omega arith)) hash
      (fread_id_name f lines) (fread_id_name-Shorter f lines)

load_loop-rounds :
    (p : Pairs) (a b : ℕ) (lines : List Bytes) (hash : Hash)
    → length lines < a
    → length lines < b
    → load_loop p a lines hash ≡ load_loop p b lines hash
unfolding load_loop read_id_name
load_loop-rounds p zero b lines hash ha hb = absurd (omega arith)
load_loop-rounds p (suc a) zero lines hash ha hb = absurd (omega arith)
load_loop-rounds p (suc a) (suc b) lines hash ha hb =
    names_round-alike (pos 0, hash) (negsuc 0, hash) (load_loop p a) (load_loop p b) (length lines)
      (λ rest hash' h. load_loop-rounds p a b rest hash' (omega arith) (omega arith)) hash
      (read_id_name p lines) (read_entry-Shorter (scan_id_name p) lines)

tab_loop-rounds :
    (f : Files) (size a b : ℕ) (lines : List Bytes) (tab : Table)
    → length lines < a
    → length lines < b
    → tab_loop f size a lines tab ≡ tab_loop f size b lines tab
unfolding tab_loop
tab_loop-rounds f size zero b lines tab ha hb = absurd (omega arith)
tab_loop-rounds f size (suc a) zero lines tab ha hb = absurd (omega arith)
tab_loop-rounds f size (suc a) (suc b) lines tab ha hb =
    tab_round-alike (tab_loop f size a) (tab_loop f size b) (length lines)
      (λ rest tab' h. tab_loop-rounds f size a b rest tab' (omega arith) (omega arith)) size tab
      (fread_id_name f lines) (fread_id_name-Shorter f lines)

-- The loops over the lines of a file end, whatever the lines are: each satisfies the equation of its
-- `while` loop, with no count of rounds.
pub lines_step :
    (f : Files) (p : Pairs) (size : ℕ) (lines : List Bytes) (tab : Table) (hash : Hash)
    → (tab_lines f size lines tab ≡ tab_round (tab_lines f size) size tab (fread_id_name f lines))
      × (hash_lines f lines hash ≡ hash_round (hash_lines f) hash (fread_id_name f lines))
      × (load_lines p lines hash ≡ load_round (load_lines p) hash (read_id_name p lines))
unfolding tab_loop hash_loop load_loop read_id_name
lines_step f p size lines tab hash =
    let n = length lines in
    let one_more : n + 1 ≡ suc n = omega arith in
    (
      ap (λ (r : ℕ). tab_loop f size r lines tab) one_more
          ∙ tab_round-alike (tab_loop f size n) (tab_lines f size) n
              (λ rest tab' h. tab_loop-rounds f size n (length rest + 1) rest tab' h (omega arith))
              size tab (fread_id_name f lines) (fread_id_name-Shorter f lines),
      ap (λ (r : ℕ). hash_loop f r lines hash) one_more
          ∙ names_round-alike hash hash (hash_loop f n) (hash_lines f) n
              (λ rest hash' h. hash_loop-rounds f n (length rest + 1) rest hash' h (omega arith))
              hash (fread_id_name f lines) (fread_id_name-Shorter f lines),
      ap (λ (r : ℕ). load_loop p r lines hash) one_more
          ∙ names_round-alike (pos 0, hash) (negsuc 0, hash) (load_loop p n) (load_lines p) n
              (λ rest hash' h. load_loop-rounds p n (length rest + 1) rest hash' h (omega arith))
              hash (read_id_name p lines) (read_entry-Shorter (scan_id_name p) lines),
    )
