-- ===== src/Netlink/Parse/Laws.antt =====
-- The attribute parsers of lib/libnetlink.c on any memory.
use Prim.Native.Nat.{bit_and}
use libiproute.Prelude.{
  ℕ, zero, suc, ◌+◌, ◌-◌, ◌*◌, ◌^◌, ◌≤◌, ◌<◌, ◌≡◌, inl, inr, refl, arith, true, not, Option, none,
  some, List, [], ◌∷◌, All, leb, ◌==◌, Bool-cases, if◌then◌else◌,
}
use libiproute.Prelude.Bits.{bit_and-low_mask}
use libiproute.Netlink.Memory.{Memory, align4, rta_len, rta_type, get16}
use libiproute.Netlink.Parse.{
  rta_ok, visit, walk_fuel, walk, Table, empty, enter, fill, parse_rtattr_flags, parse_rtattr,
  find_type, parse_rtattr_one,
}

abbrev pub IsMemory : Memory → Type 0
IsMemory mem = (i : ℕ) → mem i < 256

rta_len-lt : (mem : Memory) (rta : ℕ) → IsMemory mem → rta_len mem rta < 2 ^ 16
unfolding rta_len get16
rta_len-lt mem rta h = omega (arith, h rta, h (rta + 1))

-- More rounds than bytes change nothing.
walk_fuel_stable :
    (f g : ℕ) (mem : Memory) (rta len : ℕ)
    → IsMemory mem
    → len ≤ f
    → len ≤ g
    → walk_fuel f mem rta len ≡ walk_fuel g mem rta len
unfolding walk_fuel rta_ok
walk_fuel_stable zero zero mem rta len h p q = refl
walk_fuel_stable zero (suc g) mem rta len h p q = ground arith
walk_fuel_stable (suc f) zero mem rta len h p q = ground arith
walk_fuel_stable (suc f) (suc g) mem rta len h p q =
    let size : ℕ = align4 (rta_len mem rta) in
    ground (arith, rta_len-lt mem rta h, walk_fuel_stable f g mem (rta + size) (len - size) h)

-- On a memory of bytes the loop of the parsers ends: `walk` satisfies the equation of the `while`
-- loop, with no count of rounds.
pub walk_step :
    (mem : Memory) (rta len : ℕ)
    → IsMemory mem
    → let size = align4 (rta_len mem rta) in
      walk mem rta len ≡ (
        if rta_ok mem rta len
        then (if leb size len
            then visit rta (walk mem (rta + size) (len - size))
            else record { visited = rta ∷ []; deficit = true })
        else record { visited = []; deficit = not (len == 0) })
unfolding walk walk_fuel rta_ok
walk_step mem rta zero h = refl
walk_step mem rta (suc len) h =
    let size : ℕ = align4 (rta_len mem rta) in
    ground (
      arith,
      rta_len-lt mem rta h,
      walk_fuel_stable len (suc len - size) mem (rta + size) (suc len - size) h,
    )

-- An attribute with its header, inside the bytes from `rta` to `rta + len`.
abbrev pub InStream : Memory → ℕ → ℕ → ℕ → Type 0
InStream mem rta len o = (rta ≤ o) × (4 ≤ rta_len mem o) × (o + rta_len mem o ≤ rta + len)

All-imp : {P Q : ℕ → Type 0} (l : List ℕ) → ((o : ℕ) → P o → Q o) → All P l → All Q l
All-imp [] f h = tt
All-imp (o ∷ l) f (h, hs) = (f o h, All-imp l f hs)

walk_fuel-InStream :
    (fuel : ℕ) (mem : Memory) (rta len : ℕ)
    → All (InStream mem rta len) (walk_fuel fuel mem rta len).visited
unfolding walk_fuel rta_ok
walk_fuel-InStream zero mem rta len = tt
walk_fuel-InStream (suc fuel) mem rta len =
    let size : ℕ = align4 (rta_len mem rta) in
    elim (Bool-cases (rta_ok mem rta len)) [
      | inl good ↦ elim (Bool-cases (leb size len)) [
        | inl more ↦
            rw (good, more)
              (
                ground arith,
                All-imp (walk_fuel fuel mem (rta + size) (len - size)).visited (λ o h. ground arith)
                    (walk_fuel-InStream fuel mem (rta + size) (len - size)),
              )
        | inr last ↦ rw (good, last) (ground arith, tt)
      ]
      | inr bad ↦ rw bad tt
    ]

-- The type of an attribute without the flags.
abbrev pub masked_type : Memory → ℕ → ℕ → ℕ
masked_type mem flags rta = bit_and (rta_type mem rta) (0xffff - flags)

-- The first attribute of a type in a list.
unfoldable pub first_of_type : Memory → ℕ → ℕ → List ℕ → Option ℕ
first_of_type mem flags t [] = none
first_of_type mem flags t (rta ∷ rest) =
    if masked_type mem flags rta == t then some rta else first_of_type mem flags t rest

abbrev or_else : Option ℕ → Option ℕ → Option ℕ
or_else none p = p
or_else (some o) p = some o

fill-first :
    (mem : Memory) (max flags t : ℕ) (l : List ℕ) (tb : Table)
    → fill mem max flags l tb t
      ≡ or_else (tb t) (if leb t max then first_of_type mem flags t l else none)
unfolding fill first_of_type
fill-first mem max flags t [] tb = ground arith
fill-first mem max flags t (rta ∷ rest) tb =
    ground (arith, fill-first mem max flags t rest (enter max (masked_type mem flags rta) rta tb))

-- Up to `max`, the entry of a type is the first attribute of the stream that has the type without
-- the flags, and NULL if none has it; above `max` the table has no entry.
pub parse_rtattr_flags-first :
    (mem : Memory) (max rta len flags t : ℕ)
    → (parse_rtattr_flags mem max rta len flags).0 t
      ≡ (if leb t max then first_of_type mem flags t (walk mem rta len).visited else none)
unfolding parse_rtattr_flags
parse_rtattr_flags-first mem max rta len flags t =
    fill-first mem max flags t (walk mem rta len).visited empty

first_of_type-InStream :
    (mem : Memory) (flags t rta len : ℕ) (l : List ℕ) (o : ℕ)
    → All (InStream mem rta len) l
    → first_of_type mem flags t l ≡ some o
    → InStream mem rta len o × (masked_type mem flags o ≡ t)
unfolding first_of_type
first_of_type-InStream mem flags t rta len [] o h e = cc
first_of_type-InStream mem flags t rta len (x ∷ l) o (h, hs) e =
    ground (arith, first_of_type-InStream mem flags t rta len l o hs)

-- Whatever the memory holds, an entry of the table points to an attribute of its own type that
-- lies in the stream with its header and its payload.
pub parse_rtattr_flags-InStream :
    (mem : Memory) (max rta len flags t o : ℕ)
    → (parse_rtattr_flags mem max rta len flags).0 t ≡ some o
    → (t ≤ max) × InStream mem rta len o × (masked_type mem flags o ≡ t)
unfolding walk
parse_rtattr_flags-InStream mem max rta len flags t o e =
    let inside = walk_fuel-InStream len mem rta len in
    ground (
      arith,
      parse_rtattr_flags-first mem max rta len flags t,
      first_of_type-InStream mem flags t rta len (walk mem rta len).visited o inside,
    )

pub unmasked : (mem : Memory) (rta : ℕ) → IsMemory mem → masked_type mem 0 rta ≡ rta_type mem rta
unfolding rta_type get16
unmasked mem rta h = omega (
  arith,
  h (rta + 2),
  h (rta + 2 + 1),
  bit_and-low_mask 16 (mem (rta + 2) + 256 * mem (rta + 2 + 1)),
)

find_type-first :
    (mem : Memory) (t : ℕ) (l : List ℕ) → IsMemory mem → find_type mem t l ≡ first_of_type mem 0 t l
unfolding find_type first_of_type
find_type-first mem t [] h = refl
find_type-first mem t (rta ∷ l) h = ground (arith, unmasked mem rta h, find_type-first mem t l h)

-- In a memory of bytes, `parse_rtattr_one` finds what `parse_rtattr` enters in its table under a type
-- up to `max`.
pub parse_rtattr_one-parse_rtattr :
    (mem : Memory) (max rta len t : ℕ)
    → IsMemory mem
    → t ≤ max
    → parse_rtattr_one mem t rta len ≡ (parse_rtattr mem max rta len).0 t
unfolding parse_rtattr_one parse_rtattr
parse_rtattr_one-parse_rtattr mem max rta len t h le = ground (
  arith,
  find_type-first mem t (walk mem rta len).visited h,
  parse_rtattr_flags-first mem max rta len 0 t,
)
