-- ===== src/Netlink/Parse/Stream.antt =====
-- A memory that holds a list of attributes, and what the parsers make of it.
use libiproute.Prelude.{
  ℕ, ◌+◌, ◌-◌, ◌%◌, ◌^◌, ◌<◌, ◌≡◌, refl, ap, ◌∙◌, arith, false, Option, none, some, List, [], ◌∷◌,
  ◌++◌, Bytes, length, leb, ◌==◌, if◌then◌else◌,
}
use libiproute.Netlink.Memory.{Memory, align4, rta_length, rta_len, rta_type, rta_data, load}
use libiproute.Netlink.Parse.{rta_ok, walk, walk_fuel, parse_rtattr, parse_rtattr_flags}
use libiproute.Netlink.Parse.Laws.{
  IsMemory, walk_step, first_of_type, unmasked, parse_rtattr_flags-first,
}

-- An attribute as a value.
pub record Attr : Type 0 where
  pub type : ℕ
  pub payload : Bytes

abbrev pub attr_len : Attr → ℕ
attr_len a = rta_length (length a.payload)

abbrev pub attr_size : Attr → ℕ
attr_size a = align4 (attr_len a)

-- The attribute stands at `off`.
abbrev pub At : Memory → ℕ → Attr → Type 0
At mem off a =
    (attr_len a < 2 ^ 16)
    × (rta_len mem off ≡ attr_len a)
    × (rta_type mem off ≡ a.type)
    × (load mem (off + 4) (length a.payload) ≡ a.payload)

-- The attributes stand one behind the other, from `off` up to `stop`.
abbrev pub Holds : Memory → ℕ → List Attr → ℕ → Type 0
Holds mem off [] stop = off ≡ stop
Holds mem off (a ∷ l) stop = At mem off a × Holds mem (off + attr_size a) l stop

unfoldable pub stream_size : List Attr → ℕ
stream_size [] = 0
stream_size (a ∷ l) = attr_size a + stream_size l

pub Holds-stop :
    (mem : Memory) (off : ℕ) (l : List Attr) (stop : ℕ)
    → Holds mem off l stop
    → stop ≡ off + stream_size l
unfolding stream_size
Holds-stop mem off [] stop h = omega arith
Holds-stop mem off (a ∷ l) stop (h, hs) =
    omega (arith, Holds-stop mem (off + attr_size a) l stop hs)

offsets : ℕ → List Attr → List ℕ
offsets off [] = []
offsets off (a ∷ l) = off ∷ offsets (off + attr_size a) l

walk-Holds :
    (mem : Memory) (off : ℕ) (l : List Attr) (stop : ℕ)
    → IsMemory mem
    → Holds mem off l stop
    → walk mem off (stream_size l) ≡ record { visited = offsets off l; deficit = false }
unfolding stream_size offsets rta_ok
walk-Holds mem off [] stop m h = unfold walk walk_fuel in refl
walk-Holds mem off (a ∷ l) stop m (h, hs) = ground (
  arith,
  walk_step mem off (attr_size a + stream_size l) m,
  ap (walk mem (off + attr_size a)) (rest (attr_size a) (stream_size l)),
  walk-Holds mem (off + attr_size a) l stop m hs,
)
  where
    rest : (x y : ℕ) → x + y - x ≡ y
    rest x y = omega arith

-- The first payload of a type.
unfoldable pub lookup_attr : ℕ → List Attr → Option Bytes
lookup_attr t [] = none
lookup_attr t (a ∷ l) = if a.type == t then some a.payload else lookup_attr t l

-- The payload to which an entry points.
abbrev pub payload_at : Memory → Option ℕ → Option Bytes
payload_at mem none = none
payload_at mem (some o) = some (rta_data mem o)

payload-At : (mem : Memory) (off : ℕ) (a : Attr) → At mem off a → rta_data mem off ≡ a.payload
payload-At mem off a (small, len, type, same) = ap (load mem (off + 4)) (omega (arith, len)) ∙ same

first_of_type-Holds :
    (mem : Memory) (t off : ℕ) (l : List Attr) (stop : ℕ)
    → IsMemory mem
    → Holds mem off l stop
    → payload_at mem (first_of_type mem 0 t (offsets off l)) ≡ lookup_attr t l
unfolding first_of_type offsets lookup_attr
first_of_type-Holds mem t off [] stop m h = refl
first_of_type-Holds mem t off (a ∷ l) stop m (h, hs) = ground (
  arith,
  unmasked mem off m,
  payload-At mem off a h,
  first_of_type-Holds mem t (off + attr_size a) l stop m hs,
)

-- On a stream of attributes the table has, for each type up to `max`, the first payload of that
-- type, and no deficit is reported.
pub parse_rtattr-Holds :
    (mem : Memory) (max t off : ℕ) (l : List Attr) (stop : ℕ)
    → IsMemory mem
    → Holds mem off l stop
    → (payload_at mem ((parse_rtattr mem max off (stop - off)).0 t)
        ≡ (if leb t max then lookup_attr t l else none))
      × ((parse_rtattr mem max off (stop - off)).1 ≡ false)
unfolding parse_rtattr parse_rtattr_flags
parse_rtattr-Holds mem max t off l stop m h =
    let size : stop - off ≡ stream_size l = omega (arith, Holds-stop mem off l stop h) in
    rw size (
      ground (
        arith,
        parse_rtattr_flags-first mem max off (stream_size l) 0 t,
        walk-Holds mem off l stop m h,
        first_of_type-Holds mem t off l stop m h,
      ),
      ground (arith, walk-Holds mem off l stop m h),
    )

pub stream_size-aligned : (l : List Attr) → stream_size l % 4 ≡ 0
unfolding stream_size
stream_size-aligned [] = refl
stream_size-aligned (a ∷ l) = omega (arith, stream_size-aligned l)

pub Holds-front :
    (mem : Memory) (off : ℕ) (l m : List Attr) (stop : ℕ)
    → Holds mem off (l ++ m) stop
    → Holds mem off l (off + stream_size l)
unfolding stream_size
Holds-front mem off [] m stop h = omega arith
Holds-front mem off (a ∷ l) m stop (h, hs) =
    let same : off + attr_size a + stream_size l ≡ off + (attr_size a + stream_size l) =
      omega arith in
    (h, rw same at (Holds-front mem (off + attr_size a) l m stop hs))

pub Holds-back :
    (mem : Memory) (off : ℕ) (l m : List Attr) (stop : ℕ)
    → Holds mem off (l ++ m) stop
    → Holds mem (off + stream_size l) m stop
unfolding stream_size
Holds-back mem off [] m stop h = let same : off ≡ off + 0 = omega arith in rw same at h
Holds-back mem off (a ∷ l) m stop (h, hs) =
    let same : off + attr_size a + stream_size l ≡ off + (attr_size a + stream_size l) =
      omega arith in
    rw same at (Holds-back mem (off + attr_size a) l m stop hs)
