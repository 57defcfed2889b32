-- ===== src/RtNames/LlProto/Laws.antt =====
-- The names of lib/ll_proto.c, printed and read.
use libiproute.Prelude.{
  ℕ, zero, suc, ◌-◌, ◌^◌, ◌<◌, ◌≤◌, ◌≡◌, refl, ap, ◌∙◌, arith, Bool, true, false, ◌&&◌, Option,
  none, some, List, [], ◌∷◌, ◌++◌, ◌==◌, Bytes, bytes_eq, take, Bool-cases, inl, inr,
}
use libiproute.Numbers.{be16}
use libiproute.Numbers.Laws.{get_be16-bracket}
use libiproute.CLib.{print_num}
use libiproute.RtNames.LlProto.{
  LlProto, llproto_names, proto_name, proto_id, ntohs, name_or_number, ll_proto_n2a, ll_proto_a2n,
}

abbrev found_as : Option ℕ → ℕ → Bool
found_as none id = false
found_as (some i) id = i == id

found_as-some : (o : Option ℕ) (id : ℕ) → found_as o id ≡ true → o ≡ some id
found_as-some none id h = cc
found_as-some (some i) id h = ground arith

-- Every name of `names` finds its own number in `all`.
abbrev own : List LlProto → List LlProto → Bool
own all [] = true
own all (p ∷ names) = found_as (proto_id all p.name) p.id && own all names

llproto_names-own : own llproto_names llproto_names ≡ true
unfolding proto_id bytes_eq
llproto_names-own = refl

own-proto_id :
    (all names : List LlProto) (id : ℕ) (name : Bytes)
    → own all names ≡ true
    → proto_name names id ≡ some name
    → proto_id all name ≡ some id
unfolding proto_name
own-proto_id all [] id name h e = cc
own-proto_id all (p ∷ names) id name h e =
    let here : found_as (proto_id all p.name) p.id ≡ true = ground arith in
    let behind : own all names ≡ true = ground arith in
    let found = found_as-some (proto_id all p.name) p.id here in
    elim (Bool-cases (p.id == id)) [
      | inl same ↦ ground arith
      | inr other ↦ own-proto_id all names id name behind (ground arith)
    ]

be16-ntohs : (id : ℕ) → id < 2 ^ 16 → ntohs (be16 id) ≡ id
be16-ntohs id h = omega arith

-- No name starts with a bracket.
bracket_no_name : (s : Bytes) → proto_id llproto_names (b'[' ∷ s) ≡ none
unfolding proto_id bytes_eq
bracket_no_name s = refl

read_name :
    (stale : Bool) (name : Bytes) (id : ℕ)
    → proto_id llproto_names name ≡ some id
    → ll_proto_a2n stale name ≡ some (be16 id)
unfolding ll_proto_a2n
read_name stale name id e = rw e refl

unread_bracket : (stale : Bool) (s : Bytes) → ll_proto_a2n stale (b'[' ∷ s) ≡ none
unfolding ll_proto_a2n
unread_bracket stale s = rw (bracket_no_name s) (get_be16-bracket stale s)

bracket_first : (id len : ℕ) → 2 ≤ len → (s : Bytes) × (name_or_number none id len ≡ b'[' ∷ s)
bracket_first id zero room = absurd (omega arith)
bracket_first id (suc zero) room = absurd (omega arith)
bracket_first id (suc (suc k)) room =
    let rest = print_num 10 id ++ (b']' ∷ []) in
    let shorter : suc (suc k) - 1 ≡ suc k = omega arith in
    (take k rest, ap (λ (n : ℕ). take n (b'[' ∷ rest)) shorter)

read_bracketed :
    (stale : Bool) (id len : ℕ) → 2 ≤ len → ll_proto_a2n stale (name_or_number none id len) ≡ none
read_bracketed stale id len room =
    let (s, e) = bracket_first id len room in ap (ll_proto_a2n stale) e ∙ unread_bracket stale s

abbrev pub read_known : Option Bytes → ℕ → Option Bytes
read_known none id = none
read_known (some name) id = some (be16 id)

-- A number of 16 bits, printed and read: it is read back when it has a name, and refused when it is
-- printed in brackets, in a buffer with room for the bracket.
pub ll_proto_a2n-ll_proto_n2a :
    (stale : Bool) (id len : ℕ)
    → id < 2 ^ 16
    → 2 ≤ len
    → ll_proto_a2n stale (ll_proto_n2a (be16 id) len) ≡ read_known (proto_name llproto_names id) id
unfolding ll_proto_n2a
ll_proto_a2n-ll_proto_n2a stale id len h room =
    rw (be16-ntohs id h) (by_name (proto_name llproto_names id) refl)
  where
    by_name :
        (o : Option Bytes)
        → proto_name llproto_names id ≡ o
        → ll_proto_a2n stale (name_or_number o id len) ≡ read_known o id
    by_name (some name) e =
        read_name stale name id
          (own-proto_id llproto_names llproto_names id name llproto_names-own e)
    by_name none e = read_bracketed stale id len room
