-- ===== src/Ipx.antt =====
-- IPX addresses as text: lib/ipx_pton.c and lib/ipx_ntop.c. An address is the network number, as
-- `ntohl` gives it, and the six bytes of the node.
pub mod Laws
mod Runs
use libiproute.Prelude.{
  ℕ, zero, suc, ◌+◌, ◌-◌, ◌*◌, ◌/◌, ◌%◌, ◌^◌, Bool, true, false, Option, none, some, List, [], ◌∷◌,
  ◌++◌, ltb, ◌==◌, if◌then◌else◌, ◌>>=◌, Bytes, length,
}
use libiproute.Hex.{get_hex}
use libiproute.Mpls.{Pton, done, invalid, unsupported}

abbrev pub af_ipx : ℕ
af_ipx = 4

abbrev pub getnet_step : Option ℕ → ℕ → ℕ → (ℕ → Option ℕ) → Option ℕ
getnet_step none c net next = if c == b'.' then some net else none
getnet_step (some tmp) c net next = next (net * 16 % 2 ^ 32 + tmp)

-- The loop, with the rounds that are left; `none` is -1. The low four bits of the shifted number
-- are 0.
unfoldable pub ipx_getnet : ℕ → ℕ → Bytes → Option ℕ
ipx_getnet rounds net [] = some net
ipx_getnet zero net (c ∷ str) = none
ipx_getnet (suc rounds) net (c ∷ str) =
    getnet_step (get_hex c) c net (λ net'. ipx_getnet rounds net' str)

abbrev pub skip_colon : Bytes → Bytes
skip_colon [] = []
skip_colon (c ∷ str) = if c == b':' then str else c ∷ str

-- The bytes of the node; `get_hex` refuses the NUL of a text that ends. What follows is not read.
unfoldable pub ipx_getnode : ℕ → Bytes → Option Bytes
ipx_getnode zero str = some []
ipx_getnode (suc rounds) [] = none
ipx_getnode (suc rounds) (c ∷ []) = none
ipx_getnode (suc rounds) (c ∷ d ∷ str) = do
  high ← get_hex c
  low ← get_hex d
  node ← ipx_getnode rounds (skip_colon str)
  some ((high * 16 + low) ∷ node)

-- The text behind the first dot.
unfoldable pub behind_dot : Bytes → Option Bytes
behind_dot [] = none
behind_dot (c ∷ str) = if c == b'.' then some str else behind_dot str

pub record IpxAddr : Type 0 where
  pub ipx_net : ℕ
  pub ipx_node : Bytes

unfoldable pub ipx_pton1 : Bytes → Option IpxAddr
unfolding ipx_getnet ipx_getnode behind_dot
ipx_pton1 src = do
  net ← ipx_getnet 8 0 src
  elim (behind_dot src) [
    | none ↦ some (record { ipx_net = net; ipx_node = 0 ∷ 0 ∷ 0 ∷ 0 ∷ 0 ∷ 0 ∷ [] })
    | some str ↦ (do node ← ipx_getnode 6 str; some (record { ipx_net = net; ipx_node = node }))
  ]

unfoldable pub ipx_pton : ℕ → Bytes → Pton IpxAddr
unfolding ipx_pton1
ipx_pton af src =
    if af == af_ipx then elim (ipx_pton1 src) [ none ↦ invalid | some a ↦ done a ] else unsupported

abbrev pub digit_text : ℕ → ℕ
digit_text tmp = if ltb 9 tmp then tmp + b'A' - 10 else tmp + b'0'

-- The text so far; `full`: there is no room, and no NUL behind the text.
pub data Printed : Type 0 where
  open_text full : Bytes → Printed

-- `putc`, where there is room for a character in a buffer of `len` bytes.
abbrev pub put_char : ℕ → ℕ → Printed → Printed
put_char len c (full str) = full str
put_char len c (open_text str) = if length str == len then full str else open_text (str ++ c ∷ [])

abbrev pub do_digit : ℕ → ℕ → ℕ → Printed → Printed
do_digit len addr scale str = put_char len (digit_text (addr / 16 ^ scale % 16)) str

-- The loop over `i` from 7 down to 0.
unfoldable pub net_digits : ℕ → ℕ → ℕ → Printed → Printed
net_digits len net zero str = str
net_digits len net (suc i) str = net_digits len net i (do_digit len net i str)

unfoldable pub node_digits : ℕ → Bytes → Printed → Printed
node_digits len [] str = str
node_digits len (b ∷ node) str = node_digits len node (do_digit len b 0 (do_digit len b 1 str))

-- `full` again, where there is no room for the NUL.
abbrev pub ended : ℕ → Printed → Printed
ended len (full str) = full str
ended len (open_text str) = if length str == len then full str else open_text str

unfoldable pub ipx_ntop1 : ℕ → IpxAddr → Printed
unfolding net_digits node_digits
ipx_ntop1 len addr = ended len (
    node_digits len addr.ipx_node
      (put_char len b'.' (net_digits len addr.ipx_net 8 (open_text []))))

unfoldable pub ipx_ntop : ℕ → IpxAddr → ℕ → Option Printed
unfolding ipx_ntop1
ipx_ntop af addr len = if af == af_ipx then some (ipx_ntop1 len addr) else none

-- For the runs.
unfoldable pub run_ipx : ℕ
unfolding ipx_getnet ipx_getnode behind_dot ipx_pton1 ipx_pton net_digits node_digits ipx_ntop1
    ipx_ntop get_hex
run_ipx = 0
