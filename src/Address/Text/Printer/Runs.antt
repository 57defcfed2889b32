-- ===== src/Address/Text/Printer/Runs.antt =====
-- Printed addresses at concrete inputs. There is no IPv6 text in them.
use libiproute.Prelude.{◌≡◌, refl, arith, ℕ, Option, none, [], ◌∷◌, Bytes, codes}
use libiproute.Mpls.{af_mpls}
use libiproute.CLib.{run_clib}
use libiproute.Mpls.Laws.{stack_text}
use libiproute.Mpls.Marked.{Marked, bare}
use libiproute.Address.{af_packet}
use libiproute.Address.Text.{label_bytes}
use libiproute.Address.Text.Printer.{shown, rt_addr_n2a_r, ll_addr_n2a, colon_bytes}
use libiproute.Address.Text.Printer.Laws.{AllBytes}
use libiproute.Address.Text.Printer.ReadBack.{link, mpls, Reads, get_addr_1-rt_addr_n2a_r}

no_text : ℕ → Bytes → ℕ → Option Bytes
no_text af addr buflen = none

no_pton6 : Bytes → Option Bytes
no_pton6 s = none

-- What the buffer has no room for is cut.
cut_address :
    rt_addr_n2a_r no_text af_packet 3 (0x52 ∷ 0x54 ∷ 0xff ∷ []) 8 ≡ shown (codes "52:54:f")
unfolding rt_addr_n2a_r ll_addr_n2a colon_bytes
cut_address = refl

-- The labels 100 and 16: the first entry with the traffic class 1 and the TTL 64.
abbrev stack : Bytes
stack = label_bytes (0x64240 ∷ 0x10140 ∷ [])

stack-Marked : Marked 0x64240 (0x10140 ∷ [])
unfolding Marked
stack-Marked = (omega arith, refl, (omega arith, refl))

get_addr_1-rt_addr_n2a_r_example :
    (s : Bytes) × (rt_addr_n2a_r no_text af_mpls 8 stack 16 ≡ shown s)
    × Reads no_text no_pton6 af_mpls s (label_bytes (bare 0x64240 (0x10140 ∷ [])))
unfolding stack_text run_clib label_bytes
get_addr_1-rt_addr_n2a_r_example =
    get_addr_1-rt_addr_n2a_r no_text no_pton6 16 af_mpls stack
      (label_bytes (bare 0x64240 (0x10140 ∷ [])))
      (mpls 0x64240 (0x10140 ∷ []) stack-Marked (omega arith) (omega arith))

-- The same for a link layer.
link_read_back :
    (s : Bytes) × (rt_addr_n2a_r no_text af_packet 3 (0x52 ∷ 0x54 ∷ 0xff ∷ []) 64 ≡ shown s)
    × Reads no_text no_pton6 af_packet s (0x52 ∷ 0x54 ∷ 0xff ∷ [])
unfolding AllBytes
link_read_back =
    get_addr_1-rt_addr_n2a_r no_text no_pton6 64 af_packet (0x52 ∷ 0x54 ∷ 0xff ∷ [])
      (0x52 ∷ 0x54 ∷ 0xff ∷ [])
      (link 0x52 (0x54 ∷ 0xff ∷ []) (omega arith, (omega arith, (omega arith, tt))) (omega arith)
        (omega arith))
