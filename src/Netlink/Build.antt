-- ===== src/Netlink/Build.antt =====
-- Building a message: `addattr_l` and the functions about it, and the attributes that are built
-- inside another attribute (`rta_addattr_l` and its kin).
pub mod Laws
pub mod Stream
pub mod Nested
mod Runs
use libiproute.Prelude.{
  ℕ, zero, suc, ◌+◌, ◌-◌, ◌*◌, ◌/◌, ◌%◌, ◌^◌, Bool, true, false, List, [], ◌∷◌, ◌++◌, ltb,
  if◌then◌else◌, Bytes, length, replicate,
}
use libiproute.Netlink.Memory.{Memory, store, load, get16, le16, align4, rta_length, rta_len}

-- `struct nlmsghdr` and the buffer that it begins: `nlmsg_len`, and the bytes by their offset from
-- the header.
pub record Msg : Type 0 where
  pub nlmsg_len : ℕ
  pub mem : Memory

-- NLMSG_TAIL(n)
abbrev pub nlmsg_tail : Msg → ℕ
nlmsg_tail n = align4 n.nlmsg_len

-- The header and the payload of an attribute at `rta`: both fields have 16 bits.
unfoldable pub put_rtattr : Memory → ℕ → ℕ → Bytes → Memory
put_rtattr mem rta type payload =
    store (store (store mem (rta + 2) (le16 type)) rta (le16 (rta_length (length payload))))
      (rta + 4) payload

-- The result is the message and whether 0 was returned; on -1 the message is as it was.
unfoldable pub addattr_l : Msg → ℕ → ℕ → Bytes → Msg × Bool
addattr_l n maxlen type payload =
    let len = rta_length (length payload) in
    if ltb maxlen ((align4 n.nlmsg_len + align4 len) % 2 ^ 32) then (n, false) else (
      record {
        nlmsg_len = (align4 n.nlmsg_len + align4 len) % 2 ^ 32;
        mem = put_rtattr n.mem (nlmsg_tail n) type payload;
      },
      true,
    )

unfoldable pub addattr : Msg → ℕ → ℕ → Msg × Bool
addattr n maxlen type = addattr_l n maxlen type []

unfoldable pub addattr8 : Msg → ℕ → ℕ → ℕ → Msg × Bool
addattr8 n maxlen type v = addattr_l n maxlen type ((v % 256) ∷ [])

unfoldable pub addattr16 : Msg → ℕ → ℕ → ℕ → Msg × Bool
addattr16 n maxlen type v = addattr_l n maxlen type (le16 v)

abbrev pub le32 : ℕ → Bytes
le32 v = le16 v ++ le16 (v / 2 ^ 16)

abbrev pub le64 : ℕ → Bytes
le64 v = le32 v ++ le32 (v / 2 ^ 32)

unfoldable pub addattr32 : Msg → ℕ → ℕ → ℕ → Msg × Bool
addattr32 n maxlen type v = addattr_l n maxlen type (le32 v)

unfoldable pub addattr64 : Msg → ℕ → ℕ → ℕ → Msg × Bool
addattr64 n maxlen type v = addattr_l n maxlen type (le64 v)

unfoldable pub addattrstrz : Msg → ℕ → ℕ → Bytes → Msg × Bool
addattrstrz n maxlen type str = addattr_l n maxlen type (str ++ 0 ∷ [])

-- The data, and zeros up to the alignment.
unfoldable pub addraw_l : Msg → ℕ → Bytes → Msg × Bool
addraw_l n maxlen raw =
    let len = length raw in
    if ltb maxlen ((align4 n.nlmsg_len + align4 len) % 2 ^ 32) then (n, false) else (
      record {
        nlmsg_len = (align4 n.nlmsg_len + align4 len) % 2 ^ 32;
        mem =
            store (store n.mem (nlmsg_tail n) raw) (nlmsg_tail n + len)
              (replicate (align4 len - len) 0);
      },
      true,
    )

-- The message and the offset of the attribute that is begun; a failure goes unnoticed.
unfoldable pub addattr_nest : Msg → ℕ → ℕ → Msg × ℕ
addattr_nest n maxlen type = ((addattr_l n maxlen type []).0, nlmsg_tail n)

unfoldable pub addattr_nest_end : Msg → ℕ → Msg
addattr_nest_end n nest = record n { mem = store n.mem nest (le16 (nlmsg_tail n - nest)) }

unfoldable pub addattr_nest_compat : Msg → ℕ → ℕ → Bytes → Msg × ℕ
addattr_nest_compat n maxlen type payload =
    ((addattr_nest (addattr_l n maxlen type payload).0 maxlen type).0, nlmsg_tail n)

unfoldable pub addattr_nest_compat_end : Msg → ℕ → Msg
addattr_nest_compat_end n start =
    let nest = start + align4 (rta_len n.mem start) in
    addattr_nest_end (record n { mem = store n.mem start (le16 (nlmsg_tail n - start)) }) nest

-- Attributes inside the attribute at `rta`, whose own length grows.
unfoldable pub rta_addattr_l : Memory → ℕ → ℕ → ℕ → Bytes → Memory × Bool
rta_addattr_l mem rta maxlen type payload =
    let len = rta_length (length payload) in
    let tail = align4 (rta_len mem rta) in
    if ltb maxlen ((tail + align4 len) % 2 ^ 32)
    then (mem, false)
    else (store (put_rtattr mem (rta + tail) type payload) rta (le16 (tail + align4 len)), true)

unfoldable pub rta_addattr32 : Memory → ℕ → ℕ → ℕ → ℕ → Memory × Bool
rta_addattr32 mem rta maxlen type v =
    let len = rta_length 4 in
    let tail = align4 (rta_len mem rta) in
    if ltb maxlen ((tail + len) % 2 ^ 32)
    then (mem, false)
    else (store (put_rtattr mem (rta + tail) type (le32 v)) rta (le16 (tail + len)), true)

unfoldable pub rta_addattr8 : Memory → ℕ → ℕ → ℕ → ℕ → Memory × Bool
rta_addattr8 mem rta maxlen type v = rta_addattr_l mem rta maxlen type ((v % 256) ∷ [])

unfoldable pub rta_addattr16 : Memory → ℕ → ℕ → ℕ → ℕ → Memory × Bool
rta_addattr16 mem rta maxlen type v = rta_addattr_l mem rta maxlen type (le16 v)

unfoldable pub rta_addattr64 : Memory → ℕ → ℕ → ℕ → ℕ → Memory × Bool
rta_addattr64 mem rta maxlen type v = rta_addattr_l mem rta maxlen type (le64 v)

-- RTA_TAIL(rta) is an offset here too.
unfoldable pub rta_nest : Memory → ℕ → ℕ → ℕ → Memory × ℕ
rta_nest mem rta maxlen type =
    ((rta_addattr_l mem rta maxlen type []).0, rta + align4 (rta_len mem rta))

unfoldable pub rta_nest_end : Memory → ℕ → ℕ → Memory
rta_nest_end mem rta nest = store mem nest (le16 (rta + align4 (rta_len mem rta) - nest))

-- For the runs.
unfoldable pub run_build : ℕ
unfolding put_rtattr addattr_l addattr addattr8 addattr16 addattr32 addattr64 addattrstrz addraw_l
    addattr_nest addattr_nest_end addattr_nest_compat addattr_nest_compat_end rta_addattr_l
    rta_addattr32 rta_addattr8 rta_addattr16 rta_addattr64 rta_nest rta_nest_end le16 store rta_len
    get16 load
run_build = 0
