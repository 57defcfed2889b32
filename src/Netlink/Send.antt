-- ===== src/Netlink/Send.antt =====
-- Sending without waiting for the answer, lib/libnetlink.c: `rtnl_send_check`.
use libiproute.Prelude.{
  ℕ, zero, suc, ◌+◌, ◌-◌, ◌^◌, ◌≤◌, ◌<◌, ◌≡◌, refl, sym, ap, ◌∙◌, arith, Bool, true, false, ◌||◌,
  List, [], ◌∷◌, leb, ◌==◌, if◌then◌else◌,
}
use libiproute.Prelude.Int.{ℤ, pos, negsuc}
use libiproute.Netlink.Memory.{align4, get32}
use libiproute.Netlink.Build.{Msg}
use libiproute.Netlink.Recv.{
  Datagram, Outcome, failed, arrived, eagain, view, hdr_len, msg_type, nlmsg_ok,
}
use libiproute.Netlink.Dump.{nlmsg_error}
use libiproute.Netlink.Dump.Single.{Frames, nlmsg_ok_bounds, nlmsg_ok_short}

-- Whether one of the messages from `h` on is NLMSG_ERROR; behind padding that is not there,
-- `status` is negative, which ends the loop.
unfoldable pub check_fuel : ℕ → Datagram → ℕ → ℕ → Bool
check_fuel zero d h status = false
check_fuel (suc fuel) d h status =
    let size = align4 (hdr_len d.mem h) in
    let rest = check_fuel fuel d (h + size) (status - size) in
    if nlmsg_ok d.mem h status
    then (if msg_type (view d.mem h) == nlmsg_error
        then true
        else if leb size status
        then rest
        else false)
    else false

-- `sent` is the result of `send`, and the outcome that of `recv` with MSG_DONTWAIT and MSG_PEEK.
unfoldable pub rtnl_send_check : ℤ → Outcome → ℤ
unfolding check_fuel
rtnl_send_check (negsuc n) answer = negsuc n
rtnl_send_check (pos n) (failed errno) = if errno == eagain then pos 0 else negsuc 0
rtnl_send_check (pos n) (arrived d) = if check_fuel d.len d 0 d.len then negsuc 0 else pos 0

-- One of the messages is NLMSG_ERROR.
abbrev pub has_error : List Msg → Bool
has_error [] = false
has_error (n ∷ ns) = (msg_type n == nlmsg_error) || has_error ns

or_if : (b p : Bool) → (if b then true else p) ≡ (b || p)
or_if true p = refl
or_if false p = refl

check_fuel-has_error :
    (fuel : ℕ) (d : Datagram) (h status : ℕ) (ns : List Msg)
    → status ≤ fuel
    → status < 2 ^ 31
    → Frames d.mem h status ns
    → check_fuel fuel d h status ≡ has_error ns
unfolding check_fuel get32
check_fuel-has_error zero d h status [] e k f = refl
check_fuel-has_error (suc fuel) d h status [] e k f =
    rw (nlmsg_ok_short d.mem h status (omega arith)) refl
check_fuel-has_error zero d h status (n ∷ ns) e k (first, ok, fits, rest) =
    absurd (omega (arith, nlmsg_ok_bounds d.mem h status ok))
check_fuel-has_error (suc fuel) d h status (n ∷ ns) e k (first, ok, fits, rest) =
    let (room, header, inside) = nlmsg_ok_bounds d.mem h status ok in
    let size = align4 (hdr_len d.mem h) in
    let goes_on : leb size status ≡ true = ground arith in
    let later =
      check_fuel-has_error fuel d (h + size) (status - size) ns (omega arith) (omega arith) rest in
    let same = ap (λ (m : Msg). msg_type m == nlmsg_error) first in
    let error = msg_type (view d.mem h) == nlmsg_error in
    rw (ok, goes_on)
      (or_if error (check_fuel fuel d (h + size) (status - size))
        ∙ ap (λ (t : Bool). error || t) later
        ∙ ap (λ (t : Bool). t || has_error ns) (sym same))

-- After a request is sent, the answer is -1 exactly if one of the messages of the whole datagram that
-- waits is NLMSG_ERROR, and else 0.
rtnl_send_check-has_error :
    (n : ℕ) (d : Datagram) (ns : List Msg)
    → d.len < 2 ^ 31
    → Frames d.mem 0 d.len ns
    → rtnl_send_check (pos n) (arrived d) ≡ (if has_error ns then negsuc 0 else pos 0)
unfolding rtnl_send_check
rtnl_send_check-has_error n d ns k f =
    ap (λ (t : Bool). if t then negsuc 0 else pos 0)
      (check_fuel-has_error d.len d 0 d.len ns (omega arith) k f)
