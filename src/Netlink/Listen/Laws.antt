-- ===== src/Netlink/Listen/Laws.antt =====
-- The loops of `rtnl_listen` and `rtnl_from_file` of lib/libnetlink.c on whole messages.
use libiproute.Prelude.{
  ℕ, zero, suc, ◌+◌, ◌-◌, ◌^◌, ◌≤◌, ◌<◌, ◌≡◌, refl, sym, ap, ◌∙◌, arith, Option, some, List, [],
  ◌∷◌, ◌++◌, Bytes, length, length-append, map, All,
}
use libiproute.Prelude.Int.{ℤ, pos}
use libiproute.Netlink.Memory.{Memory, load, align4}
use libiproute.Netlink.Memory.Laws.{length-load}
use libiproute.Netlink.Build.{Msg}
use libiproute.Netlink.Recv.{Datagram, view, hdr_len}
use libiproute.Netlink.Dump.Single.{Frames, nlmsg_ok_bounds}
use libiproute.Netlink.Listen.{content, heard, file_fuel, rtnl_from_file}
use libiproute.Netlink.Listen.File.{hear_all, buffer, file_fuel_step}

-- Messages that fit the buffer of `rtnl_from_file`.
abbrev pub AllSmall : List Msg → Type 0
AllSmall ns = All (λ (n : Msg). n.nlmsg_len ≤ 16384) ns

-- Whole datagrams of such messages.
abbrev pub IsStored : Datagram × List Msg → Type 0
IsStored (d, ns) = (d.len < 2 ^ 31) × Frames d.mem 0 d.len ns × AllSmall ns

-- What the dump loop writes of the datagrams.
abbrev pub dump_bytes : List (Datagram × List Msg) → Bytes
dump_bytes [] = []
dump_bytes ((d, ns) ∷ ds) = load d.mem 0 (align4 d.len) ++ dump_bytes ds

abbrev pub contents : List (Datagram × List Msg) → List Bytes
contents [] = []
contents ((d, ns) ∷ ds) = map content ns ++ contents ds

Frames-align4 :
    (mem : Memory) (h len : ℕ) (ns : List Msg)
    → Frames mem h len ns
    → len < 2 ^ 31
    → align4 len ≡ len
Frames-align4 mem h len [] f k = rw f refl
Frames-align4 mem h len (n ∷ ns) (first, ok, fits, rest) k = omega (
  arith,
  Frames-align4 mem (h + align4 (hdr_len mem h)) (len - align4 (hdr_len mem h)) ns rest
      (omega arith),
)

module _ {S : Type 0} (handler : S → Bytes → S × ℤ) where
  hear_all-append :
      (bs cs : List Bytes) (s : S) (next : S → Option (S × ℤ))
      → hear_all handler (bs ++ cs) s next ≡ hear_all handler bs s (λ t. hear_all handler cs t next)
  hear_all-append [] cs s next = refl
  hear_all-append (b ∷ bs) cs s next =
      ap (heard handler (handler s b)) (λ i t. hear_all-append bs cs t next i)

  -- The messages in front of the rest of a file, of which it is known what follows.
  file_fuel-hear_all :
      (fuel : ℕ) (buf mem : Memory) (h len : ℕ) (ns : List Msg) (rest : Bytes)
      (next : S → Option (S × ℤ)) (s : S)
      → len < 2 ^ 31
      → Frames mem h len ns
      → AllSmall ns
      → len + length rest < fuel
      → ((fuel' : ℕ) (buf' : Memory) (t : S)
          → length rest < fuel'
          → file_fuel handler fuel' buf' rest t ≡ next t)
      → file_fuel handler fuel buf (load mem h len ++ rest) s
        ≡ hear_all handler (map content ns) s next
  unfolding load
  file_fuel-hear_all fuel buf mem h len [] rest next s k f small e after =
      rw f (after fuel buf s (omega arith))
  file_fuel-hear_all zero buf mem h len (n ∷ ns) rest next s k f small e after =
      absurd (omega arith)
  file_fuel-hear_all (suc fuel) buf mem h len (n ∷ ns) rest next s k (first, ok, fits, frames)
        (small, smalls) e after =
      let (room, header, inside) = nlmsg_ok_bounds mem h len ok in
      let size = align4 (hdr_len mem h) in
      let length_of = ap (λ (m : Msg). m.nlmsg_len) first in
      let later : (t : S)
          → file_fuel handler fuel (buffer buf mem h (align4 (hdr_len mem h - 16)))
              (load mem (h + size) (len - size) ++ rest) t
            ≡ hear_all handler (map content ns) t next =
        λ t.
          file_fuel-hear_all fuel (buffer buf mem h (align4 (hdr_len mem h - 16))) mem (h + size)
            (len - size) ns rest next t (omega arith) frames smalls (omega arith) after in
      file_fuel_step handler fuel buf mem h len rest s ok fits k (omega arith)
      ∙ ap (heard handler (handler s (content (view mem h)))) (λ i t. later t i)
      ∙ ap
          (λ (m : Msg).
            heard handler (handler s (content m)) (λ t. hear_all handler (map content ns) t next))
          (sym first)

  file_fuel_end :
      (fuel : ℕ) (buf : Memory) (s : S) → file_fuel handler (suc fuel) buf [] s ≡ some (s, pos 0)
  unfolding file_fuel
  file_fuel_end fuel buf s = refl

  file_fuel-dump_bytes :
      (fuel : ℕ) (buf : Memory) (ds : List (Datagram × List Msg)) (s : S)
      → All IsStored ds
      → length (dump_bytes ds) < fuel
      → file_fuel handler fuel buf (dump_bytes ds) s
        ≡ hear_all handler (contents ds) s (λ t. some (t, pos 0))
  file_fuel-dump_bytes zero buf [] s w e = absurd (omega arith)
  file_fuel-dump_bytes (suc fuel) buf [] s w e = file_fuel_end fuel buf s
  file_fuel-dump_bytes fuel buf ((d, ns) ∷ ds) s ((k, frames, small), ws) e =
      let aligned = Frames-align4 d.mem 0 d.len ns frames k in
      let last : S → Option (S × ℤ) = λ t. some (t, pos 0) in
      let room = length-append (load d.mem 0 (align4 d.len)) (dump_bytes ds) in
      ap (λ (n : ℕ). file_fuel handler fuel buf (load d.mem 0 n ++ dump_bytes ds) s) aligned
      ∙ file_fuel-hear_all fuel buf d.mem 0 d.len ns (dump_bytes ds)
          (λ t. hear_all handler (contents ds) t last) s k frames small
          (omega (arith, room, length-load d.mem 0 (align4 d.len), aligned))
          (λ fuel' buf' t e'. file_fuel-dump_bytes fuel' buf' ds t ws e')
      ∙ sym (hear_all-append (map content ns) (contents ds) s last)

  -- From a file of whole datagrams of small messages, as the dump loop writes it to dump_fp,
  -- rtnl_from_file hands the messages to the handler one after the other, and returns 0 behind the
  -- last one, or the first negative result of the handler.
  pub rtnl_from_file-dump_bytes :
      (buf : Memory) (ds : List (Datagram × List Msg)) (s : S)
      → All IsStored ds
      → rtnl_from_file handler buf (dump_bytes ds) s
        ≡ hear_all handler (contents ds) s (λ t. some (t, pos 0))
  unfolding rtnl_from_file
  rtnl_from_file-dump_bytes buf ds s w =
      file_fuel-dump_bytes (suc (length (dump_bytes ds))) buf ds s w (omega arith)
