-- ===== src/U32/Match/Laws.antt =====
-- The selectors that `parse_selector` of tc/f_u32.c leaves.
use libiproute.Prelude.{
  ℕ, Bool, true, false, ◌||◌, Option, none, some, [], ◌∷◌, if◌then◌else◌, Bytes, codes,
}
use libiproute.Prelude.Int.{ℤ, pos, negsuc, bits_of}
use libiproute.Address.{af_inet, af_inet6, word}
use libiproute.Address.Text.{get_prefix_1}
use libiproute.Netlink.Build.{Msg}
use libiproute.U32.{Sel, pack_key16}
use libiproute.U32.Parse.{Args, Outcome, is, fits, optional_at, parse_mark, prefix_mask}
use libiproute.U32.Match.{
  parse_ip_addr, parse_ip6_addr, parse_ether_addr, parse_ip, parse_ip6, parse_ether, parse_selector,
  same_message, same_selector,
}
use libiproute.U32.Parse.Laws.{
  IsSelector, Keeps, bind-Keeps, if-Keeps, left_over-Keeps, pack_key-KeepsKeys,
  pack_key16-KeepsKeys, prefix_mask-lt, ip6_loop-KeepsKeys, ether_loop-KeepsKeys, parse_u32-Keeps,
  parse_u16-Keeps, parse_u8-Keeps, parse_ip6_class-Keeps, parse_udp-Keeps, parse_icmp-Keeps,
}

module _ (inet_pton6 : Bytes → Option Bytes) (read_ether : Bytes → Option Bytes)
    (stale : Bool) where
  ip_addr-Keeps :
      (args : Args) (sel : Sel) (off : ℤ)
      → Keeps sel (parse_ip_addr inet_pton6 read_ether stale args sel off)
  unfolding parse_ip_addr
  ip_addr-Keeps [] sel off = tt
  ip_addr-Keeps (a ∷ args) sel off =
      bind-Keeps sel (get_prefix_1 inet_pton6 stale a af_inet) _ (λ addr e.
        bind-Keeps sel (optional_at stale args off (pos 0)) _ (λ (off', offmask, rest) f.
          left_over-Keeps sel rest _ (
            pack_key-KeepsKeys sel (word addr.data_bytes 0) (prefix_mask (bits_of addr.bitlen)) off'
              offmask (prefix_mask-lt (bits_of addr.bitlen)))))

  ip6_addr-Keeps :
      (args : Args) (sel : Sel) (off : ℤ)
      → Keeps sel (parse_ip6_addr inet_pton6 read_ether stale args sel off)
  unfolding parse_ip6_addr
  ip6_addr-Keeps [] sel off = tt
  ip6_addr-Keeps (a ∷ args) sel off =
      bind-Keeps sel (get_prefix_1 inet_pton6 stale a af_inet6) _ (λ addr e.
        bind-Keeps sel (optional_at stale args off (pos 0)) _ (λ (off', offmask, rest) f.
          left_over-Keeps sel rest _
            (ip6_loop-KeepsKeys 4 0 addr.data_bytes (bits_of addr.bitlen) off' offmask sel)))

  ether_addr-Keeps :
      (args : Args) (sel : Sel) (off : ℤ)
      → Keeps sel (parse_ether_addr inet_pton6 read_ether stale args sel off)
  unfolding parse_ether_addr
  ether_addr-Keeps [] sel off = tt
  ether_addr-Keeps (a ∷ args) sel off = bind-Keeps sel (read_ether a) _ (λ addr e.
      bind-Keeps sel (optional_at stale args off (pos 0)) _ (λ (off', offmask, rest) f.
        left_over-Keeps sel rest _ (ether_loop-KeepsKeys addr 0 off' offmask sel)))

  ip-Keeps : (args : Args) (sel : Sel) → Keeps sel (parse_ip inet_pton6 read_ether stale args sel)
  unfolding parse_ip
  ip-Keeps [] sel = tt
  ip-Keeps (a ∷ []) sel = tt
  ip-Keeps (a ∷ b ∷ args) sel =
      let r = b ∷ args in
      let half = λ (key mask : ℕ).
        left_over-Keeps sel r (pack_key16 sel key mask (pos 6) (pos 0))
          (pack_key16-KeepsKeys sel key mask (pos 6) (pos 0)) in
      let u8 = λ (o : ℕ). parse_u8-Keeps stale r sel (pos o) (pos 0) in
      let u16 = λ (o : ℕ). parse_u16-Keeps stale r sel (pos o) (pos 0) in
      if-Keeps sel (is a (codes "src")) _ _ (ip_addr-Keeps r sel (pos 12)) (
        if-Keeps sel (is a (codes "dst")) _ _ (ip_addr-Keeps r sel (pos 16)) (
          if-Keeps sel
            (is a (codes "tos") || fits a (codes "dsfield") || fits a (codes "precedence")) _ _
            (u8 1)
            (if-Keeps sel (is a (codes "ihl")) _ _ (u8 0) (
              if-Keeps sel (is a (codes "protocol")) _ _ (u8 9) (
                if-Keeps sel (is a (codes "nofrag")) _ _ (half 0 0x3fff) (
                  if-Keeps sel (is a (codes "firstfrag")) _ _ (half 0x2000 0x3fff) (
                    if-Keeps sel (is a (codes "df")) _ _ (half 0x4000 0x4000) (
                      if-Keeps sel (is a (codes "mf")) _ _ (half 0x2000 0x2000) (
                        if-Keeps sel (is a (codes "dport")) _ _ (u16 22) (
                          if-Keeps sel (is a (codes "sport")) _ _ (u16 20) (
                            if-Keeps sel (is a (codes "icmp_type")) _ _ (u8 20)
                              (if-Keeps sel (is a (codes "icmp_code")) _ none (u8 21) tt))))))))))))

  ip6-Keeps : (args : Args) (sel : Sel) → Keeps sel (parse_ip6 inet_pton6 read_ether stale args sel)
  unfolding parse_ip6
  ip6-Keeps [] sel = tt
  ip6-Keeps (a ∷ []) sel = tt
  ip6-Keeps (a ∷ b ∷ args) sel =
      let r = b ∷ args in
      let u8 = λ (o offmask : ℕ). parse_u8-Keeps stale r sel (pos o) (pos offmask) in
      let u16 = λ (o : ℕ). parse_u16-Keeps stale r sel (pos o) (pos 0) in
      if-Keeps sel (is a (codes "src")) _ _ (ip6_addr-Keeps r sel (pos 8)) (
        if-Keeps sel (is a (codes "dst")) _ _ (ip6_addr-Keeps r sel (pos 24)) (
          if-Keeps sel (is a (codes "priority")) _ _ (parse_ip6_class-Keeps stale r sel) (
            if-Keeps sel (is a (codes "protocol")) _ _ (u8 6 0) (
              if-Keeps sel (is a (codes "flowlabel")) _ _
                (parse_u32-Keeps stale r sel (pos 0) (pos 0))
                (if-Keeps sel (is a (codes "dport")) _ _ (u16 42) (
                  if-Keeps sel (is a (codes "sport")) _ _ (u16 40) (
                    if-Keeps sel (is a (codes "icmp_type")) _ _ (u8 40 0)
                      (if-Keeps sel (is a (codes "icmp_code")) _ none (u8 41 1) tt))))))))

  ether-Keeps :
      (args : Args) (sel : Sel) → Keeps sel (parse_ether inet_pton6 read_ether stale args sel)
  unfolding parse_ether
  ether-Keeps [] sel = tt
  ether-Keeps (a ∷ []) sel = tt
  ether-Keeps (a ∷ b ∷ args) sel =
      if-Keeps sel (is a (codes "src")) _ _ (ether_addr-Keeps (b ∷ args) sel (negsuc 7))
        (if-Keeps sel (is a (codes "dst")) _ none (ether_addr-Keeps (b ∷ args) sel (negsuc 13)) tt)

  -- A selector that is left of a command line is well-formed where the one before was.
  abbrev pub Selects : Sel → Option (Sel × Msg × Args) → Type 0
  Selects sel none = Unit
  Selects sel (some (sel', n, args)) = IsSelector sel → IsSelector sel'

  with_message :
      (sel : Sel) (n : Msg) (o : Outcome)
      → Keeps sel o
      → Selects sel (same_message inet_pton6 read_ether stale n o)
  with_message sel n none h = tt
  with_message sel n (some (sel', args)) h = h

  with_selector :
      (sel : Sel) (o : Option (Msg × Args))
      → Selects sel (same_selector inet_pton6 read_ether stale sel o)
  with_selector sel none = tt
  with_selector sel (some (n, args)) = λ ik. ik

  if-Selects :
      (sel : Sel) (b : Bool) (x y : Option (Sel × Msg × Args))
      → Selects sel x
      → Selects sel y
      → Selects sel (if b then x else y)
  if-Selects sel true x y hx hy = hx
  if-Selects sel false x y hx hy = hy

  parse_selector-Selects :
      (success : ℕ) (args : Args) (sel : Sel) (n : Msg)
      → Selects sel (parse_selector inet_pton6 read_ether stale success args sel n)
  unfolding parse_selector
  parse_selector-Selects success [] sel n = tt
  parse_selector-Selects success (a ∷ []) sel n = tt
  parse_selector-Selects success (a ∷ b ∷ args) sel n =
      let r = b ∷ args in
      let keeps = λ (o : Outcome) (h : Keeps sel o). with_message sel n o h in
      if-Selects sel (fits a (codes "u32")) _ _
        (keeps _ (parse_u32-Keeps stale r sel (pos 0) (pos 0)))
        (if-Selects sel (fits a (codes "u16")) _ _
          (keeps _ (parse_u16-Keeps stale r sel (pos 0) (pos 0)))
          (if-Selects sel (fits a (codes "u8")) _ _
            (keeps _ (parse_u8-Keeps stale r sel (pos 0) (pos 0)))
            (if-Selects sel (fits a (codes "ip")) _ _ (keeps _ (ip-Keeps r sel)) (
              if-Selects sel (fits a (codes "ip6")) _ _ (keeps _ (ip6-Keeps r sel)) (
                if-Selects sel (fits a (codes "udp") || fits a (codes "tcp")) _ _
                  (keeps _ (parse_udp-Keeps stale r sel))
                  (if-Selects sel (fits a (codes "icmp")) _ _
                    (keeps _ (parse_icmp-Keeps stale r sel))
                    (if-Selects sel (fits a (codes "mark")) _ _
                      (with_selector sel (parse_mark stale success r n))
                      (if-Selects sel (fits a (codes "ether")) _ none (keeps _ (ether-Keeps r sel))
                        tt))))))))

  -- The selector that is left of a command line, if any, is well-formed.
  abbrev pub AllSelectors : Option (Sel × Msg × Args) → Type 0
  AllSelectors none = Unit
  AllSelectors (some (sel, n, args)) = IsSelector sel

  selected :
      (sel : Sel) (o : Option (Sel × Msg × Args)) → IsSelector sel → Selects sel o → AllSelectors o
  selected sel none ik h = tt
  selected sel (some (sel', n, args)) ik h = h ik

  -- Whatever match parse_selector reads into a well-formed selector, the selector that it leaves, if it
  -- accepts, is well-formed: the masks have 32 bits, the values lie inside their masks, and there are
  -- no more than 128 keys.
  pub parse_selector-AllSelectors :
      (success : ℕ) (args : Args) (sel : Sel) (n : Msg)
      → IsSelector sel
      → AllSelectors (parse_selector inet_pton6 read_ether stale success args sel n)
  parse_selector-AllSelectors success args sel n ik =
      selected sel (parse_selector inet_pton6 read_ether stale success args sel n) ik
        (parse_selector-Selects success args sel n)
