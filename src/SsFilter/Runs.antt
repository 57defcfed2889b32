-- ===== src/SsFilter/Runs.antt =====
-- Concrete runs, and the theorems at concrete inputs: a socket from 10.0.0.1:22 to 10.1.2.3:40000.
use libiproute.Prelude.{
  ℕ, ◌+◌, ◌*◌, ◌^◌, ◌<◌, ◌≡◌, refl, arith, Bool, true, false, none, some, [], ◌∷◌, ◌==◌, leb,
  if◌then◌else◌, Bytes, get_or, drop,
}
use libiproute.Prelude.Int.{ℤ, pos, negsuc, eq_int}
use libiproute.Address.{InetPrefix, word}
use libiproute.Address.Match.{inet_addr_match}
use libiproute.SsFilter.{
  SockStat, AaFilter, System, Filter, d_cond, d_ge, s_le, conj, disj, neg, run_ssfilter,
  run_filters,
}
use libiproute.SsFilter.Compile.{
  ssfilter_bytecompile, run_compile, bc_d_cond, bc_d_ge, bc_s_le, hosts_len,
}
use libiproute.SsFilter.Code.{code_size}
use libiproute.SsFilter.Machine.{Machine, machine_of}
use libiproute.SsFilter.Laws.{first_addresses, Agrees, ssfilter_bytecompile-run_ssfilter}

abbrev inet : ℕ → ℕ → ℕ → ℕ → ℕ → InetPrefix
inet bits a b c d = record {
  flags = 1;
  bytelen = 4;
  bitlen = pos bits;
  family = 2;
  data_bytes = a ∷ b ∷ c ∷ d ∷ [];
}

abbrev ssh : SockStat
ssh = record {
  local = inet 32 10 0 0 1;
  remote = inet 32 10 1 2 3;
  lport = pos 22;
  rport = pos 40000;
  iface = 0;
  mark = 0;
}

abbrev cond_of : InetPrefix → ℤ → AaFilter
cond_of p port = record { addr = p; port = port; iface = 0; mark = 0; mask = 0 }

abbrev any_port : ℤ
any_port = negsuc 0

abbrev ports : ℕ → AaFilter
ports n = cond_of (inet 0 0 0 0 0) (pos n)

abbrev plain : System
plain = record { text_at = λ p. []; fnmatch = λ a b. false; port_range = none }

-- ( dst 10.0.0.0/8 or dport >= 50000 ) and sport > 21
abbrev query : Filter
query =
    conj (disj (d_cond (cond_of (inet 8 10 0 0 0) any_port) []) (d_ge (ports 50000)))
      (neg (s_le (ports 21)))

ss_query : run_ssfilter plain ssh query ≡ true
unfolding run_filters word inet_addr_match
ss_query = refl

-- dst 192.168.0.0/16 10.0.0.0/8, two addresses of one name.
abbrev two_hosts : Filter
two_hosts =
    d_cond (cond_of (inet 16 192 168 0 0) any_port) (cond_of (inet 8 10 0 0 0) any_port ∷ [])

ss_two_hosts : run_ssfilter plain ssh two_hosts ≡ true
unfolding run_filters word inet_addr_match
ss_two_hosts = refl

-- The code of the program for `sport > 21`.
ge_code :
    ssfilter_bytecompile (0, 0) (neg (s_le (ports 21)))
    ≡ some (3 ∷ 8 ∷ 12 ∷ 0 ∷ 0 ∷ 0 ∷ 21 ∷ 0 ∷ 1 ∷ 4 ∷ 8 ∷ 0 ∷ [])
unfolding run_compile
ge_code = refl

-- The conditions of the kernel on this socket.
abbrev port_in : Bytes → ℕ
port_in operands = get_or operands 2 0 + 256 * get_or operands 3 0

test_ssh : ℕ → Bytes → Bool
test_ssh code operands =
    if code == bc_d_cond
    then eq_int (inet_addr_match (10 ∷ 1 ∷ 2 ∷ 3 ∷ []) (drop 8 operands) (get_or operands 1 0))
        (pos 0)
    else if code == bc_d_ge
    then leb (port_in operands) 40000
    else if code == bc_s_le
    then leb 22 (port_in operands)
    else false

abbrev ssh_machine : Machine
ssh_machine = machine_of test_ssh

query-Agrees : Agrees ssh_machine (0, 0) plain ssh query
unfolding run_filters word inet_addr_match machine_of test_ssh run_compile
query-Agrees = ((refl, refl), refl)

query_size : code_size query + 4 < 2 ^ 16
unfolding hosts_len
query_size = omega arith

ssfilter_bytecompile-run_ssfilter_example :
    (code : Bytes) × (ssfilter_bytecompile (0, 0) query ≡ some code)
    × (ssh_machine.run code ≡ run_ssfilter plain ssh (first_addresses query))
ssfilter_bytecompile-run_ssfilter_example =
    ssfilter_bytecompile-run_ssfilter ssh_machine (0, 0) plain ssh query ((tt, tt), tt) query_size
      query-Agrees
