-- ===== src/Lib.antt =====
-- libiproute: the address, number, name and netlink code that the commands of iproute2 share, the u32
-- selectors of tc and the filters of ss.
--
-- The commands (ip, tc, bridge, …) read their arguments with the functions of lib/utils.c and its
-- neighbours, build a request of netlink attributes with the builders of lib/libnetlink.c, and
-- parse the kernel's answers with the parsers of the same file. The modules follow these parts.
--
-- Prelude: lists, options, Boolean tests, bits and integers that the modules share.
-- CLib: `strtoul`, `strtol` and `%u`/`%x` of the C library, on texts without the NUL.
-- Numbers: lib/utils.c, `get_unsigned`, `get_u64` to `get_u8`, `get_integer`, `get_s32` to `get_s8`,
--   `get_be64` to `get_be16`. A parameter says whether `errno` is ERANGE on entry.
-- Mask, Parts: lib/utils.c, `mask2bits`; `get_addr_ipv4`, `get_addr64`, `addr64_n2a`, `get_guid`.
-- Mpls, Dnet, Ipx: lib/mpls_pton.c, lib/mpls_ntop.c; lib/dnet_pton.c, lib/dnet_ntop.c;
--   lib/ipx_pton.c, lib/ipx_ntop.c.
-- Address: lib/utils.c and include/utils.h, `inet_prefix`, `set_address_type`, `af_bit_len`,
--   `get_addr_rta`. Address.Text has `__get_addr_1`, `get_addr_1`, `get_netmask`, `get_prefix_1`,
--   `get_addr`, `get_prefix`, `read_family`, `family_name` and `ll_addr_a2n` of lib/ll_addr.c;
--   `inet_pton(AF_INET6, …)` is a parameter. Address.Text.Printer has `rt_addr_n2a_r` and `ll_addr_n2a` of lib/ll_addr.c, with
--   `inet_ntop` as a parameter, Address.Hosts the table of host names behind `format_host_r`, with
--   `gethostbyaddr` as a parameter, and Address.Match `inet_addr_match` and `inet_addr_match_rta`.
-- Netlink: lib/libnetlink.c, with the macros of include/libnetlink.h and
--   include/uapi/linux/{netlink,rtnetlink}.h. Netlink.Memory has the bytes of a message by offset,
--   Netlink.Build `addattr_l` and the builders on top of it, Netlink.Parse `parse_rtattr` and its kin.
--   Netlink.Recv has `rtnl_recvmsg`, Netlink.Dump `rtnl_dump_filter_l` and Netlink.Talk
--   `__rtnl_talk_iov`, Netlink.Listen `rtnl_listen` and `rtnl_from_file`, Netlink.Send
--   `rtnl_send_check`: what the successive calls of `recvmsg` yield is a list, and where it ends, the
--   code waits. Whether `malloc` has memory and `sendmsg` succeeds are parameters.
-- Hex, Strings: lib/utils.c, `get_hex`, `hexstring_n2a`, `hexstring_a2n`, `hex2mem`; `matches`,
--   `check_ifname`, `get_ifname`, `strlcpy`, `strlcat`, `get_real_family` and `makeargs`.
-- TcHandle: tc/tc_util.c, `get_qdisc_handle`, `get_tc_classid` and `print_tc_classid`.
-- LlMap: lib/ll_map.c, the map of interfaces: `ll_remember_index` on the bytes of a link message
--   (LlMap.Event), the lookups, and `ll_init_map` over the dump loop of Netlink.Dump. An entry has an
--   address in a heap, `malloc` gives the next one, and the chains of the two hash tables hold
--   addresses. `if_indextoname` and `if_nametoindex` are parameters, and so is whether there is memory.
-- JsonWriter: lib/json_writer.c, all of it. The file is the text written so far, a failed `assert` is
--   `none`, and what `vfprintf` makes of a fraction is a parameter.
-- TcSize: tc/tc_core.c, `tc_align_to_atm`, `tc_adjust_size` and `tc_calc_size_table`.
--
-- RtNames: lib/rt_names.c. RtNames.Families has the tables of protocols, scopes, realms, DS fields and
--   netlink families, RtNames.Hash the hashes of routing tables and groups, RtNames.LlProto
--   lib/ll_proto.c, RtNames.Db the hashes of lib/names.c. `sscanf`, the lines of a file, the names in a
--   directory and CONFDIR are parameters.
-- U32: tc/f_u32.c, the selector of the u32 classifier: `pack_key` and its kin, U32.Handle the handles,
--   U32.Parse and U32.Match what `parse_selector`, `parse_offset` and `parse_hashkey` read with Numbers,
--   Address.Text and Netlink.Build. `inet_pton(AF_INET6, …)` and the `sscanf` of an Ethernet address are
--   parameters; NEXT_ARG at the end of the arguments, which exits, is `none`.
-- SsFilter: misc/ss.c, the filters of sockets: `run_ssfilter`, which the program runs itself, and
--   SsFilter.Compile with `ssfilter_bytecompile` for the kernel. `fnmatch`, texts at an address and the
--   range of local ports are parameters, and SsFilter.Machine is the interface of the kernel's machine.
--
-- Pointers are offsets, NULL is `none`, and a result of -1 is `none` or `false`. Buffers are lists of
-- bytes. The host is little-endian with 64-bit `long`. Loops are structural recursion on the text or
-- the rounds left; the attribute walk has as many rounds as bytes, which is enough as every attribute
-- takes four bytes or more; the loops over a datagram have as many rounds as it has bytes, and a
-- message has 16 or more; those over datagrams have one round more than there are calls of `recvmsg`, and
-- the one over a file one more than it has bytes, as each round takes one at least;
-- a jump is relocated in as many rounds as the code has bytes, and every instruction has four; a file
-- of names takes one round more than it has lines, as each round reads one at least;
-- `makeargs` has one round more than the line has characters; the shift of a size table grows at most
-- 16 times, as sizes have 32 bits and entries 16. Limits (`maxlen`) are
-- taken as not negative, and the size of an aligned product (`tc_align_to_atm`) wraps at 32 bits.
--
-- Not modelled: opening sockets and the requests for dumps in lib/libnetlink.c, files and processes
-- (lib/fs.c, lib/exec.c, lib/namespace.c, lib/bpf.c), lib/ll_types.c and lib/inet_proto.c, the
-- messages and printers of tc/f_u32.c, the grammar of misc/ssfilter.y, and the rest of the commands,
-- which are option parsing and printing around this library. Floating point (rates, times,
-- `tc_calc_rtable`) and the C library beyond the functions above are left out, too.
pub mod Address
pub mod CLib
pub mod Dnet
pub mod Hex
pub mod Ipx
pub mod JsonWriter
pub mod LlMap
pub mod Mask
pub mod Mpls
pub mod Netlink
pub mod Numbers
pub mod Parts
pub mod Prelude
pub mod RtNames
pub mod SsFilter
pub mod Strings
pub mod TcHandle
pub mod TcSize
pub mod U32
