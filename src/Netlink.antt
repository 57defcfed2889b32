-- ===== src/Netlink.antt =====
-- Netlink: the builders, parsers and receive loops of lib/libnetlink.c, with the macros of
-- include/libnetlink.h and include/uapi/linux/{netlink,rtnetlink}.h. The children have the parts.
pub mod Memory
pub mod Build
pub mod Parse
pub mod Recv
pub mod Dump
pub mod Talk
pub mod Listen
pub mod Send
