-- ===== src/Lib.antt =====
-- hspp is a collection of small network programs in C. This library models yalin, a monitor for
-- netlink messages; bpf, which loads packet programs into DPDK, and those programs; yak, which
-- forwards frames between network ports and host interfaces; the DPDK examples chained_mbuf and
-- ip_reassembly; and yoda, the beginning of a router.
--
-- yalin opens a netlink socket (yalin/yalin/socket.h) and receives datagrams of netlink messages
-- (yalin/yalin/request.h), calls a callback for each message, which may drop it
-- (yalin/yalin/filter.h), and prints it (yalin/yalin/dump.h) with its attributes
-- (yalin/yalin/rtattr.h), the names of constants (yalin/yalin/types.h), of flags
-- (yalin/yalin/flags.h), and dumps of bytes (yalin/yalin/hexdump.h).
--
-- The files:
--   Yalin/Request.antt    yalin/yalin/request.h: `message_loop` is the inner loop of
--                         `netlink_listen`. Request/Encode lays messages out in datagrams,
--                         Request/Visit and Request/Whole follow the loops on them with any
--                         callback, Request/Deliver, Request/Negative, Request/Rounds and
--                         Request/Hang hold the theorems.
--   Yalin/Rtattr.antt     yalin/yalin/rtattr.h up to `rtattr_read_str`, each function by its name;
--                         Rtattr/Align, Rtattr/Next, and Rtattr/Encode for an attribute as bytes.
--   Yalin/Linkinfo.antt   `rta_to_str_IFLA_LINKINFO` in its parts: `vlan_kind` from the declaration
--                         of `vlaninfo` on, `vlan_data` from the test of the data attribute,
--                         `vlan_loop` and `vlan_attr` for the loop and its switch.
--   Yalin/RtaText.antt    `rta_to_str`: `rta_case` is its switch. RtaText/Octets and RtaText/Address
--                         hold the laws of its loops over bytes, RtaText/LinkAttr the attributes
--                         as bytes and as text, which RtaText/ReadAttr relates by the code with RtaText/Cases;
--                         RtaText/CString and Linkinfo/CString say that a text is a C string.
--   Yalin/Dump.antt       yalin/yalin/dump.h; `msg_header` and `msg_case` are the lines before the
--                         switch of `netlink_msg_dump` and its cases, `attrs` the loop of the four
--                         functions that it calls. Dump/Attributes is on the loop,
--                         Dump/AddrMessage and Dump/AddrDump on a whole address message.
--   Yalin/Flags.antt      yalin/yalin/flags.h; `flags_loop` is the loop of both joining functions.
--   Yalin/Types/*.antt    yalin/yalin/types.h: one file for each of its five switches.
--   Yalin/Filter.antt     yalin/yalin/filter.h.
--   Yalin/Socket.antt     yalin/yalin/socket.h; Socket/Held is what the process holds after a trace.
--   Yalin/Monitor.antt    yalin/main.c, which yalin/test/monitor.c repeats: `after_open` and
--                         `after_listen` are its lines after the two calls that may fail.
--                         Monitor/Leak, Monitor/Prints and Monitor/Addresses hold the theorems.
--   Yalin/Analyze.antt    yalin/test/analyze_rta_IFLA_LINKINFO.c and analyze_rta_IFLA_AF_SPEC.c.
--   Yalin/Hexdump.antt    yalin/yalin/hexdump.h; Hexdump/Rows holds the theorem on `hexdump`,
--                         by Hexdump/Line, Hexdump/ReadBack the one on `carrydump`, by Hexdump/Reader.
--   Bpf.antt              bpf/code/t1.c, t2.c and t3.c; `eentry_t2` and `eentry_t3` are the two
--                         functions `eentry`. Bpf/Swap and Bpf/Rewrite hold the theorems.
--   Bpf/Loader.antt       bpf/bpf.h and bpf/main.c: `dump_lines` is the loop of `rte_bpf_dump`,
--                         `run_program` is `main` after the program is loaded. Loader/Dump and
--                         Loader/Loaded hold the theorems.
--   Yak.antt              yak/main.c and yak/tap.c: `fwd_main`, `tap_main` and what they call. Each
--                         round takes what DPDK and the system calls return and gives the events;
--                         the endless loops are runs over any number of rounds. Yak/Ownership and
--                         Yak/TapRing hold the theorems.
--   Yak/System.antt       the two threads of yak as steps on one ring, in any order, built on the rounds
--                         of Yak.antt, with the history of the buffers; System/Rounds relates a
--                         round to its step, System/Invariant holds the theorem.
--   Yak/Setup.antt        yak/port.c, `tap_alloc` and `tap_free` of yak/tap.c, `main` of yak/main.c;
--                         `rx_queues` and `tx_queues` are the loops of `port_configure`. Setup/Configure,
--                         Setup/Tap and Setup/Held hold the theorems, Setup/Resources says what the
--                         process holds after a trace.
--   Chained.antt          chained_mbuf/dpdk.h and chained_mbuf/main.c; `send_three` and
--                         `chain_and_send` are parts of `main`. Chained/Ledger says which packets
--                         the program owns after a trace, Chained/Fill and Chained/Send follow it
--                         through the parts, Chained/Ownership holds the theorem.
--   Reassembly.antt       ip_reassembly/main.c and ip_reassembly/pcapw.h; `recv_packets` is the seven
--                         calls of `recvpkt`, `reassemble` its innermost branch. Reassembly/Held
--                         holds the theorem.
--   Yoda.antt             yoda/main.cc: its tables, and a loop with no body.
--   Prelude, Outcome, Memory, Printf, Switch are shared: names and Boolean tests, the ways in which
--   a C function ends, loads and stores, conversions of printf, and a switch over labels.
--   Calls is shared by the programs that mostly call a library: such a program is a tree of calls,
--   and an environment answers each of them by a number that may depend on all calls before. Dpdk
--   lists the calls of the programs over DPDK. A run gives a result and the trace of its calls;
--   Calls/Replay gives the state after a trace, such as what a program holds then, and Calls/Triple
--   follows that state through a program.
--
-- How C is read. Memory is the list of the bytes of one object and a pointer is an offset in it;
-- words are little endian; a load outside the object stops the run with `bad_access`, one through
-- NULL with `null_access`, exit(1) and a failed assert with an outcome each. An `int`, a `size_t`
-- and an `ssize_t` are patterns of 32 and 64 bits with the wrap of C written out. A `char` array is
-- the text before its NUL. Text printed to stdout is a result; text to stderr is left out,
-- and so is what was printed before a function stops the process.
--
-- What is not in the repository is a parameter: the values of the constants of kernel headers,
-- the layouts of the kernel's statistics and message headers, the macros NLMSG_ALIGN,
-- IFA_PAYLOAD, RTA_OK, RTA_NEXT and their kin, the callback of `netlink_listen`,
-- `if_indextoname`, whose answers are taken not to change during a run, `rte_pktmbuf_mtod`, `rte_eth_dev_socket_id`, `rte_bswap64` and
-- `rte_ipv4_frag_pkt_is_fragmented` of DPDK, and the text of `%p`. `recvmsg` is the list of what its
-- calls return; the calls of the threads of yak are records of what they return; all other calls of
-- the operating system, of DPDK and of libpcap are answered by the environment. What DPDK documents
-- of the ownership of buffers is written out where a theorem needs it: in Yak/System, Chained/Ledger
-- and Reassembly/Held.
--
-- Fuel. `vlan_loop` runs on 2 ^ 16 rounds: the payload of an attribute has less than 2 ^ 16
-- bytes, or its length has wrapped and stands for a negative number, and each round consumes at
-- least four bytes or ends. `message_loop` runs on one round more than
-- the buffer has bytes: a length is read within the buffer, and each round moves on by the padded
-- length, which is not checked but is positive unless it is 0; a length of 0 makes the C loop run
-- for ever, and the model run out of any fuel. `attr_lines` has one round more than the memory has bytes, since a step of
-- the macros moves on by at least four bytes. `hexdump_rows` and `carrydump_rows` have as many
-- rounds as there are bytes.
--
-- Not modelled: bpf/code/mbuf.h, a copy of a DPDK header, and struct bpf of bpf/bpf.h, which mirrors
-- a structure of DPDK. Text that yak, chained_mbuf and ip_reassembly print is left out.
pub mod Prelude
pub mod Outcome
pub mod Memory
pub mod Printf
pub mod Calls
pub mod Switch
pub mod Dpdk
pub mod Yalin
pub mod Bpf
pub mod Yak
pub mod Chained
pub mod Reassembly
pub mod Yoda
