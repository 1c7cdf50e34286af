-- ===== src/Lib.antt =====
-- rnmap, a port scanner in Rust: the crate `rnmap-core` (crates/rnmap-core/src) and the program
-- `rnmap` (crates/rnmap/src/main.rs).
--
-- The program rewrites its arguments in the style of nmap, expands the targets and the ports, and then,
-- for one host after the other, finds out whether the host is up, scans its ports, detects services on
-- the open ones and adds an entry to the report, which is rendered as text, XML or JSON.
--
-- Files, by the code that they model:
--   Errors                  error.rs
--   Ports                   ports.rs: `PortSpec::parse` and its parts, chunk by chunk
--   TopPorts                top_ports.rs: `TOP` and `top_n`
--   Timing                  timing.rs: `Timing::new`
--   Report                  result.rs: the records of a scan, and the counts of `ScanReport`; in
--                           Report/Behaviour what a port may do, and how it is to be reported
--   Checksum                discovery.rs: `checksum16`
--   Packet                  discovery.rs: `build_icmp_echo`, `strip_ipv4`; scan/syn.rs: `build_ipv4`,
--                           `build_tcp`, `tcp_checksum`, `build_syn_packet`, `send_rst`,
--                           `parse_tcp_in_ipv4`
--   Connect                 scan/connect.rs: `scan`
--   Discovery               discovery.rs: `tcp_ping`, `icmp_ping`, `icmp_v4_ping_blocking`
--   Syn                     scan/syn.rs: `scan_blocking`, `pick_source_ipv4_for`
--   Ip                      how `std::net::Ipv4Addr` and, in Ip/Show and Ip/Parse6, `Ipv6Addr` are read
--                           and written
--   Target                  target.rs: `TargetSpec::parse_many`, `expand_one`, `parse_v4_range`
--   Output                  output/mod.rs, with Output/Normal, Output/Xml and Output/Json for
--                           output/normal.rs, output/xml.rs and output/json.rs; Output/Xml/Reader
--                           and Output/Xml/Document say what an XML document means
--   Service                 service.rs: `guess_from_banner`, `split_product_version`; in Service/Pattern
--                           the regular expressions, and in Service/Dialogue `detect`;
--                           Service/Pattern/Meaning says what a regular expression finds
--   Args, Cli               crates/rnmap/src/main.rs: `rewrite_nmap_args`; the options and what is made
--                           of them
--   Host, Scheduler, Run    crates/rnmap/src/main.rs: one host; the tasks of its ports; all hosts and
--                           the report
--   Main                    crates/rnmap/src/main.rs: `main` from the command line to its end, and in
--                           Main/Messages what it prints on the standard error
--   Files                   crates/rnmap/src/main.rs: the files of -oA, -oN, -oX and -oJ
--   Base, Text, Fixtures    what the others share: tests on numbers, lists, bytes and results; texts and
--                           the operations of `str` on them; environments for the tests
-- The modules below these, such as Ports/Failures, prove what they are named for; the modules Tests
-- hold runs and the theorems at concrete inputs, and the modules Unit the unit tests of the source.
--
-- How the code is modelled. A text is the list of its code points. An integer of the source is a natural
-- number, with its wrap-around written out. A function that fails returns a `Result`, with the error
-- that the code returns. An index or a slice out of range is the error `out_of_range`, for the panic. A
-- function that talks to the world takes what the world answers as an argument: the sockets (`Connected`
-- for a connection, `UdpProbe`, `RawSocket`, `IcmpSocket`, `Stream`), the clock, the random numbers, the
-- name server and the crates `ipnet`, `dns_lookup` (`Network`), `regex` (`Regex`), `chrono` and
-- `serde_json` (`Printers`). `World` is all of these, for the host and the port of each number; so two
-- ports do not share what they receive. What a function does to the world is a part of its value: the
-- packets that `scan_blocking` sends, the attempts and waits of `scan`, and what `main` prints and writes.
--
-- Bounds and fuel. Ports and the words of packets are 16-bit numbers, sums in `checksum16` are taken
-- modulo 2 ^ 32. The carry loop of `checksum16` has fuel for three rounds, one more than any 32-bit sum
-- needs. The read loop of `scan_blocking` has its fuel as an argument: enough is one more than the
-- number of a round in which the clock has passed the deadline, which has to come since each round waits
-- for at most the rest of the time or 50 milliseconds. All other loops are structural.
--
-- Concurrency. `Host.scan_ports` has the results of a host's tasks in the order of the ports. Scheduler
-- has the tasks themselves: the semaphore's permits, the handles, the lines that the tasks print, and the
-- events in any order in which they may happen. A task's result and its lines depend on its host and its
-- port alone. Main has the lines of a host's tasks in the order of the ports, which is one of the orders
-- that Scheduler has.
--
-- Not modelled: how `clap` reads the rewritten arguments, which is a parameter of `main`; what the
-- runtime prints for an error that `main` returns; the search of the crate `regex`, which is a parameter,
-- and where a theorem needs it is supposed to be as documented (`IsDocumented`); the JSON serialiser,
-- which is a parameter; the tests in crates/rnmap-core/tests.
pub mod Base
pub mod Text
pub mod Ports
pub mod Timing
pub mod TopPorts
pub mod Checksum
pub mod Packet
pub mod Report
pub mod Connect
pub mod Discovery
pub mod Syn
pub mod Ip
pub mod Target
pub mod Output
pub mod Service
pub mod Args
pub mod Cli
pub mod Host
pub mod Main
pub mod Run
pub mod Files
pub mod Scheduler
pub mod Fixtures
pub mod Errors
