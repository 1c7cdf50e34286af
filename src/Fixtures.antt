-- ===== src/Fixtures.antt =====
-- Concrete environments for the tests: a network without names, a world without answers, a printer.
use rnmap.Base.{ℕ, true, false, [], ◌∷◌, none, some, ok, err, if◌then◌else◌, ◌==◌, ◌*◌, ◌+◌}
use rnmap.Text.{codes}
use rnmap.Errors.{ErrorKind, IoError}
use rnmap.Packet.{Ipv4Addr}
use rnmap.Report.{v4, Protocol, PortState, HostState, PortResult, ScanReport}
use rnmap.Connect.{Connected}
use rnmap.Discovery.{IcmpSocket}
use rnmap.Syn.{UdpProbe, RawSocket, Random, Round}
use rnmap.Service.Pattern.{Regex}
use rnmap.Target.{Network}
use rnmap.Output.Formats.{Printers}
use rnmap.Cli.{Cli}
use rnmap.Host.{World}

abbrev pub ip_1 : Ipv4Addr
ip_1 = record { a = 10; b = 0; c = 0; d = 5 }

abbrev pub ip_2 : Ipv4Addr
ip_2 = record { a = 192; b = 168; c = 1; d = 20 }

abbrev pub refused : IoError
refused = record {
  kind = ErrorKind.connection_refused;
  raw_os_error = some 111;
  message = codes "refused";
}

abbrev pub not_permitted : IoError
not_permitted = record {
  kind = ErrorKind.other_kind;
  raw_os_error = some 1;
  message = codes "not permitted";
}

abbrev pub offline : Network
offline = record {
  net_hosts = λ s. err (codes "invalid");
  net4_network = λ s. none;
  lookup_host = λ s. err (codes "offline");
  lookup_addr = λ ip. none;
}

abbrev pub no_match : Regex
no_match pattern s = none

abbrev pub silent_icmp : IcmpSocket
silent_icmp = record {
  opened = ok tt;
  read_timeout_set = ok tt;
  write_timeout_set = ok tt;
  sent = λ bytes. ok tt;
  received = err (record { kind = ErrorKind.timed_out; raw_os_error = none; message = [] });
}

abbrev pub good_udp : UdpProbe
good_udp = record { bound = ok tt; joined = ok tt; local_addr = ok (v4 ip_1) }

abbrev pub good_raw : RawSocket
good_raw = record {
  opened = ok tt;
  header_included = ok tt;
  read_timeout_set = ok tt;
  write_timeout_set = ok tt;
  sent = λ bytes. ok tt;
}

abbrev pub closed_raw : RawSocket
closed_raw = record good_raw { opened = err not_permitted }

abbrev pub drawn : Random
drawn = record { src_port = 40000; seq = 7; syn_id = 1; rst_id = 2 }

-- Every read waits, and the clock runs a second for each round.
abbrev pub quiet_rounds : ℕ → Round
quiet_rounds n = record {
  now = n * 1000;
  later = n * 1000;
  timeout_set = λ ms. ok tt;
  received = err (record { kind = ErrorKind.would_block; raw_os_error = none; message = [] });
  elapsed = n * 1000;
}

-- Port 80 is open, and the others are closed.
abbrev pub web_server : ℕ → ℕ → ℕ → Connected
web_server k port n = if port == 80 then Connected.connected else Connected.failed refused

abbrev pub small_world : World
small_world = record {
  net = offline;
  Time = ℕ;
  host_started = λ k. k;
  host_ended = λ k. k + 1;
  host_elapsed = λ k. 5;
  pid = 4242;
  panic_text = λ k. codes "panicked";
  icmp_socket = λ k. silent_icmp;
  icmp_ms = λ k. 3;
  ping = λ k port. web_server k port 0;
  ping_ms = λ k port. 2;
  connect = web_server;
  connect_ms = λ k port n. 1;
  udp = λ k port. good_udp;
  raw = λ k port. closed_raw;
  random = λ k port. drawn;
  syn_started = λ k port. 0;
  rounds = λ k port. quiet_rounds;
  fuel = λ k port. 100;
  joined = λ k port. true;
  regex = no_match;
  stream = λ k port. record { opened = true; banner = none; written = λ s. true; reply = none };
}

-- `rnmap -sS -p 80,443 10.0.0.5`.
abbrev pub sample_cli : Cli
sample_cli = record {
  targets = codes "10.0.0.5" ∷ [];
  s_t = false;
  s_s = true;
  s_v = false;
  pn = false;
  ps = none;
  pe = false;
  ports = some (codes "80,443");
  top_ports = none;
  timing = 3;
  concurrency = none;
  no_dns = true;
  verbose = 0;
  only_open = false;
  max_retries = none;
  host_timeout = none;
  o_n = none;
  o_x = none;
  o_j = none;
  o_a = some (codes "scan.v1");
}

abbrev pub plain_printers : Printers ℕ
plain_printers = record {
  format_time = λ t. codes "now";
  timestamp = λ t. codes "0";
  secs = λ decimals t. codes "1.00";
  to_string_pretty = λ r. ok (codes "json");
}

abbrev pub sample_port : ℕ → PortState → PortResult
sample_port port state = record {
  port = port;
  protocol = Protocol.tcp;
  state = state;
  reason = codes "syn-ack";
  service = none;
  rtt_ms = some 1;
}

abbrev pub sample_report : ScanReport ℕ
sample_report = record {
  scanner = codes "rnmap";
  version = codes "0.1.0";
  args = codes "rnmap" ∷ [];
  started_at = 0;
  ended_at = 1;
  elapsed = 1000;
  hosts =
      record {
        address = v4 ip_1;
        hostname = none;
        state = HostState.up;
        reason = codes "skipped";
        ports = sample_port 22 PortState.closed ∷ sample_port 80 PortState.open_port ∷ [];
        started_at = 0;
        ended_at = 1;
        elapsed = 1000;
      }
      ∷ [];
}
