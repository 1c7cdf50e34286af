-- ===== src/Cli.antt =====
-- crates/rnmap/src/main.rs: the options of the command line, and what `main` makes of them before it
-- scans. The parse of the arguments is the crate `clap`'s.
use rnmap.Base.{
  ℕ, ◌*◌, Bool, false, not, List, Option, none, some, ◌==◌, ◌&&◌, if◌then◌else◌, is_empty, Result,
  ok, err, map_err,
}
use rnmap.Ip.Show.{show_ip}
use rnmap.Text.{Text, codes, text_eq}
use rnmap.Errors.{Error}
use rnmap.Ports
use rnmap.Ports.{PortSpec}
use rnmap.TopPorts.{top_n}
use rnmap.Timing
use rnmap.Timing.{Timing}
use rnmap.Report.{IpAddr, v4, v6}
use rnmap.Target.{Network, TargetSpec, parse_many}

pub record Cli : Type 0 where
  pub targets : List Text
  pub s_t : Bool
  pub s_s : Bool
  pub s_v : Bool
  pub pn : Bool
  pub ps : Option Text
  pub pe : Bool
  pub ports : Option Text
  pub top_ports : Option ℕ
  pub timing : ℕ
  pub concurrency : Option ℕ
  pub no_dns : Bool
  pub verbose : ℕ
  pub only_open : Bool
  pub max_retries : Option ℕ
  pub host_timeout : Option ℕ
  pub o_n : Option Text
  pub o_x : Option Text
  pub o_j : Option Text
  pub o_a : Option Text

-- The errors that end the program: no target, or an error of the library in a context.
pub data Failure : Type 0 where
  no_targets : Failure
  context : Text → Error → Failure

abbrev pub in_context {ℓ} : {A : Type ℓ} → Text → Result A Error → Result A Failure
in_context what r = map_err (context what) r

-- The ports to scan: those of `-p`, or the top ports.
unfoldable pub choose_ports : Option Text → Option ℕ → Result PortSpec Failure
choose_ports (some p) n = in_context (codes "parsing -p ports") (Ports.parse p)
choose_ports none (some n) = ok (record { ports = top_n n })
choose_ports none none = ok (record { ports = top_n 100 })

abbrev pub override {ℓ} : {A : Type ℓ} → A → Option A → A
override x none = x
override x (some y) = y

abbrev pub in_ms : Option ℕ → Option ℕ
in_ms none = none
in_ms (some secs) = some (secs * 1000)

-- The template, and the options that replace parts of it.
unfoldable pub build_timing : Cli → Timing
build_timing cli =
    let timing = Timing.new cli.timing in
    record timing {
      max_parallel = override timing.max_parallel cli.concurrency;
      max_retries = override timing.max_retries cli.max_retries;
      host_timeout = override timing.host_timeout (in_ms cli.host_timeout);
    }

abbrev pub is_localhost : IpAddr → Bool
is_localhost (v4 ip) = ip.a == 127 && ip.b == 0 && ip.c == 0 && ip.d == 1
is_localhost (v6 segments) = false

-- `hostname_for`: the label, if it is no print of the address, or else a reverse lookup.
unfoldable pub hostname_for : Network → Text → IpAddr → Option Text
hostname_for net label ip =
    if not (text_eq label (show_ip ip))
    then some label
    else if is_localhost ip
    then some (codes "localhost")
    else net.lookup_addr ip

-- The targets.
unfoldable pub resolve_targets : Network → Cli → Result TargetSpec Failure
resolve_targets net cli =
    if is_empty cli.targets
    then err no_targets
    else in_context (codes "parsing targets") (parse_many net cli.targets (not cli.no_dns))
