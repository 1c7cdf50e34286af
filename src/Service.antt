-- ===== src/Service.antt =====
-- crates/rnmap-core/src/service.rs: the guess of the service by its banner. The search of the crate
-- `regex` is a parameter.
pub mod Pattern
pub mod Dialogue
pub mod Product
pub mod Later
pub mod Mail
pub mod Mysql
pub mod Vnc
pub mod Shown
pub mod Ssh
pub mod Header
pub mod Http
pub mod EmptyHeader
pub mod Documented
pub mod Tests
pub mod Unit
use rnmap.Base.{
  ℕ, zero, suc, ◌+◌, Bool, true, false, ◌&&◌, ◌||◌, List, [], ◌∷◌, ◌++◌, Option, none, some, ◌==◌,
  if◌then◌else◌, is_empty, take, contains, Bytes, Result, ok, err,
}
use rnmap.Text.{Text, codes, starts_with, contains_text}
use rnmap.Text.Space.{is_whitespace, trim, trim_end_matches, first_word}
use rnmap.Text.Split.{split, split_once, before}
use rnmap.Errors.{IoError}
use rnmap.Report.{ServiceInfo}
use rnmap.Service.Pattern.{
  Captures, Regex, ssh, http_server, ftp, smtp, mysql, redis, postgres, vnc, imap, pop3,
}

-- `first_word.unwrap_or("")`.
pub word_or_empty : Text → Text
unfolding first_word
word_or_empty s = elim (first_word s) [ none ↦ [] | some w ↦ w ]

-- `s.find(char::is_whitespace)` and `s.split_at(idx)`.
pub split_at_space : Text → Option (Text × Text)
unfolding is_whitespace
split_at_space [] = none
split_at_space (c ∷ s) =
    let rest = split_at_space s in
    let here = some ([], c ∷ s) in
    let later = before c rest in if is_whitespace c then here else later

-- The product and version of a text that has been trimmed, by its splits at `_`, `/` and white space.
pub by_splits :
    Text
    → Option (Text × Text)
    → Option (Text × Text)
    → Option (Text × Text)
    → Option Text × Option Text
unfolding word_or_empty trim
by_splits s (some (p, v)) slash space = (some p, some (word_or_empty v))
by_splits s none (some (p, v)) space = (some p, some (word_or_empty v))
by_splits s none none (some (p, rest)) = (some p, some (word_or_empty (trim rest)))
by_splits s none none none = (some s, none)

unfoldable pub split_product_version : Text → Option Text × Option Text
unfolding by_splits split_at_space split_once trim
split_product_version raw =
    let s = trim raw in
    if is_empty s
    then (none, none)
    else by_splits s (split_once b'_' s) (split_once b'/' s) (split_at_space s)

pub record Guess : Type 0 where
  pub name : Text
  pub product : Option Text
  pub version : Option Text

pub guess : Text → Option Text × Option Text → Guess
guess name (product, version) = record { name = name; product = product; version = version }

-- The product and version of a detail that may be missing.
pub detail_version : Option Text → Option Text × Option Text
unfolding split_product_version
detail_version none = (none, none)
detail_version (some s) = split_product_version s

abbrev pub is_some {ℓ} : {A : Type ℓ} → Option A → Bool
is_some none = false
is_some (some a) = true

-- `starts_with("HTTP/") || contains("\r\nServer:") || contains("\nServer:")`.
unfoldable pub looks_http : Text → Bool
looks_http banner =
    starts_with banner (codes "HTTP/")
    || contains_text banner (13 ∷ 10 ∷ codes "Server:")
    || contains_text banner (10 ∷ codes "Server:")

-- The text before the first dash of the version that MySQL greets with.
pub before_dash : Text → Text
unfolding split
before_dash s = first (split b'-' s)
  where
    first : List Text → Text
    first [] = []
    first (p ∷ ps) = p

pub by_port : ℕ → Text
by_port port =
    if port == 443
    then codes "https"
    else if port == 53
    then codes "dns"
    else if port == 3389
    then codes "rdp"
    else if port == 27017
    then codes "mongodb"
    else codes "unknown"

-- `c.get(1).map(|m| f(m.as_str()))` for a pattern with one group.
abbrev pub map_group : (Text → Text) → Option (Text × Unit {0}) → Option Text
map_group f none = none
map_group f (some (s, end)) = some (f s)

module _ (regex : Regex) where
  -- IMAP, POP3 and the guess by port.
  pub guess_rest : ℕ → Text → Guess
  unfolding guess by_port
  guess_rest port banner =
      if is_some (regex imap banner) || port == 143 || port == 993
      then guess (codes "imap") (none, none)
      else if is_some (regex pop3 banner) || port == 110 || port == 995
      then guess (codes "pop3") (none, none)
      else guess (by_port port) (none, none)

  -- `format!("{}.{}", major, minor)`.
  pub guess_vnc : ℕ → Text → Option (Captures vnc) → Guess
  unfolding guess_rest
  guess_vnc port banner (some (major, (minor, end))) =
      guess (codes "vnc") (some (codes "RFB"), some (major ++ (codes "." ++ minor)))
  guess_vnc port banner none = guess_rest port banner

  -- The data bases, each by its banner or its port.
  pub guess_store : ℕ → Text → Guess
  unfolding guess_vnc before_dash
  guess_store port banner =
      if is_some (regex mysql banner) || port == 3306
      then guess (codes "mysql") (some (codes "MySQL"), map_group before_dash (regex mysql banner))
      else if is_some (regex redis banner) || port == 6379
      then guess (codes "redis") (some (codes "Redis"), map_group (λ s. s) (regex redis banner))
      else if is_some (regex postgres banner) || port == 5432
      then guess (codes "postgresql") (some (codes "PostgreSQL"), none)
      else guess_vnc port banner (regex vnc banner)

  -- FTP, and then SMTP by its banner and its port.
  pub guess_mail : ℕ → Text → Option (Captures ftp) → Guess
  unfolding guess_store detail_version
  guess_mail port banner (some (detail, end)) =
      guess (codes "ftp") (detail_version (some (trim detail)))
  guess_mail port banner none =
      if is_some (regex smtp banner) && (port == 25 || port == 587 || port == 465)
      then guess (codes "smtp") (detail_version (map_group trim (regex smtp banner)))
      else guess_store port banner

  -- SSH, HTTP, and the rest.
  pub guess_ssh : ℕ → Text → Option (Captures ssh) → Guess
  unfolding guess_mail looks_http
  guess_ssh port banner (some (protocol, (software, end))) =
      guess (codes "ssh") (split_product_version software)
  guess_ssh port banner none =
      if looks_http banner
      then guess (codes "http") (detail_version (map_group trim (regex http_server banner)))
      else guess_mail port banner (regex ftp banner)

  unfoldable pub guess_from_banner : ℕ → Text → Guess
  unfolding guess_ssh
  guess_from_banner port banner = guess_ssh port banner (regex ssh banner)
