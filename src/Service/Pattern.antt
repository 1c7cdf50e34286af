-- ===== src/Service/Pattern.antt =====
-- crates/rnmap-core/src/service.rs: the regular expressions of `guess_from_banner`, as the trees that
-- the crate `regex` makes of them. The crate's search is a parameter, `Regex`; Pattern/Meaning says
-- what its documentation promises.
pub mod Meaning
pub mod First
pub mod Search
pub mod Classes
pub mod Greeting
use rnmap.Base.{ℕ, suc, List, [], ◌∷◌, Option}
use rnmap.Text.{Text, codes}

-- A member of a character class.
pub data Item : Type 0 where
  char : ℕ → Item
  range : ℕ → ℕ → Item
  digit : Item
  space : Item

-- `.`, `[…]` and `[^…]`; `\d` and `\s` are classes of one item.
pub data Class : Type 0 where
  dot : Class
  one_of : List Item → Class
  none_of : List Item → Class

-- `^`, `^` under the flag `m`, characters that stand for themselves, and such under the flag `i`; a
-- character of a class, and its repetitions `+`, `*` and `{n}`.
pub data Piece : Type 0 where
  text_start : Piece
  line_start : Piece
  literal : Text → Piece
  literal_folded : Text → Piece
  one : Class → Piece
  plus : Class → Piece
  star : Class → Piece
  times : ℕ → Class → Piece

-- Groups are not nested.
pub data Node : Type 0 where
  piece : Piece → Node
  group : List Piece → Node

abbrev pub Pattern : Type 0
Pattern = List Node

-- What a match captures: a text for each group.
abbrev pub Captures : Pattern → Type 0
Captures [] = Unit
Captures (piece p ∷ nodes) = Captures nodes
Captures (group g ∷ nodes) = Text × Captures nodes

-- `Regex::captures`, for the compiled pattern; `Regex::is_match` says whether there is any.
abbrev pub Regex : Type 0
Regex = (pattern : Pattern) → Text → Option (Captures pattern)

abbrev pub digits : Class
digits = one_of (digit ∷ [])

abbrev pub line_ends : Class
line_ends = none_of (char 13 ∷ char 10 ∷ [])

-- `^SSH-(\d+\.\d+)-([^\s\r\n]+)`
abbrev pub ssh : Pattern
ssh =
    piece text_start
    ∷ piece (literal (codes "SSH-"))
    ∷ group (plus digits ∷ literal (codes ".") ∷ plus digits ∷ [])
    ∷ piece (literal (codes "-"))
    ∷ group (plus (none_of (space ∷ char 13 ∷ char 10 ∷ [])) ∷ [])
    ∷ []

-- `(?im)^Server:\s*([^\r\n]+)`
abbrev pub http_server : Pattern
http_server =
    piece line_start
    ∷ piece (literal_folded (codes "Server:"))
    ∷ piece (star (one_of (space ∷ [])))
    ∷ group (plus line_ends ∷ [])
    ∷ []

-- `^220[ \-](…+)`
abbrev pub code_220 : Class → Pattern
code_220 k =
    piece text_start
    ∷ piece (literal (codes "220"))
    ∷ piece (one (one_of (char b' ' ∷ char b'-' ∷ [])))
    ∷ group (plus k ∷ [])
    ∷ []

-- `^220[ \-](.+)`
abbrev pub ftp : Pattern
ftp = code_220 dot

-- `^220[ \-]([^\r\n]+)`
abbrev pub smtp : Pattern
smtp = code_220 line_ends

-- `^.\x00\x00\x00.([0-9][^\x00]+)`
abbrev pub mysql : Pattern
mysql =
    piece text_start
    ∷ piece (one dot)
    ∷ piece (literal (0 ∷ 0 ∷ 0 ∷ []))
    ∷ piece (one dot)
    ∷ group (one (one_of (range b'0' b'9' ∷ [])) ∷ plus (none_of (char 0 ∷ [])) ∷ [])
    ∷ []

-- `redis_version:([0-9.]+)`
abbrev pub redis : Pattern
redis =
    piece (literal (codes "redis_version:"))
    ∷ group (plus (one_of (range b'0' b'9' ∷ char b'.' ∷ [])) ∷ [])
    ∷ []

-- `^FATAL`
abbrev pub postgres : Pattern
postgres = piece text_start ∷ piece (literal (codes "FATAL")) ∷ []

-- `^RFB (\d{3})\.(\d{3})`
abbrev pub vnc : Pattern
vnc =
    piece text_start
    ∷ piece (literal (codes "RFB "))
    ∷ group (times 3 digits ∷ [])
    ∷ piece (literal (codes "."))
    ∷ group (times 3 digits ∷ [])
    ∷ []

-- `^\* OK[^\r\n]*`
abbrev pub imap : Pattern
imap = piece text_start ∷ piece (literal (codes "* OK")) ∷ piece (star line_ends) ∷ []

-- `^\+OK[^\r\n]*`
abbrev pub pop3 : Pattern
pop3 = piece text_start ∷ piece (literal (codes "+OK")) ∷ piece (star line_ends) ∷ []
