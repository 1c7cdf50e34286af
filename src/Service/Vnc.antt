-- ===== src/Service/Vnc.antt =====
-- VNC servers: what is reported of a server by the version of its protocol (RFC 6143, section 7.1.1).
use rnmap.Base.{
  ℕ, ◌≡◌, ◌≤◌, ◌<◌, ◌⊎◌, sym, refl, ap, ◌∙◌, Bool, true, false, ◌||◌, [], ◌∷◌, ◌++◌, append_assoc,
  none, some, ok, arith, ◌==◌, take, take-all, drop, length, length-append, All, All-append,
}
use mathlib.Core.Path.{subst}
use rnmap.Text.{Text, codes, contains_text-append}
use rnmap.Text.Number.{IsNumeric}
use rnmap.Text.Space.{Leaves, append-Leaves, trim_end_matches}
use rnmap.Text.Utf8.{IsScalar, encode, encode_char}
use rnmap.Report.{ServiceInfo}
use rnmap.Service.Pattern.{
  Regex, literal, times, digits, ssh, ftp, smtp, mysql, redis, postgres, vnc,
}
use rnmap.Service.Pattern.Meaning.{
  Tables, IsUnicode, IsDocumented, each, first, find, matches, step, take_one, take_text, fits,
}
use rnmap.Service.Pattern.First.{
  first-literal, first-times, first-piece, first-group, first-last, first-end,
}
use rnmap.Service.Pattern.Search.{find-text_start, find-literal-none, search-literal-none}
use rnmap.Service.Pattern.Classes.{numeric-AllFit}
use rnmap.Service.Dialogue.{Stream, detect, collect}
use rnmap.Service.Shown.{reported, detect-shown}
use rnmap.Service.{
  guess, guess_from_banner, guess_ssh, guess_mail, guess_store, guess_vnc, looks_http,
}

-- Three digits.
abbrev pub IsTriple : Text → Type 0
IsTriple s = IsNumeric s × (length s ≡ 3)

-- `RFB`, the version, and a line feed.
abbrev pub protocol : Text → Text → Text
protocol major minor = codes "RFB " ++ (major ++ b'.' ∷ (minor ++ 10 ∷ []))

-- The ports of the data bases, which are taken by their numbers before.
abbrev pub is_store_port : ℕ → Bool
is_store_port port = port == 3306 || port == 6379 || port == 5432

numeric-Lacks :
    (d : ℕ) (s : Text) → (58 ≤ d) ⊎ (d < 48) → IsNumeric s → All (λ c. (c == d) ≡ false) s
numeric-Lacks d [] apart h = tt
numeric-Lacks d (c ∷ s) apart h = (ground arith, numeric-Lacks d s apart h.1)

module _ (major minor : Text) (h_major : IsTriple major) (h_minor : IsTriple minor) where
  text : Text
  text = protocol major minor

  version : Text
  version = codes "RFB " ++ (major ++ b'.' ∷ minor)

  version-append : version ++ 10 ∷ [] ≡ text
  unfolding version text
  version-append = ap (λ s. codes "RFB " ++ s) (append_assoc major (b'.' ∷ minor) (10 ∷ []))

  module _ (d : ℕ) (apart : (58 ≤ d) ⊎ (d < 46))
      (other : All (λ c. (c == d) ≡ false) (codes "RFB ")) where
    version-Lacks : All (λ c. (c == d) ≡ false) version
    unfolding version
    version-Lacks = All-append _ (codes "RFB ") _ other (
        All-append _ major _ (numeric-Lacks d major (ground arith) h_major.0)
          (ground arith, numeric-Lacks d minor (ground arith) h_minor.0))

  looks_http-protocol : looks_http text ≡ false
  unfolding looks_http
  looks_http-protocol =
      rw
        (
          sym version-append,
          contains_text-append version (10 ∷ []) 13 (10 ∷ codes "Server:")
              (version-Lacks 13 (ground arith) (ground arith)),
          contains_text-append version (10 ∷ []) 10 (codes "Server:")
              (version-Lacks 10 (ground arith) (ground arith)),
        )
        (unfold version in refl)

  module _ (tables : Tables) (unicode : IsUnicode tables) where
    find-redis-none : find tables redis text ≡ none
    unfolding find
    find-redis-none =
        search-literal-none tables b'r' (codes "edis_version:") (drop 1 redis) none text (
          subst (All (λ c. (c == b'r') ≡ false)) version-append (
            All-append _ version (10 ∷ []) (version-Lacks b'r' (ground arith) (ground arith))
              (refl, tt)))

    find-mysql-none : find tables mysql text ≡ none
    unfolding text matches step take_one take_text fits each first
    find-mysql-none = find-text_start tables (drop 1 mysql) text

    matches-protocol : first (matches tables (drop 1 vnc) (none, text)) ≡ some (major, (minor, tt))
    unfolding text
    matches-protocol =
        first-piece tables (literal (codes "RFB ")) _ (drop 2 vnc)
          (first-literal tables none (codes "RFB ") _)
          (first-group tables (times 3 digits ∷ []) _ (drop 3 vnc)
            (first-last tables (times 3 digits) _ (
              first-times tables 3 digits _ major _ h_major.1
                (numeric-AllFit tables unicode major h_major.0)))
            (first-piece tables (literal (codes ".")) _ (drop 4 vnc)
              (first-literal tables _ (codes ".") _)
              (first-group tables (times 3 digits ∷ []) _ []
                (first-last tables (times 3 digits) _ (
                  first-times tables 3 digits _ minor (10 ∷ []) h_minor.1
                    (numeric-AllFit tables unicode minor h_minor.0)))
                (first-end tables _))))

  guess-protocol :
      (regex : Regex) (port : ℕ)
      → IsDocumented regex
      → is_store_port port ≡ false
      → guess_from_banner regex port text
        ≡ guess (codes "vnc") (some (codes "RFB"), some (major ++ b'.' ∷ minor))
  unfolding guess_from_banner guess_ssh guess_mail guess_store guess_vnc
  guess-protocol regex port documented away =
      let t = documented.tables in
      let no_mysql : (port == 3306) ≡ false = ground arith in
      let no_redis : (port == 6379) ≡ false = ground arith in
      let no_postgres : (port == 5432) ≡ false = ground arith in
      rw
        (
          documented.finds ssh text,
          find-literal-none t (codes "SSH-") (drop 2 ssh) text (unfold text in refl),
          looks_http-protocol,
          documented.finds ftp text,
          find-literal-none t (codes "220") (drop 2 ftp) text (unfold text in refl),
          documented.finds smtp text,
          find-literal-none t (codes "220") (drop 2 smtp) text (unfold text in refl),
          documented.finds mysql text,
          find-mysql-none t documented.unicode,
          no_mysql,
          documented.finds redis text,
          find-redis-none t documented.unicode,
          no_redis,
          documented.finds postgres text,
          find-literal-none t (codes "FATAL") [] text (unfold text in refl),
          no_postgres,
          documented.finds vnc text,
          find-text_start t (drop 1 vnc) text,
          matches-protocol t documented.unicode,
        )
        refl

  line_feed-Leaves : Leaves (λ c. c == 0) (10 ∷ []) (10 ∷ [])
  unfolding trim_end_matches
  line_feed-Leaves = (refl, refl)

  text-Leaves : Leaves (λ c. c == 0) text text
  unfolding text
  text-Leaves =
      append-Leaves _ (codes "RFB ") _ _
        (append-Leaves _ major _ _ (append-Leaves _ (b'.' ∷ minor) _ _ line_feed-Leaves))

  numeric-IsScalar : (s : Text) → IsNumeric s → All IsScalar s
  numeric-IsScalar [] h = tt
  numeric-IsScalar (c ∷ s) h = (ground arith, numeric-IsScalar s h.1)

  text-IsScalar : All IsScalar text
  unfolding text
  text-IsScalar = All-append _ (codes "RFB ") _ (ground arith) (
      All-append _ major _ (numeric-IsScalar major h_major.0)
        (ground arith, All-append _ minor _ (numeric-IsScalar minor h_minor.0) (ground arith)))

  -- The text is short enough to be reported whole.
  take-text : take 256 text ≡ text
  unfolding text
  take-text = take-all 256 _ (
      omega (
        arith,
        h_major.1,
        h_minor.1,
        length-append {0} major (b'.' ∷ (minor ++ 10 ∷ [])),
        length-append {0} minor (10 ∷ []),
      ))

  collect-text :
      (port : ℕ) (stream : Stream) → collect port stream (some (ok (encode text))) ≡ encode text
  unfolding text collect encode encode_char
  collect-text port stream = refl

abbrev vnc_info : Text → Text → Text → ServiceInfo
vnc_info major minor text = record {
  name = codes "vnc";
  product = some (codes "RFB");
  version = some (major ++ b'.' ∷ minor);
  banner = some text;
}

-- With a regular expression crate that is as documented, a VNC server that greets with the version of
-- its protocol is reported as vnc with that version, on every port but those of MySQL, Redis and
-- PostgreSQL.
pub detect-vnc :
    (regex : Regex) (port : ℕ) (stream : Stream) (major minor : Text)
    → IsDocumented regex
    → is_store_port port ≡ false
    → IsTriple major
    → IsTriple minor
    → stream.opened ≡ true
    → stream.banner ≡ some (ok (encode (protocol major minor)))
    → detect regex port stream
      ≡ some (record {
        name = codes "vnc";
        product = some (codes "RFB");
        version = some (major ++ b'.' ∷ minor);
        banner = some (protocol major minor);
      })
unfolding text guess
detect-vnc regex port stream major minor documented away h_major h_minor opened banner =
    detect-shown regex port stream (protocol major minor) (protocol major minor) opened
      (ap (λ b. collect port stream b) banner
        ∙ collect-text major minor h_major h_minor port stream)
      (text-IsScalar major minor h_major h_minor) (text-Leaves major minor h_major h_minor)
    ∙ ap (λ g. some (reported g (protocol major minor)))
        (guess-protocol major minor h_major h_minor regex port documented away)
    ∙ ap (λ t. some (vnc_info major minor t)) (take-text major minor h_major h_minor)
