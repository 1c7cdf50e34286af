-- ===== src/Service/Http.antt =====
-- HTTP servers: what is reported of a server by the response to the probe.
use rnmap.Base.{
  ℕ, ◌≡◌, ◌≢◌, refl, ap, ◌∙◌, true, false, List, [], ◌∷◌, ◌++◌, none, some, ok, ◌==◌, arith,
  contains, take, drop, All, All-append,
}
use rnmap.Text.{Text, codes}
use rnmap.Text.Space.{is_whitespace, IsDense, IsApart, trim, Leaves, append-Leaves, cons-Leaves}
use rnmap.Text.Split.{Lacks}
use rnmap.Text.Utf8.{IsScalar, encode}
use rnmap.Service.Pattern.{Regex, ssh, http_server, one_of, space}
use rnmap.Service.Pattern.Meaning.{Tables, IsUnicode, IsDocumented, find, fits, fits_any, fits_item}
use rnmap.Service.Pattern.First.{Stops}
use rnmap.Service.Pattern.Search.{find-literal-none}
use rnmap.Service.Pattern.Classes.{IsLine}
use rnmap.Service.Header.{IsAscii, IsQuiet, IsServer, ended, first-server, search-server}
use rnmap.Service.Product.{detail_version-slash}
use rnmap.Service.Dialogue.{Stream, collect, detect}
use rnmap.Service.Shown.{without_nul, reported, detect-shown}
use rnmap.Service.{guess, guess_ssh, guess_from_banner, detail_version, looks_http}

-- `HTTP/` and the rest of the status line, header fields, the Server header with its value, and what
-- follows.
abbrev pub response : Text → List Text → Text → Text → Text → Text → Text
response status fields server blank value rest =
    ended ((codes "HTTP/" ++ status) ∷ fields) ++ (server ++ (blank ++ (value ++ 13 ∷ 10 ∷ rest)))

-- The parts of a response: no line before it is a Server header, and white space stands between the
-- header's name and its value.
abbrev pub IsResponse : Text → List Text → Text → Text → Text → Type 0
IsResponse status fields server blank value =
    (IsAscii status × IsLine status)
    × All (λ l. IsQuiet l × IsLine l) fields
    × IsServer server
    × All (λ c. is_whitespace c ≡ true) blank
    × IsLine value

-- The value begins with a character that is not white space.
abbrev pub IsSolid : Text → Type 0
IsSolid [] = ⊥
IsSolid (c ∷ s) = is_whitespace c ≡ false

module _ (tables : Tables) where
  solid-Stops : (s rest : Text) → IsSolid s → Stops tables (one_of (space ∷ [])) (s ++ rest)
  unfolding fits fits_any fits_item
  solid-Stops [] rest h = absurd h
  solid-Stops (c ∷ s) rest h = rw h refl

solid-ne-nil : (s : Text) → IsSolid s → s ≢ []
solid-ne-nil [] h e = h
solid-ne-nil (c ∷ s) h e = cc

module _ (status : Text) (fields : List Text) (server blank value rest : Text)
    (parts : IsResponse status fields server blank value) (solid : IsSolid value) where
  find-response :
      (tables : Tables)
      → IsUnicode tables
      → find tables http_server (response status fields server blank value rest) ≡ some (value, tt)
  unfolding find
  find-response tables unicode =
      let ((ascii, line), quiet, named, blanks, value_line) = parts in
      let first_line : IsQuiet (codes "HTTP/" ++ status) × IsLine (codes "HTTP/" ++ status) = (
        (All-append _ (codes "HTTP/") status (ground arith) ascii, refl),
        All-append _ (codes "HTTP/") status (ground arith) line,
      ) in
      search-server tables unicode none ((codes "HTTP/" ++ status) ∷ fields)
        (server ++ (blank ++ (value ++ 13 ∷ 10 ∷ rest))) (first_line, quiet) (λ e. cc)
        (first-server tables unicode server blank value (10 ∷ rest) named blanks
          (solid-ne-nil value solid) value_line (solid-Stops tables value (13 ∷ 10 ∷ rest) solid))

  -- What is guessed of a response: its server is the value of the header.
  pub guess-response :
      (regex : Regex) (port : ℕ)
      → IsDocumented regex
      → guess_from_banner regex port (response status fields server blank value rest)
        ≡ guess (codes "http") (detail_version (some (trim value)))
  unfolding guess_from_banner guess_ssh looks_http
  guess-response regex port documented =
      let t = documented.tables in
      let text = response status fields server blank value rest in
      rw
        (
          documented.finds ssh text,
          find-literal-none t (codes "SSH-") (drop 2 ssh) text refl,
          documented.finds http_server text,
          find-response t documented.unicode,
        )
        refl

-- A web server waits for the request, and then answers with the text.
abbrev pub Answers : Stream → Text → Type 0
Answers stream text =
    (stream.opened ≡ true)
    × (stream.banner ≡ none)
    × ((request : Text) → stream.written request ≡ true)
    × (stream.reply ≡ some (ok (encode text)))

-- The ports that are probed by a request.
abbrev pub http_ports : List ℕ
http_ports = 80 ∷ 8080 ∷ 8000 ∷ 8888 ∷ 81 ∷ 591 ∷ 8008 ∷ 8081 ∷ []

collect-answer :
    (port : ℕ) (stream : Stream) (text : Text)
    → contains http_ports port ≡ true
    → Answers stream text
    → collect port stream stream.banner ≡ encode text
unfolding collect
collect-answer port stream text probed (opened, silent, written, reply) =
    rw (silent, probed, written, reply) refl

module _ (regex : Regex) (port : ℕ) (stream : Stream) (status : Text) (fields : List Text)
    (server blank value rest : Text) where
  abbrev pub whole : Text
  whole = response status fields server blank value rest

  trim-response :
      Leaves (λ c. c == 0) whole (response status fields server blank value (without_nul rest))
  trim-response = append-Leaves _ (ended ((codes "HTTP/" ++ status) ∷ fields)) _ _ (
      append-Leaves _ server _ _ (
        append-Leaves _ blank _ _
          (append-Leaves _ value _ _ (append-Leaves _ (13 ∷ []) _ _ (cons-Leaves _ 10 rest refl)))))

  -- What is reported of the response.
  pub detect-response :
      IsDocumented regex
      → contains http_ports port ≡ true
      → IsResponse status fields server blank value
      → IsSolid value
      → All IsScalar whole
      → Answers stream whole
      → detect regex port stream
        ≡ some (
            reported
              (guess (codes "http") (detail_version (some (trim value))))
              (response status fields server blank value (without_nul rest)))
  detect-response documented probed parts solid scalar answers =
      detect-shown regex port stream whole
        (response status fields server blank value (without_nul rest)) answers.0
        (collect-answer port stream whole probed answers) scalar trim-response
      ∙ ap (λ g. some (reported g (response status fields server blank value (without_nul rest))))
          (guess-response status fields server blank value (without_nul rest) parts solid regex port
            documented)

-- With a regular expression crate that is as documented, a web server on one of the ports that are
-- probed by a request, which waits for the request, is reported as http with the product and the
-- version that the Server header of its response names, whatever the case of the header's name and
-- behind whatever other ASCII fields; the version may have a remark behind white space. Product,
-- version and remark have no underscore. The banner is up to 256 characters of the response, without
-- NULs at its end.
pub detect-http :
    (regex : Regex) (port : ℕ) (stream : Stream) (status : Text) (fields : List Text)
    (server blank product version remark rest : Text)
    → IsDocumented regex
    → contains http_ports port ≡ true
    → IsResponse status fields server blank ((product ++ b'/' ∷ version) ++ remark)
    → IsDense product × Lacks b'/' product
    → IsDense version × (version ≢ [])
    → IsApart remark
    → Lacks b'_' product × Lacks b'_' version × Lacks b'_' remark
    → All IsScalar
        (response status fields server blank ((product ++ b'/' ∷ version) ++ remark) rest)
    → Answers stream
        (response status fields server blank ((product ++ b'/' ∷ version) ++ remark) rest)
    → detect regex port stream
      ≡ some (record {
        name = codes "http";
        product = some product;
        version = some version;
        banner = some (
            take 256 (
              response status fields server blank
                ((product ++ b'/' ∷ version) ++ remark)
                (without_nul rest)));
      })
unfolding guess
detect-http regex port stream status fields server blank product version remark rest documented
      probed parts (dense, no_slash) h_version apart no_bar scalar answers =
    let value = (product ++ b'/' ∷ version) ++ remark in
    detect-response regex port stream status fields server blank value rest documented probed parts
      (named-IsSolid product version remark dense) scalar answers
    ∙ ap
        (λ g. some (
          reported (guess (codes "http") g)
            (response status fields server blank value (without_nul rest))))
        (detail_version-slash product version remark dense h_version apart no_bar no_slash)
  where
    named-IsSolid : (p v r : Text) → IsDense p → IsSolid ((p ++ b'/' ∷ v) ++ r)
    named-IsSolid [] v r h = unfold is_whitespace in refl
    named-IsSolid (c ∷ p) v r h = h.0
