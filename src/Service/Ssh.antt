-- ===== src/Service/Ssh.antt =====
-- SSH servers: what is reported of a server by its identification line (RFC 4253, section 4.2).
use rnmap.Base.{
  ℕ, ◌≡◌, ◌≢◌, refl, ap, ◌∙◌, true, [], ◌∷◌, ◌++◌, Option, none, some, ok, ◌==◌, take, drop, All,
  All-append,
}
use rnmap.Text.{Text, codes}
use rnmap.Text.Number.{IsNumeric}
use rnmap.Text.Space.{is_whitespace, IsDense, trim_end_matches, Leaves, append-Leaves}
use rnmap.Text.Split.{Lacks}
use rnmap.Text.Utf8.{IsScalar, encode_char, encode}
use rnmap.Service.Pattern.{Regex, ssh, plus, literal, digits}
use rnmap.Service.Pattern.Meaning.{
  Tables, IsUnicode, IsDocumented, first, steps, matches, find, fits, fits_any, fits_item,
}
use rnmap.Service.Pattern.First.{
  last_of, Stops, first-plus, first-literal, first-piece, first-group, first-end, first-steps,
  first-last,
}
use rnmap.Service.Pattern.Search.{find-text_start}
use rnmap.Service.Pattern.Classes.{visible, dense-AllFit, numeric-AllFit, fits-digits-ascii}
use rnmap.Service.{guess, guess_ssh, guess_from_banner, split_product_version}
use rnmap.Service.Dialogue.{Stream, collect, detect}
use rnmap.Service.Shown.{reported, detect-shown}
use rnmap.Service.Product.{split_product_version-bar}

abbrev comment : Option Text → Text
comment none = []
comment (some s) = b' ' ∷ s

-- `SSH-major.minor-product_version`, perhaps with a comment behind a space, and the end of the line.
abbrev pub identification : Text → Text → Text → Text → Option Text → Text
identification major minor product version comments =
    codes "SSH-"
    ++ (major
        ++ b'.'
          ∷ (minor ++ b'-' ∷ ((product ++ b'_' ∷ version) ++ (comment comments ++ 13 ∷ 10 ∷ []))))

dense-ne-nil : (product version : Text) → (product ++ b'_' ∷ version) ≢ []
dense-ne-nil [] version e = cc
dense-ne-nil (c ∷ product) version e = cc

module _ (major minor product version : Text) (comments : Option Text) where
  line : Text
  line = identification major minor product version comments

  end_of_line : Text
  end_of_line = comment comments ++ 13 ∷ 10 ∷ []

  module _ (tables : Tables) (unicode : IsUnicode tables) (h_major : IsNumeric major × (major ≢ []))
      (h_minor : IsNumeric minor × (minor ≢ [])) (dense : IsDense (product ++ b'_' ∷ version)) where
    first-protocol :
        (b : Option ℕ) (rest : Text)
        → first (
            steps tables
              (plus digits ∷ literal (codes ".") ∷ plus digits ∷ [])
              (b, major ++ b'.' ∷ (minor ++ b'-' ∷ rest)))
          ≡ some (
            major ++ b'.' ∷ minor,
            (last_of (last_of (last_of b major) (codes ".")) minor, b'-' ∷ rest),
          )
    first-protocol b rest =
        first-steps tables (plus digits) (literal (codes ".") ∷ plus digits ∷ []) _
          (first-plus tables digits b major _ h_major.1
            (numeric-AllFit tables unicode major h_major.0)
            (fits-digits-ascii tables unicode b'.' refl refl))
          (first-steps tables (literal (codes ".")) (plus digits ∷ []) _
            (first-literal tables _ (codes ".") _)
            (first-last tables (plus digits) _ (
              first-plus tables digits _ minor (b'-' ∷ rest) h_minor.1
                (numeric-AllFit tables unicode minor h_minor.0)
                (fits-digits-ascii tables unicode b'-' refl refl))))

    first-software :
        (b : Option ℕ)
        → first (matches tables (drop 4 ssh) (b, (product ++ b'_' ∷ version) ++ end_of_line))
          ≡ some (product ++ b'_' ∷ version, tt)
    unfolding end_of_line
    first-software b =
        first-group tables (plus visible ∷ []) _ []
          (first-last tables (plus visible) _ (
            first-plus tables visible b (product ++ b'_' ∷ version) end_of_line
              (dense-ne-nil product version) (dense-AllFit tables (product ++ b'_' ∷ version) dense)
              (stops comments)))
          (first-end tables _)
      where
        stops : (o : Option Text) → Stops tables visible (comment o ++ 13 ∷ 10 ∷ [])
        stops none = unfold fits fits_any fits_item is_whitespace in refl
        stops (some s) = unfold fits fits_any fits_item is_whitespace in refl

    matches-identification :
        first (matches tables (drop 1 ssh) (none, line))
        ≡ some (major ++ b'.' ∷ minor, (product ++ b'_' ∷ version, tt))
    unfolding line end_of_line
    matches-identification =
        first-piece tables (literal (codes "SSH-")) _ (drop 2 ssh)
          (first-literal tables none (codes "SSH-") _)
          (first-group tables (plus digits ∷ literal (codes ".") ∷ plus digits ∷ []) _ (drop 3 ssh)
            (first-protocol _ ((product ++ b'_' ∷ version) ++ end_of_line))
            (first-piece tables (literal (codes "-")) _ (drop 4 ssh)
              (first-literal tables _ (codes "-") _) (first-software _)))

    find-identification :
        find tables ssh line ≡ some (major ++ b'.' ∷ minor, (product ++ b'_' ∷ version, tt))
    find-identification = find-text_start tables (drop 1 ssh) line ∙ matches-identification

crlf-Leaves : Leaves (λ c. c == 0) (13 ∷ 10 ∷ []) (13 ∷ 10 ∷ [])
unfolding trim_end_matches
crlf-Leaves = (refl, refl)

module _ (major minor product version : Text) (comments : Option Text) where
  line-Leaves :
      Leaves
        (λ c. c == 0)
        (line major minor product version comments)
        (line major minor product version comments)
  unfolding line
  line-Leaves = append-Leaves _ (codes "SSH-") _ _ (
      append-Leaves _ major _ _ (
        append-Leaves _ (b'.' ∷ minor) _ _ (
          append-Leaves _ (b'-' ∷ (product ++ b'_' ∷ version)) _ _
            (append-Leaves _ (comment comments) _ _ crlf-Leaves))))

  -- The line in UTF-8 is the banner that the stream gives.
  abbrev pub Greets : Stream → Type 0
  Greets stream =
      (stream.opened ≡ true)
      × (stream.banner ≡ some (ok (encode (identification major minor product version comments))))

  collect-line :
      (port : ℕ) (stream : Stream)
      → collect port stream
          (some (ok (encode (identification major minor product version comments))))
        ≡ encode (identification major minor product version comments)
  unfolding collect encode encode_char
  collect-line port stream = refl

guess-ssh :
    (regex : Regex) (port : ℕ) (text protocol software : Text)
    → regex ssh text ≡ some (protocol, (software, tt))
    → guess_from_banner regex port text ≡ guess (codes "ssh") (split_product_version software)
unfolding guess_from_banner guess_ssh
guess-ssh regex port text protocol software found = rw found refl

-- With a regular expression crate that is as documented, an SSH server that greets with an
-- identification line in UTF-8, of the form that RFC 4253 gives it, is reported as ssh with the product and the version behind the product's first underscore, whatever
-- the port; up to 256 characters of the line are the banner. The product and the version have no white
-- space, and the line may have a comment.
pub detect-ssh :
    (regex : Regex) (port : ℕ) (stream : Stream) (major minor product version : Text)
    (comments : Option Text)
    → IsDocumented regex
    → IsNumeric major × (major ≢ [])
    → IsNumeric minor × (minor ≢ [])
    → IsDense product × Lacks b'_' product
    → IsDense version
    → All IsScalar (identification major minor product version comments)
    → Greets major minor product version comments stream
    → detect regex port stream
      ≡ some (record {
        name = codes "ssh";
        product = some product;
        version = some version;
        banner = some (take 256 (identification major minor product version comments));
      })
unfolding line guess
detect-ssh regex port stream major minor product version comments documented h_major h_minor
      (dense, no_bar) h_version scalar (opened, banner) =
    let text = identification major minor product version comments in
    let whole : IsDense (product ++ b'_' ∷ version) =
      All-append _ product _ dense (unfold is_whitespace in refl, h_version) in
    let found =
      documented.finds ssh text
      ∙ find-identification major minor product version comments documented.tables
          documented.unicode h_major h_minor whole in
    detect-shown regex port stream text text opened
      (ap (λ b. collect port stream b) banner
        ∙ collect-line major minor product version comments port stream)
      scalar (line-Leaves major minor product version comments)
    ∙ ap (λ g. some (reported g text)) (guess-ssh regex port text _ _ found)
    ∙ ap (λ g. some (reported (guess (codes "ssh") g) text))
        (split_product_version-bar product version dense h_version no_bar)
