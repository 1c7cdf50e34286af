-- ===== src/Service/EmptyHeader.antt =====
-- HTTP servers that send an empty Server header: the white space of the pattern takes the line end too.
use rnmap.Base.{
  ℕ, ◌≡◌, ◌≢◌, refl, ap, ◌∙◌, true, List, [], ◌∷◌, ◌++◌, some, take, contains, All, All-append,
  arith,
}
use rnmap.Text.{Text, codes}
use rnmap.Text.Space.{is_whitespace, IsDense, trim}
use rnmap.Text.Split.{Lacks}
use rnmap.Text.Utf8.{IsScalar}
use rnmap.Service.Pattern.{Regex}
use rnmap.Service.Pattern.Meaning.{IsDocumented}
use rnmap.Service.Product.{detail_version-space}
use rnmap.Service.Dialogue.{Stream, detect}
use rnmap.Service.Shown.{without_nul, reported}
use rnmap.Service.Http.{response, IsResponse, IsSolid, Answers, http_ports, detect-response}
use rnmap.Service.{guess, detail_version}

-- A header field: a name, a colon, a space and a value of one word.
abbrev pub field : Text → Text → Text
field name value = (name ++ b':' ∷ []) ++ b' ' ∷ value

-- Letters, digits and dashes are such characters.
abbrev pub IsPlainWord : Text → Type 0
IsPlainWord s = IsDense s × Lacks b'_' s × Lacks b'/' s

module _ (name value : Text) (h_name : IsPlainWord name × (name ≢ []))
    (h_value : IsPlainWord value × (value ≢ [])) where
  detail_version-field :
      detail_version (some (trim (field name value))) ≡ (some (name ++ b':' ∷ []), some value)
  detail_version-field =
      let ((dense, no_bar, no_slash), filled) = h_name in
      let ((dense', no_bar', no_slash'), filled') = h_value in
      detail_version-space (name ++ b':' ∷ []) value
        (All-append _ name _ dense (unfold is_whitespace in refl, tt), colon-ne-nil name)
        (dense', filled') (All-append _ name _ no_bar (omega arith, tt), no_bar')
        (All-append _ name _ no_slash (omega arith, tt), no_slash')
    where
      colon-ne-nil : (s : Text) → (s ++ b':' ∷ []) ≢ []
      colon-ne-nil [] e = cc
      colon-ne-nil (c ∷ s) e = cc

  field-IsSolid : IsSolid (field name value)
  field-IsSolid = solid name h_name.0.0
    where
      solid : (s : Text) → IsDense s → IsSolid (field s value)
      solid [] h = unfold is_whitespace in refl
      solid (c ∷ s) h = h.0

-- With a regular expression crate that is as documented, a web server on one of the ports that are
-- probed by a request, which waits for the request and answers with an empty Server header, is reported
-- with the name of the field behind that header as its product and with the field's value as its
-- version. The name and the value are words without underscore and slash, as in `Content-Length: 0`.
pub detect-empty_header :
    (regex : Regex) (port : ℕ) (stream : Stream) (status : Text) (fields : List Text)
    (server spaces name value rest : Text)
    → IsDocumented regex
    → contains http_ports port ≡ true
    → IsPlainWord name × (name ≢ [])
    → IsPlainWord value × (value ≢ [])
    → IsResponse status fields server (spaces ++ 13 ∷ 10 ∷ []) (field name value)
    → All IsScalar (response status fields server (spaces ++ 13 ∷ 10 ∷ []) (field name value) rest)
    → Answers stream
        (response status fields server (spaces ++ 13 ∷ 10 ∷ []) (field name value) rest)
    → detect regex port stream
      ≡ some (record {
        name = codes "http";
        product = some (name ++ b':' ∷ []);
        version = some value;
        banner = some (
            take 256 (
              response status fields server
                (spaces ++ 13 ∷ 10 ∷ [])
                (field name value)
                (without_nul rest)));
      })
unfolding guess
detect-empty_header regex port stream status fields server spaces name value rest documented probed
      h_name h_value parts scalar answers =
    let blank = spaces ++ 13 ∷ 10 ∷ [] in
    let shown = response status fields server blank (field name value) (without_nul rest) in
    detect-response regex port stream status fields server blank (field name value) rest documented
      probed parts (field-IsSolid name value h_name h_value) scalar answers
    ∙ ap (λ g. some (reported (guess (codes "http") g) shown))
        (detail_version-field name value h_name h_value)
