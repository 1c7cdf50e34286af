-- ===== src/Service/Shown.antt =====
-- What `detect` reports of a text that the stream has given in UTF-8.
use rnmap.Base.{ℕ, ◌≡◌, refl, ap, ◌∙◌, true, false, some, ◌==◌, is_empty, take, All, Bytes}
use rnmap.Text.{Text}
use rnmap.Text.Space.{trim_end_matches, Leaves}
use rnmap.Text.Utf8.{IsScalar, encode, from_utf8_lossy, from_utf8_lossy-encode}
use rnmap.Report.{ServiceInfo}
use rnmap.Service.{Guess, guess_from_banner}
use rnmap.Service.Pattern.{Regex}
use rnmap.Service.Dialogue.{Stream, describe, collect, detect}

abbrev pub without_nul : Text → Text
without_nul s = trim_end_matches (λ c. c == 0) s

-- The report of a guess, with the text that it was made from.
abbrev pub reported : Guess → Text → ServiceInfo
reported g text = record {
  name = g.name;
  product = g.product;
  version = g.version;
  banner = some (take 256 text);
}

module _ (regex : Regex) (port : ℕ) where
  detect_opened :
      (stream : Stream)
      → stream.opened ≡ true
      → detect regex port stream
        ≡ some (describe regex port (from_utf8_lossy (collect port stream stream.banner)))
  unfolding detect
  detect_opened stream opened = rw opened refl

  describe-kept :
      (text : Text)
      → is_empty (without_nul text) ≡ false
      → describe regex port text
        ≡ reported (guess_from_banner regex port (without_nul text)) (without_nul text)
  unfolding describe
  describe-kept text filled = rw filled refl

  pub detect-decoded :
      (stream : Stream) (bytes : Bytes) (text kept : Text)
      → stream.opened ≡ true
      → collect port stream stream.banner ≡ bytes
      → from_utf8_lossy bytes ≡ text
      → Leaves (λ c. c == 0) text kept
      → detect regex port stream ≡ some (reported (guess_from_banner regex port kept) kept)
  detect-decoded stream bytes text kept opened given decoded (same, filled) =
      let shown = λ (t : Text). some (describe regex port t) in
      detect_opened stream opened
      ∙ ap (λ b. shown (from_utf8_lossy b)) given
      ∙ ap shown decoded
      ∙ ap some (describe-kept text filled)
      ∙ ap (λ t. some (reported (guess_from_banner regex port t) t)) same

  pub detect-shown :
      (stream : Stream) (text kept : Text)
      → stream.opened ≡ true
      → collect port stream stream.banner ≡ encode text
      → All IsScalar text
      → Leaves (λ c. c == 0) text kept
      → detect regex port stream ≡ some (reported (guess_from_banner regex port kept) kept)
  detect-shown stream text kept opened given scalar leaves =
      detect-decoded stream (encode text) text kept opened given
        (from_utf8_lossy-encode text scalar) leaves
