-- ===== src/Service/Later.antt =====
-- The names that are guessed behind the data bases are none that came before.
use rnmap.Base.{ℕ, ◌≡◌, false, List, [], ◌∷◌, Option, none, some, arith, All}
use rnmap.Text.{Text, codes, text_eq}
use rnmap.Service.Pattern.{Regex, Captures, vnc}
use rnmap.Service.{guess, guess_vnc, guess_rest, by_port}

abbrev pub later_names : List Text
later_names =
    codes "vnc"
    ∷ codes "imap"
    ∷ codes "pop3"
    ∷ codes "https"
    ∷ codes "dns"
    ∷ codes "rdp"
    ∷ codes "mongodb"
    ∷ codes "unknown"
    ∷ []

module _ (word : Text) where
  abbrev pub IsOther : Text → Type 0
  IsOther name = text_eq name word ≡ false

  module _ (later : All IsOther later_names) (regex : Regex) (port : ℕ) (banner : Text) where
    rest-IsOther : IsOther (guess_rest regex port banner).name
    unfolding guess_rest guess by_port
    rest-IsOther = ground arith

    pub vnc-IsOther : (o : Option (Captures vnc)) → IsOther (guess_vnc regex port banner o).name
    unfolding guess_vnc guess
    vnc-IsOther (some (major, (minor, end))) = later.0
    vnc-IsOther none = rest-IsOther
