-- ===== src/Main/XmlFile.antt =====
-- What the XML file of `-oX` holds.
use rnmap.Base.{◌≡◌, List, ◌∷◌, ◌++◌, some}
use rnmap.Text.{Text}
use rnmap.Output.Xml.Reader.{Token, read}
use rnmap.Cli.{Cli}

-- Among the files is one of this path, and a reader gets these elements from it.
abbrev pub Holds : Text → List Token → List (Text × Text) → Type 0
Holds path tokens files =
    (before : List (Text × Text)) × (text : Text) × (after : List (Text × Text)) × (files
      ≡ before ++ (path, text) ∷ after)
    × (read text ≡ some tokens)
