-- ===== src/Output/Xml/Reader.antt =====
-- A reader of XML documents of the form that the renderer uses: a declaration, and one root element
-- with nested elements, attributes in double quotes and white space, but no text. The names are of
-- lower-case letters. It is independent of the renderer, and serves as its specification.
use rnmap.Base.{
  ℕ, Bool, false, ◌&&◌, ◌||◌, List, [], ◌∷◌, ◌++◌, Option, none, some, ◌==◌, ltb, leb,
  if◌then◌else◌,
}
use rnmap.Text.{Text, codes, text_eq}
use rnmap.Output.Formats.{quote}

pub record Tag : Type 0 where
  pub name : Text
  pub attrs : List (Text × Text)

-- A start tag, an end tag, and the tag of an empty element.
pub data Token : Type 0 where
  opened : Tag → Token
  closed : Text → Token
  lone : Tag → Token

-- Where the reader stands, with what it has read of the tag, of the attribute's name and value, and of
-- the entity.
pub data Mode : Type 0 where
  prolog prolog_open declaration declaration_end content opening epilog broken : Mode
  tag_name closing : Text → Mode
  after_attr before_attr after_slash : Tag → Mode
  attr_name attr_equals : Tag → Text → Mode
  in_value : Tag → Text → Text → Mode
  in_entity : Tag → Text → Text → Text → Mode

-- The reader, with the names of the open elements, the innermost first, and the tokens read.
pub record Reader : Type 0 where
  pub mode : Mode
  pub names : List Text
  pub out : List Token

abbrev pub at : Mode → List Text → List Token → Reader
at mode names out = record { mode = mode; names = names; out = out }

abbrev goto : Reader → Mode → Reader
goto r mode = record r { mode = mode }

abbrev is_space : ℕ → Bool
is_space c = c == 32 || c == 10

abbrev is_letter : ℕ → Bool
is_letter c = leb b'a' c && leb c b'z'

unfoldable pub has_attr : Text → List (Text × Text) → Bool
has_attr name [] = false
has_attr name ((n, v) ∷ attrs) = text_eq n name || has_attr name attrs

-- The character that an entity stands for.
pub resolve : Text → Option ℕ
resolve e =
    if text_eq e (codes "amp")
    then some b'&'
    else if text_eq e (codes "lt")
    then some b'<'
    else if text_eq e (codes "gt")
    then some b'>'
    else if text_eq e (codes "quot")
    then some quote
    else if text_eq e (codes "apos")
    then some 39
    else none

-- An end tag has to name the innermost open element; the end of the root ends the document.
pub close_tag : Text → List Text → List Token → Reader
close_tag name [] out = at broken [] out
close_tag name (n ∷ []) out =
    if text_eq n name then at epilog [] (out ++ closed name ∷ []) else at broken [] out
close_tag name (n ∷ m ∷ names) out =
    if text_eq n name then at content (m ∷ names) (out ++ closed name ∷ []) else at broken [] out

-- What may follow the name of a tag, or an attribute.
pub in_tag : Tag → Reader → ℕ → Reader
in_tag tag r c =
    if c == b'>'
    then at content (tag.name ∷ r.names) (r.out ++ opened tag ∷ [])
    else if c == b'/'
    then goto r (after_slash tag)
    else if c == 32
    then goto r (before_attr tag)
    else goto r broken

-- The end of a value; no name may occur twice.
unfoldable pub add_attr : Tag → Text → Text → Mode
unfolding has_attr
add_attr tag n v =
    if has_attr n tag.attrs
    then broken
    else after_attr (record tag { attrs = tag.attrs ++ (n, v) ∷ [] })

pub end_entity : Tag → Text → Text → Option ℕ → Mode
end_entity tag n v none = broken
end_entity tag n v (some c) = in_value tag n (v ++ c ∷ [])

unfoldable pub step_in : Mode → Reader → ℕ → Reader
unfolding resolve close_tag in_tag add_attr end_entity
step_in prolog r c = if c == b'<' then goto r prolog_open else goto r broken
step_in prolog_open r c = if c == b'?' then goto r declaration else goto r broken
step_in declaration r c = if c == b'?' then goto r declaration_end else r
step_in declaration_end r c = if c == b'>' then goto r content else goto r broken
step_in content r c = if c == b'<' then goto r opening else if is_space c then r else goto r broken
step_in opening r c =
    if c == b'/'
    then goto r (closing [])
    else if is_letter c
    then goto r (tag_name (c ∷ []))
    else goto r broken
step_in epilog r c = if is_space c then r else goto r broken
step_in broken r c = r
step_in (tag_name n) r c =
    if is_letter c
    then goto r (tag_name (n ++ c ∷ []))
    else in_tag (record { name = n; attrs = [] }) r c
step_in (closing n) r c =
    if is_letter c
    then goto r (closing (n ++ c ∷ []))
    else if c == b'>'
    then close_tag n r.names r.out
    else goto r broken
step_in (after_attr tag) r c = in_tag tag r c
step_in (before_attr tag) r c =
    if is_letter c then goto r (attr_name tag (c ∷ [])) else goto r broken
step_in (after_slash tag) r c =
    if c == b'>' then at content r.names (r.out ++ lone tag ∷ []) else goto r broken
step_in (attr_name tag n) r c =
    if is_letter c
    then goto r (attr_name tag (n ++ c ∷ []))
    else if c == b'='
    then goto r (attr_equals tag n)
    else goto r broken
step_in (attr_equals tag n) r c = if c == quote then goto r (in_value tag n []) else goto r broken
step_in (in_value tag n v) r c =
    if c == quote
    then goto r (add_attr tag n v)
    else if c == b'&'
    then goto r (in_entity tag n v [])
    else if c == b'<' || ltb c 32
    then goto r broken
    else goto r (in_value tag n (v ++ c ∷ []))
step_in (in_entity tag n v e) r c =
    if c == b';'
    then goto r (end_entity tag n v (resolve e))
    else goto r (in_entity tag n v (e ++ c ∷ []))

unfoldable pub run : Reader → Text → Reader
unfolding step_in
run r [] = r
run r (c ∷ s) = run (step_in r.mode r c) s

-- A document is read if its root has ended.
pub accepted : Mode → List Token → Option (List Token)
accepted epilog out = some out
accepted _ out = none

unfoldable pub read : Text → Option (List Token)
unfolding run accepted
read s = let r = run (at prolog [] []) s in accepted r.mode r.out
