-- ===== src/Service/Header.antt =====
-- Header fields: the pattern for the Server header passes over the lines before the header, and takes
-- its value.
use rnmap.Base.{
  ℕ, ◌≡◌, ◌≢◌, ◌≤◌, refl, ◌∙◌, Bool, true, false, ◌&&◌, List, [], ◌∷◌, ◌++◌, append_assoc, ◌+◌,
  Option, none, some, arith, ◌==◌, leb, if◌then◌else◌, All, drop, Bool-cases, inl, inr,
}
use rnmap.Text.{Text, codes}
use rnmap.Text.Space.{is_whitespace}
use rnmap.Service.Pattern.{
  http_server, literal_folded, star, plus, one_of, space, line_start, line_ends,
}
use rnmap.Service.Pattern.Meaning.{
  Tables, IsUnicode, first, each, is_line_start, take_text, same_folded, step, matches, search,
  fits, fits_any, fits_item,
}
use rnmap.Service.Pattern.First.{
  Stops, Alike, first-line_start, first-literal_folded, first-star, first-plus, first-piece,
  first-group, first-last, first-end,
}
use rnmap.Service.Pattern.Search.{search-here, search-later}
use rnmap.Service.Pattern.Classes.{IsLine, line-AllFit, blank-AllFit}

abbrev pub lower : ℕ → ℕ
lower c = if leb b'A' c && leb c b'Z' then c + 32 else c

abbrev pub IsAscii : Text → Type 0
IsAscii s = All (λ c. leb c 127 ≡ true) s

-- The text begins with the other one, but for the case of letters.
abbrev pub starts_folded : Text → Text → Bool
starts_folded s [] = true
starts_folded [] (d ∷ t) = false
starts_folded (c ∷ s) (d ∷ t) = lower c == lower d && starts_folded s t

-- A line without a Server header.
abbrev pub IsQuiet : Text → Type 0
IsQuiet s = IsAscii s × (starts_folded s (codes "Server:") ≡ false)

-- The word Server and a colon, in any case.
abbrev pub IsServer : Text → Type 0
IsServer s = IsAscii s × Alike (λ c d. lower c == lower d) s (codes "Server:")

-- The lines, each with its end.
abbrev pub ended : List Text → Text
ended [] = []
ended (l ∷ lines) = l ++ 13 ∷ 10 ∷ ended lines

-- What the characters of a header's name are.
abbrev IsName : Text → Type 0
IsName t = All (λ c. (leb c 127 ≡ true) × (14 ≤ c)) t

module _ (tables : Tables) (unicode : IsUnicode tables) where
  same_lower :
      (c d : ℕ)
      → leb c 127 ≡ true
      → leb d 127 ≡ true
      → same_folded tables c d ≡ (lower c == lower d)
  same_lower c d hc hd = rw (unicode.ascii_fold c hc, unicode.ascii_fold d hd) refl

  take_text-quiet :
      (b : Option ℕ) (t l rest : Text)
      → IsName t
      → IsAscii l
      → starts_folded l t ≡ false
      → take_text tables (same_folded tables) t b (l ++ 13 ∷ rest) ≡ []
  unfolding take_text
  take_text-quiet b [] l rest ht hl h = cc
  take_text-quiet b (d ∷ t) [] rest ht hl h =
      let other : same_folded tables 13 d ≡ false = same_lower 13 d refl ht.0.0 ∙ ground arith in
      rw other refl
  take_text-quiet b (d ∷ t) (c ∷ l) rest ht hl h = elim (Bool-cases (lower c == lower d)) [
    | inl e ↦
        rw (same_lower c d hl.0 ht.0.0, e, take_text-quiet (some c) t l rest ht.1 hl.1 (rw e at h))
          refl
    | inr e ↦ rw (same_lower c d hl.0 ht.0.0, e) refl
  ]

  no_match :
      (b : Option ℕ) (l rest : Text)
      → IsQuiet l
      → first (matches tables http_server (b, l ++ 13 ∷ rest)) ≡ none
  unfolding matches step first each
  no_match b l rest (ascii, quiet) = elim (Bool-cases (is_line_start b)) [
    | inl start ↦
        rw (start, take_text-quiet b (codes "Server:") l rest (ground arith) ascii quiet) refl
    | inr other ↦ rw other refl
  ]

  no_start :
      (b : ℕ) (s : Text) → (b == 10) ≡ false → first (matches tables http_server (some b, s)) ≡ none
  unfolding matches step first each is_line_start
  no_start b s h = rw h refl

  inside :
      (b : ℕ) (s rest : Text)
      → (b == 10) ≡ false
      → IsLine s
      → search tables http_server (some b) (s ++ 13 ∷ 10 ∷ rest)
        ≡ search tables http_server (some 10) rest
  inside b [] rest hb hs =
      search-later tables http_server (some b) 13 (10 ∷ rest) (no_start b _ hb)
      ∙ search-later tables http_server (some 13) 10 rest (no_start 13 _ refl)
  inside b (c ∷ s) rest hb (h, hs) =
      search-later tables http_server (some b) c (s ++ 13 ∷ 10 ∷ rest) (no_start b _ hb)
      ∙ inside c s rest (ground arith) hs

  -- The search passes over a line without the header.
  pub search-line :
      (b : Option ℕ) (s rest : Text)
      → IsQuiet s
      → IsLine s
      → search tables http_server b (s ++ 13 ∷ 10 ∷ rest) ≡ search tables http_server (some 10) rest
  search-line b [] rest quiet line =
      search-later tables http_server b 13 (10 ∷ rest) (no_match b [] (10 ∷ rest) quiet)
      ∙ search-later tables http_server (some 13) 10 rest (no_start 13 _ refl)
  search-line b (c ∷ s) rest quiet line =
      search-later tables http_server b c (s ++ 13 ∷ 10 ∷ rest)
        (no_match b (c ∷ s) (10 ∷ rest) quiet)
      ∙ inside c s rest (ground arith) line.1

  server-Alike :
      (s t : Text)
      → IsName t
      → IsAscii s
      → Alike (λ c d. lower c == lower d) s t
      → Alike (same_folded tables) s t
  server-Alike [] [] ht hs h = tt
  server-Alike [] (d ∷ t) ht hs h = h
  server-Alike (c ∷ s) [] ht hs h = h
  server-Alike (c ∷ s) (d ∷ t) ht hs h =
      (same_lower c d hs.0 ht.0.0 ∙ h.0, server-Alike s t ht.1 hs.1 h.1)

  -- The value is what comes behind the white space after the colon, to the end of its line. The white
  -- space may hold line ends.
  pub first-server :
      (server blank value rest : Text)
      → IsServer server
      → All (λ c. is_whitespace c ≡ true) blank
      → value ≢ []
      → IsLine value
      → Stops tables (one_of (space ∷ [])) (value ++ 13 ∷ rest)
      → first (matches tables http_server (some 10, server ++ (blank ++ (value ++ 13 ∷ rest))))
        ≡ some (value, tt)
  first-server server blank value rest (ascii, alike) hb ne line stops =
      first-piece tables line_start _ (drop 1 http_server)
        (first-line_start tables (some 10) _ (unfold is_line_start in refl))
        (first-piece tables (literal_folded (codes "Server:")) _ (drop 2 http_server)
          (first-literal_folded tables (some 10) (codes "Server:") server
            (blank ++ (value ++ 13 ∷ rest))
            (server-Alike server (codes "Server:") (ground arith) ascii alike))
          (first-piece tables (star (one_of (space ∷ []))) _ (drop 3 http_server)
            (first-star tables (one_of (space ∷ [])) _ blank (value ++ 13 ∷ rest)
              (blank-AllFit tables blank hb) stops)
            (first-group tables (plus line_ends ∷ []) _ []
              (first-last tables (plus line_ends) _ (
                first-plus tables line_ends _ value (13 ∷ rest) ne (line-AllFit tables value line)
                  (unfold fits fits_any fits_item in refl)))
              (first-end tables _))))

  -- The value of the header behind lines without it.
  pub search-server :
      (b : Option ℕ) (lines : List Text) (rest : Text) {found : Text}
      → All (λ l. IsQuiet l × IsLine l) lines
      → lines ≢ []
      → first (matches tables http_server (some 10, rest)) ≡ some (found, tt)
      → search tables http_server b (ended lines ++ rest) ≡ some (found, tt)
  search-server b [] rest hs ne h = absurd (ne refl)
  search-server b (l ∷ []) rest ((quiet, line), hs) ne h =
      rw append_assoc
        (search-line b l rest quiet line ∙ search-here tables http_server (some 10) rest h)
  search-server b (l ∷ m ∷ lines) rest ((quiet, line), hs) ne h =
      rw append_assoc
        (search-line b l _ quiet line ∙ search-server (some 10) (m ∷ lines) rest hs (λ e. cc) h)
