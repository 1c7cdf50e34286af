-- ===== src/Service/Pattern/Classes.antt =====
-- The classes of the patterns: which characters fit them.
use rnmap.Base.{ℕ, ◌≡◌, ◌≢◌, refl, true, false, ◌&&◌, [], ◌∷◌, ◌++◌, arith, leb, All}
use rnmap.Text.{Text}
use rnmap.Text.Space.{is_whitespace, IsDense}
use rnmap.Text.Number.{IsNumeric}
use rnmap.Service.Pattern.{space, char, one_of, none_of, digits, line_ends, Class}
use rnmap.Service.Pattern.Meaning.{Tables, IsUnicode, fits, fits_any, fits_item}
use rnmap.Service.Pattern.First.{Stops, AllFit}

-- `[^\s\r\n]`
abbrev pub visible : Class
visible = none_of (space ∷ char 13 ∷ char 10 ∷ [])

-- The text has no line end.
abbrev pub IsLine : Text → Type 0
IsLine s = All (λ c. (c ≢ 13) × (c ≢ 10)) s

pub dense-IsLine : (s : Text) → IsDense s → IsLine s
dense-IsLine [] h = tt
dense-IsLine (c ∷ s) h = (visible_char c h.0, dense-IsLine s h.1)
  where
    visible_char : (c : ℕ) → is_whitespace c ≡ false → (c ≢ 13) × (c ≢ 10)
    visible_char c h = unfold is_whitespace in (ground arith, ground arith)

module _ (tables : Tables) where
  pub dense-Stops :
      (s rest : Text) → IsDense s → s ≢ [] → Stops tables (one_of (space ∷ [])) (s ++ rest)
  unfolding fits fits_any fits_item
  dense-Stops [] rest h ne = absurd (ne refl)
  dense-Stops (c ∷ s) rest h ne = rw h.0 refl

  pub fits-visible : (c : ℕ) → is_whitespace c ≡ false → fits tables visible c ≡ true
  unfolding fits fits_any fits_item is_whitespace
  fits-visible c h = ground arith

  pub dense-AllFit : (s : Text) → IsDense s → AllFit tables visible s
  dense-AllFit [] h = tt
  dense-AllFit (c ∷ s) h = (fits-visible c h.0, dense-AllFit s h.1)

  pub blank-AllFit :
      (s : Text) → All (λ c. is_whitespace c ≡ true) s → AllFit tables (one_of (space ∷ [])) s
  unfolding fits fits_any fits_item
  blank-AllFit [] h = tt
  blank-AllFit (c ∷ s) h = (rw h.0 refl, blank-AllFit s h.1)

  pub line-AllFit : (s : Text) → IsLine s → AllFit tables line_ends s
  unfolding fits fits_any fits_item
  line-AllFit [] h = tt
  line-AllFit (c ∷ s) h = (ground arith, line-AllFit s h.1)

  module _ (unicode : IsUnicode tables) where
    pub numeric-AllFit : (n : Text) → IsNumeric n → AllFit tables digits n
    unfolding fits fits_any fits_item
    numeric-AllFit [] h = tt
    numeric-AllFit (c ∷ n) h = (ground (arith, unicode.ascii_digit c), numeric-AllFit n h.1)

    pub fits-digits-ascii :
        (c : ℕ)
        → leb c 127 ≡ true
        → (leb b'0' c && leb c b'9') ≡ false
        → fits tables digits c ≡ false
    unfolding fits fits_any fits_item
    fits-digits-ascii c h k = rw (unicode.ascii_digit c h, k) refl
