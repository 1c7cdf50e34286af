-- ===== src/Service/Documented.antt =====
-- A search that is as documented, for the tests.
use rnmap.Base.{refl}
use rnmap.Text.Number.{is_digit}
use rnmap.Service.Pattern.{Regex}
use rnmap.Service.Pattern.Meaning.{Tables, IsDocumented, find}
use rnmap.Service.Header.{lower}

-- Tables of ASCII alone.
abbrev pub ascii : Tables
ascii = record { is_digit = is_digit; fold = lower }

unfoldable pub documented : Regex
unfolding find
documented pattern s = find ascii pattern s

pub documented-IsDocumented : IsDocumented documented
unfolding find documented
documented-IsDocumented = record {
  tables = ascii;
  unicode = record { ascii_digit = λ c h. refl; ascii_fold = λ c h. refl };
  finds = λ pattern s. refl;
}
