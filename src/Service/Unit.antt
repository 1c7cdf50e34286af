-- ===== src/Service/Unit.antt =====
-- crates/rnmap-core/src/service.rs: the unit tests, for any search for regular expressions.
use rnmap.Base.{◌≡◌, refl, Bool, true, false, ◌&&◌, [], ◌∷◌, ◌++◌, Option, none, some, All}
use rnmap.Text.{Text, codes, text_eq}
use rnmap.Service.{guess_from_banner}
use rnmap.Service.Pattern.{Regex}
use rnmap.Service.Pattern.Meaning.{find}
use rnmap.Service.Documented.{documented}

-- `as_deref()` against `Some` of a text.
abbrev is_text : Option Text → Text → Bool
is_text none s = false
is_text (some t) s = text_eq t s

module _ (regex : Regex) where
  abbrev ssh_banner : Bool
  unfolding guess_from_banner
  ssh_banner =
      let g =
        guess_from_banner regex 22
          (codes "SSH-2.0-OpenSSH_9.9p1 Ubuntu-3ubuntu3.2" ++ 13 ∷ 10 ∷ []) in
      text_eq g.name (codes "ssh")
      && is_text g.product (codes "OpenSSH")
      && is_text g.version (codes "9.9p1")

  abbrev http_banner : Bool
  unfolding guess_from_banner
  http_banner =
      let resp =
        codes "HTTP/1.1 200 OK"
        ++ 13
          ∷ 10
          ∷ (codes "Server: nginx/1.25.3"
              ++ 13 ∷ 10 ∷ (codes "Content-Length: 0" ++ 13 ∷ 10 ∷ 13 ∷ 10 ∷ [])) in
      let g = guess_from_banner regex 80 resp in
      text_eq g.name (codes "http")
      && is_text g.product (codes "nginx")
      && is_text g.version (codes "1.25.3")

  abbrev ftp_banner : Bool
  unfolding guess_from_banner
  ftp_banner =
      text_eq (guess_from_banner regex 21 (codes "220 vsftpd 3.0.5 ready." ++ 13 ∷ 10 ∷ [])).name
        (codes "ftp")

  abbrev unknown_port_no_banner : Bool
  unfolding guess_from_banner
  unknown_port_no_banner = text_eq (guess_from_banner regex 31337 []).name (codes "unknown")

  abbrev fallback_by_port : Bool
  unfolding guess_from_banner
  fallback_by_port =
      text_eq (guess_from_banner regex 443 []).name (codes "https")
      && text_eq (guess_from_banner regex 3389 []).name (codes "rdp")
      && text_eq (guess_from_banner regex 5432 []).name (codes "postgresql")

unit_tests :
    All
      (λ (test : Bool). test ≡ true)
      (ssh_banner documented
        ∷ http_banner documented
        ∷ ftp_banner documented
        ∷ unknown_port_no_banner documented
        ∷ fallback_by_port documented
        ∷ [])
unfolding ssh_banner http_banner ftp_banner unknown_port_no_banner fallback_by_port
    guess_from_banner find documented
unit_tests = (refl, (refl, (refl, (refl, (refl, tt)))))
