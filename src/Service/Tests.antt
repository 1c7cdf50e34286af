-- ===== src/Service/Tests.antt =====
-- The theorems on servers at concrete servers, with a search that is as documented.
use mathlib.Core.List.{cons-ne-nil}
use rnmap.Base.{
  ◌≡◌, ◌≢◌, refl, true, [], ◌∷◌, ◌++◌, none, some, ok, take, arith, ◌==◌, if◌then◌else◌,
}
use rnmap.Text.{Text, codes, text_eq}
use rnmap.Text.Space.{is_whitespace, trim_end_matches}
use rnmap.Text.Utf8.{encode, from_utf8_lossy}
use rnmap.Report.{ServiceInfo}
use rnmap.Service.{guess_from_banner, looks_http}
use rnmap.Service.Documented.{documented, documented-IsDocumented}
use rnmap.Service.Mail.{guess-ne-smtp}
use rnmap.Service.Dialogue.{Stream, detect}
use rnmap.Service.Shown.{without_nul}
use rnmap.Service.Ssh.{identification, detect-ssh}
use rnmap.Service.Http.{response, detect-http}
use rnmap.Service.EmptyHeader.{field, detect-empty_header}
use rnmap.Service.Mysql.{greeting, detect-mysql}
use rnmap.Service.Vnc.{protocol, detect-vnc}

guess-ne-smtp_example :
    (guess_from_banner documented 25 (codes "220 mail.example ESMTP")).name ≢ codes "smtp"
guess-ne-smtp_example =
    guess-ne-smtp documented 25 (codes "220 mail.example ESMTP") documented-IsDocumented

abbrev greeted : Text
greeted =
    identification (codes "2") (codes "0") (codes "OpenSSH") (codes "9.9p1") (some (codes "Ubuntu"))

-- A server that speaks first.
abbrev greets : Text → Stream
greets text = record {
  opened = true;
  banner = some (ok (encode text));
  written = λ s. true;
  reply = none;
}

detect-ssh_example :
    detect documented 2222 (greets greeted)
    ≡ some (record {
      name = codes "ssh";
      product = some (codes "OpenSSH");
      version = some (codes "9.9p1");
      banner = some (take 256 greeted);
    })
unfolding is_whitespace
detect-ssh_example =
    detect-ssh documented 2222 (greets greeted) (codes "2") (codes "0") (codes "OpenSSH")
      (codes "9.9p1") (some (codes "Ubuntu")) documented-IsDocumented
      ((refl, tt), cons-ne-nil b'2' []) ((refl, tt), cons-ne-nil b'0' [])
      (ground arith, ground arith) (ground arith) (ground arith) (refl, refl)

-- A server that waits for the request.
abbrev answers : Text → Stream
answers text = record {
  opened = true;
  banner = none;
  written = λ s. true;
  reply = some (ok (encode text));
}

abbrev nginx : Text → Text
nginx rest =
    response (codes "1.1 200 OK") (codes "Date: today" ∷ []) (codes "server:") (codes " ")
      ((codes "nginx" ++ b'/' ∷ codes "1.25.3") ++ codes " (Ubuntu)") rest

detect-http_example :
    detect documented 8080 (answers (nginx (13 ∷ 10 ∷ [])))
    ≡ some (record {
      name = codes "http";
      product = some (codes "nginx");
      version = some (codes "1.25.3");
      banner = some (take 256 (nginx (without_nul (13 ∷ 10 ∷ []))));
    })
unfolding is_whitespace
detect-http_example =
    detect-http documented 8080 (answers (nginx (13 ∷ 10 ∷ []))) (codes "1.1 200 OK")
      (codes "Date: today" ∷ []) (codes "server:") (codes " ") (codes "nginx") (codes "1.25.3")
      (codes " (Ubuntu)") (13 ∷ 10 ∷ []) documented-IsDocumented refl (ground arith) (ground arith)
      (ground arith) (ground arith) (ground arith) (ground arith) (ground arith)

abbrev no_server : Text → Text
no_server rest =
    response (codes "1.0 200 OK") [] (codes "Server:") (codes " " ++ 13 ∷ 10 ∷ [])
      (field (codes "Content-Length") (codes "0")) rest

detect-empty_header_example :
    detect documented 80 (answers (no_server (13 ∷ 10 ∷ [])))
    ≡ some (record {
      name = codes "http";
      product = some (codes "Content-Length" ++ b':' ∷ []);
      version = some (codes "0");
      banner = some (take 256 (no_server (without_nul (13 ∷ 10 ∷ []))));
    })
unfolding is_whitespace
detect-empty_header_example =
    detect-empty_header documented 80 (answers (no_server (13 ∷ 10 ∷ []))) (codes "1.0 200 OK") []
      (codes "Server:") (codes " ") (codes "Content-Length") (codes "0") (13 ∷ 10 ∷ [])
      documented-IsDocumented refl (ground arith) (ground arith) (ground arith) (ground arith)
      (ground arith)

-- A server of the version 8.0, with the rest of its greeting cut short.
abbrev mysql_rest : Text
mysql_rest = codes "8.0.36" ++ 0 ∷ 8 ∷ 0 ∷ 0 ∷ 0 ∷ []

abbrev mysql_server : Stream
mysql_server = record (greets []) { banner = some (ok (greeting 74 mysql_rest)) }

detect-mysql_example :
    (info : ServiceInfo) × (detect documented 3306 mysql_server ≡ some info)
    × (text_eq info.name (codes "mysql") ≡ (3306 == 3306))
    × ((if text_eq info.name (codes "mysql") then info.version else none) ≡ none)
detect-mysql_example =
    detect-mysql documented 3306 mysql_server 74 mysql_rest documented-IsDocumented refl refl
      (unfold looks_http trim_end_matches from_utf8_lossy in refl)

detect-vnc_example :
    detect documented 5900 (greets (protocol (codes "003") (codes "008")))
    ≡ some (record {
      name = codes "vnc";
      product = some (codes "RFB");
      version = some (codes "003" ++ b'.' ∷ codes "008");
      banner = some (protocol (codes "003") (codes "008"));
    })
detect-vnc_example =
    detect-vnc documented 5900 (greets (protocol (codes "003") (codes "008"))) (codes "003")
      (codes "008") documented-IsDocumented refl (ground arith) (ground arith) refl refl
