-- ===== src/Service/Mysql.antt =====
-- MySQL servers: what is reported of a server by its greeting, the packet with which the protocol begins.
use rnmap.Base.{
  ℕ, ◌≡◌, ◌≢◌, refl, ap, ◌∙◌, true, false, ◌||◌, [], ◌∷◌, ◌++◌, none, some, ok, arith, ◌==◌,
  if◌then◌else◌, drop, Bytes, Bool-cases, inl, inr, and_false,
}
use rnmap.Text.{Text, codes, text_eq}
use rnmap.Text.Space.{append-Leaves, cons-Leaves}
use rnmap.Text.Utf8.{from_utf8_lossy, shown, from_utf8_lossy-nul, from_utf8_lossy-ascii}
use rnmap.Report.{ServiceInfo}
use rnmap.Service.Pattern.{Regex, ssh, ftp, smtp, mysql, redis, postgres, vnc}
use rnmap.Service.Pattern.Meaning.{
  Tables, IsDocumented, each, first, find, matches, step, take_one, take_text, fits,
}
use rnmap.Service.Pattern.Search.{find-text_start, find-literal-none}
use rnmap.Service.Later.{IsOther, vnc-IsOther}
use rnmap.Service.Dialogue.{Stream, detect, collect}
use rnmap.Service.Shown.{without_nul, reported, detect-decoded}
use rnmap.Service.{
  guess, is_some, guess_from_banner, guess_ssh, guess_mail, guess_store, looks_http,
}

-- Three bytes for the length, which is below 256, the sequence number 0, and the protocol's version,
-- 10; then the version of the server and more.
abbrev pub greeting : ℕ → Bytes → Bytes
greeting size rest = size ∷ 0 ∷ 0 ∷ 0 ∷ 10 ∷ rest

module _ (tables : Tables) (c : ℕ) (r : Text) where
  find-mysql-none : find tables mysql (c ∷ 0 ∷ 0 ∷ 0 ∷ 10 ∷ r) ≡ none
  unfolding matches step take_one take_text fits each first
  find-mysql-none =
      find-text_start tables (drop 1 mysql) (c ∷ 0 ∷ 0 ∷ 0 ∷ 10 ∷ r)
      ∙ elim (Bool-cases (c == 10)) [ inl h ↦ rw h refl | inr h ↦ rw h refl ]

  find-ssh-none : find tables ssh (c ∷ 0 ∷ 0 ∷ 0 ∷ 10 ∷ r) ≡ none
  find-ssh-none = find-literal-none tables (codes "SSH-") (drop 2 ssh) _ (and_false (c == b'S'))

  find-ftp-none : find tables ftp (c ∷ 0 ∷ 0 ∷ 0 ∷ 10 ∷ r) ≡ none
  find-ftp-none = find-literal-none tables (codes "220") (drop 2 ftp) _ (and_false (c == b'2'))

  find-smtp-none : find tables smtp (c ∷ 0 ∷ 0 ∷ 0 ∷ 10 ∷ r) ≡ none
  find-smtp-none = find-literal-none tables (codes "220") (drop 2 smtp) _ (and_false (c == b'2'))

module _ (regex : Regex) (documented : IsDocumented regex) (c : ℕ) (r : Text) (port : ℕ)
    (plain : looks_http (c ∷ 0 ∷ 0 ∷ 0 ∷ 10 ∷ r) ≡ false) where
  guess-store :
      guess_from_banner regex port (c ∷ 0 ∷ 0 ∷ 0 ∷ 10 ∷ r)
      ≡ guess_store regex port (c ∷ 0 ∷ 0 ∷ 0 ∷ 10 ∷ r)
  unfolding guess_from_banner guess_ssh guess_mail
  guess-store =
      rw
        (
          documented.finds ssh (c ∷ 0 ∷ 0 ∷ 0 ∷ 10 ∷ r),
          find-ssh-none documented.tables c r,
          plain,
          documented.finds ftp (c ∷ 0 ∷ 0 ∷ 0 ∷ 10 ∷ r),
          find-ftp-none documented.tables c r,
          documented.finds smtp (c ∷ 0 ∷ 0 ∷ 0 ∷ 10 ∷ r),
          find-smtp-none documented.tables c r,
        )
        refl

  guess-at_port :
      port ≡ 3306
      → guess_from_banner regex port (c ∷ 0 ∷ 0 ∷ 0 ∷ 10 ∷ r)
        ≡ guess (codes "mysql") (some (codes "MySQL"), none)
  unfolding guess_store
  guess-at_port here =
      guess-store
      ∙ rw
          (
            here,
            documented.finds mysql (c ∷ 0 ∷ 0 ∷ 0 ∷ 10 ∷ r),
            find-mysql-none documented.tables c r,
          )
          refl

  elsewhere-IsOther :
      port ≢ 3306
      → IsOther (codes "mysql") (guess_from_banner regex port (c ∷ 0 ∷ 0 ∷ 0 ∷ 10 ∷ r)).name
  unfolding guess_store guess
  elsewhere-IsOther away =
      let t = c ∷ 0 ∷ 0 ∷ 0 ∷ 10 ∷ r in
      let no_port : (port == 3306) ≡ false = ground arith in
      rw (guess-store, documented.finds mysql t, find-mysql-none documented.tables c r, no_port)
        (elim (Bool-cases (is_some (regex redis t) || port == 6379)) [
          | inl h ↦ rw h refl
          | inr b ↦ rw b (elim (Bool-cases (is_some (regex postgres t) || port == 5432)) [
            | inl h ↦ rw h refl
            | inr d ↦ rw d (vnc-IsOther (codes "mysql") (ground arith) regex port t (regex vnc t))
          ])
        ])

  guess-name :
      (text_eq (guess_from_banner regex port (c ∷ 0 ∷ 0 ∷ 0 ∷ 10 ∷ r)).name (codes "mysql")
        ≡ (port == 3306))
      × ((if text_eq (guess_from_banner regex port (c ∷ 0 ∷ 0 ∷ 0 ∷ 10 ∷ r)).name (codes "mysql")
            then (guess_from_banner regex port (c ∷ 0 ∷ 0 ∷ 0 ∷ 10 ∷ r)).version
            else none)
          ≡ none)
  unfolding guess
  guess-name = elim (Bool-cases (port == 3306)) [
    | inl here ↦ rw (guess-at_port (ground arith), here) (refl, refl)
    | inr away ↦ rw (elsewhere-IsOther (ground arith), away) (refl, refl)
  ]

module _ (size : ℕ) (rest : Bytes) where
  -- The greeting as a text, without the NULs at its end.
  abbrev pub greeting_text : Text
  greeting_text = shown size ∷ 0 ∷ 0 ∷ 0 ∷ 10 ∷ without_nul (from_utf8_lossy rest)

  decode-greeting :
      from_utf8_lossy (greeting size rest)
      ≡ (shown size ∷ 0 ∷ 0 ∷ 0 ∷ []) ++ 10 ∷ from_utf8_lossy rest
  decode-greeting =
      rw
        (
          from_utf8_lossy-nul,
          from_utf8_lossy-ascii 0 (0 ∷ 10 ∷ rest) refl,
          from_utf8_lossy-ascii 0 (10 ∷ rest) refl,
          from_utf8_lossy-ascii 10 rest refl,
        )
        refl

-- With a regular expression crate that is as documented, a MySQL server that greets with a packet of
-- version 10 of its protocol is reported as mysql exactly on the port 3306, and then without a version,
-- whatever version its greeting names, if no line of the greeting begins with `Server:`.
pub detect-mysql :
    (regex : Regex) (port : ℕ) (stream : Stream) (size : ℕ) (rest : Bytes)
    → IsDocumented regex
    → stream.opened ≡ true
    → stream.banner ≡ some (ok (greeting size rest))
    → looks_http (greeting_text size rest) ≡ false
    → (info : ServiceInfo) × (detect regex port stream ≡ some info)
      × (text_eq info.name (codes "mysql") ≡ (port == 3306))
      × ((if text_eq info.name (codes "mysql") then info.version else none) ≡ none)
detect-mysql regex port stream size rest documented opened banner plain =
    let r = without_nul (from_utf8_lossy rest) in
    let g = guess_from_banner regex port (greeting_text size rest) in
    (
      reported g (greeting_text size rest),
      detect-decoded regex port stream (greeting size rest) _ (greeting_text size rest) opened
          (ap (λ b. collect port stream b) banner ∙ unfold collect in refl)
          (decode-greeting size rest)
          (append-Leaves _ (shown size ∷ 0 ∷ 0 ∷ 0 ∷ []) _ _
            (cons-Leaves _ 10 (from_utf8_lossy rest) refl)),
      (guess-name regex documented (shown size) r port plain).0,
      (guess-name regex documented (shown size) r port plain).1,
    )
