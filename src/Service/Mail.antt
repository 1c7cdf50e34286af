-- ===== src/Service/Mail.antt =====
-- Mail servers: the pattern for FTP takes every banner that the one for SMTP would.
use rnmap.Base.{ℕ, ◌≡◌, ◌≢◌, refl, ◌||◌, Option, none, some, arith, ◌==◌, Bool-cases, inl, inr}
use rnmap.Text.{Text, codes}
use rnmap.Service.Pattern.{Regex, Captures, ssh, ftp, smtp, mysql, redis, postgres, vnc}
use rnmap.Service.Pattern.Meaning.{IsDocumented}
use rnmap.Service.Pattern.Greeting.{find-ftp-none}
use rnmap.Service.Later.{IsOther, vnc-IsOther}
use rnmap.Service.{
  guess, is_some, guess_from_banner, guess_ssh, guess_mail, guess_store, looks_http,
}

abbrev smtp_word : Text
smtp_word = codes "smtp"

module _ (regex : Regex) (port : ℕ) (banner : Text) where
  store-IsOther : IsOther smtp_word (guess_store regex port banner).name
  unfolding guess_store guess
  store-IsOther = elim (Bool-cases (is_some (regex mysql banner) || port == 3306)) [
    | inl h ↦ rw h refl
    | inr a ↦ rw a (elim (Bool-cases (is_some (regex redis banner) || port == 6379)) [
      | inl h ↦ rw h refl
      | inr b ↦ rw b (elim (Bool-cases (is_some (regex postgres banner) || port == 5432)) [
        | inl h ↦ rw h refl
        | inr c ↦ rw c (vnc-IsOther smtp_word (ground arith) regex port banner (regex vnc banner))
      ])
    ])
  ]

  mail-IsOther :
      (detail : Option (Captures ftp))
      → (detail ≡ none → regex smtp banner ≡ none)
      → IsOther smtp_word (guess_mail regex port banner detail).name
  unfolding guess_mail guess
  mail-IsOther (some (detail, end)) h = refl
  mail-IsOther none h = rw (h refl) store-IsOther

  ssh-IsOther :
      (found : Option (Captures ssh))
      → (regex ftp banner ≡ none → regex smtp banner ≡ none)
      → IsOther smtp_word (guess_ssh regex port banner found).name
  unfolding guess_ssh guess
  ssh-IsOther (some (protocol, (software, end))) h = refl
  ssh-IsOther none h = elim (Bool-cases (looks_http banner)) [
    | inl http ↦ rw http refl
    | inr other ↦ rw other (mail-IsOther (regex ftp banner) h)
  ]

-- With a regular expression crate that is as documented no banner and no port is ever guessed to be
-- SMTP: a banner that the SMTP pattern matches is taken by the FTP pattern before.
pub guess-ne-smtp :
    (regex : Regex) (port : ℕ) (banner : Text)
    → IsDocumented regex
    → (guess_from_banner regex port banner).name ≢ codes "smtp"
unfolding guess_from_banner
guess-ne-smtp regex port banner documented e =
    not_other
      (ssh-IsOther regex port banner (regex ssh banner) (find-ftp-none regex banner documented))
  where
    not_other : IsOther smtp_word (guess_ssh regex port banner (regex ssh banner)).name → ⊥
    not_other other = cc (rw e at other)
