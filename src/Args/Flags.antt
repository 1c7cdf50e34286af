-- ===== src/Args/Flags.antt =====
-- Known flags are rewritten, alone and with a value attached; other arguments are kept.
use rnmap.Base.{
  ℕ, ◌<◌, ◌≡◌, ◌≢◌, refl, ◌∙◌, ap, Bool, true, false, not, ◌&&◌, List, [], ◌∷◌, ◌++◌, ok, arith,
  ◌==◌, ltb, Bool-cases, and_false, inl, inr, All, map,
}
use mathlib.Core.List.{cons-ne-nil}
use rnmap.Text.{Text, text_eq, text_eq_sound}
use rnmap.Args.{
  len_utf8, byte_len, split_at, nmap_flags, is_flag, single_dash, dashed, attached, long_form,
  behind_dash, rewrite_long, rewrite_one, rewrite_nmap_args,
}

-- Two ASCII characters, the first of which is not a dash.
pub two_chars : Text → Bool
two_chars (a ∷ b ∷ []) = ltb a 128 && ltb b 128 && not (a == b'-')
two_chars _ = false

all_two : List Text → Bool
unfolding two_chars
all_two [] = true
all_two (f ∷ fs) = two_chars f && all_two fs

flags_two : all_two nmap_flags ≡ true
unfolding all_two nmap_flags
flags_two = refl

and_left : (a b : Bool) → (a && b) ≡ true → a ≡ true
and_left a b h = ground arith

and_right : (a b : Bool) → (a && b) ≡ true → b ≡ true
and_right a b h = ground arith

two_of_flag :
    (fs : List Text) (f : Text) → all_two fs ≡ true → is_flag fs f ≡ true → two_chars f ≡ true
unfolding all_two is_flag
two_of_flag [] f h k = ground arith
two_of_flag (g ∷ gs) f h k = elim (Bool-cases (text_eq f g)) [
  | inl same ↦ rw (text_eq_sound f g same) (and_left _ _ h)
  | inr other ↦ two_of_flag gs f (and_right _ _ h) (rw other at k)
]

-- An argument as it is meant.
pub data Arg : Type 0 where
  flag : Text → Arg
  flag_with : Text → Text → Arg
  kept : Text → Arg

-- How it is spelled in the style of nmap.
pub spell : Arg → Text
spell (flag f) = b'-' ∷ f
spell (flag_with f value) = b'-' ∷ (f ++ value)
spell (kept a) = a

-- What the parser of the command line is to see.
pub meaning : Arg → List Text
unfolding dashed
meaning (flag f) = dashed f ∷ []
meaning (flag_with f value) = dashed f ∷ value ∷ []
meaning (kept a) = a ∷ []

-- An argument without a single dash in front, or of at most two bytes, or whose two characters
-- behind the dash are ASCII and no known flag.
pub data IsKept (a : Text) : Type 0 where
  undashed : single_dash a ≡ false → IsKept a
  short : byte_len a < 3 → IsKept a
  unknown :
      (c d : ℕ) (s : Text)
      → a ≡ b'-' ∷ c ∷ d ∷ s
      → c < 128
      → d < 128
      → is_flag nmap_flags (c ∷ d ∷ []) ≡ false
      → IsKept a

-- The flags are known, and an attached value is not empty.
abbrev pub IsArg : Arg → Type 0
IsArg (flag f) = is_flag nmap_flags f ≡ true
IsArg (flag_with f value) = (is_flag nmap_flags f ≡ true) × (value ≢ [])
IsArg (kept a) = IsKept a

len_ascii : (c : ℕ) → c < 128 → len_utf8 c ≡ 1
unfolding len_utf8
len_ascii c h = ground arith

len_pos : (c : ℕ) → 0 < len_utf8 c
unfolding len_utf8
len_pos c = ground arith

split_at_two :
    (a b : ℕ) (s : Text) → a < 128 → b < 128 → split_at 2 (a ∷ b ∷ s) ≡ ok (a ∷ b ∷ [], s)
unfolding split_at
split_at_two a b s ha hb = rw (len_ascii a ha, len_ascii b hb) refl

single_dash_two : (a : ℕ) (s : Text) → a ≢ b'-' → single_dash (b'-' ∷ a ∷ s) ≡ true
unfolding single_dash
single_dash_two a s h = ground arith

single_dash_cons : (a : ℕ) (s t : Text) → single_dash (b'-' ∷ a ∷ s) ≡ single_dash (b'-' ∷ a ∷ t)
unfolding single_dash
single_dash_cons a s t = refl

rewrite_flag :
    (a b : ℕ)
    → a < 128
    → b < 128
    → a ≢ b'-'
    → is_flag nmap_flags (a ∷ b ∷ []) ≡ true
    → rewrite_one (b'-' ∷ a ∷ b ∷ []) ≡ ok (dashed (a ∷ b ∷ []) ∷ [])
unfolding rewrite_one byte_len behind_dash
rewrite_flag a b ha hb no_dash known =
    rw (len_ascii a ha, len_ascii b hb, single_dash_two a (b ∷ []) no_dash, known) refl

byte_len_long : (a b c : ℕ) (s : Text) → 3 < byte_len (b'-' ∷ a ∷ b ∷ c ∷ s)
unfolding byte_len
byte_len_long a b c s = omega (arith, len_pos a, len_pos b, len_pos c, len_pos b'-')

rewrite_attached :
    (a b : ℕ) (s : Text)
    → a < 128
    → b < 128
    → s ≢ []
    → single_dash (b'-' ∷ a ∷ b ∷ s) ≡ true
    → rewrite_one (b'-' ∷ a ∷ b ∷ s) ≡ ok (attached (b'-' ∷ a ∷ b ∷ s) (a ∷ b ∷ [], s))
rewrite_attached a b [] ha hb ne dash = absurd (ne refl)
rewrite_attached a b (c ∷ s) ha hb ne dash =
    rw (one_of (byte_len_long a b c s)) (long_of (byte_len_long a b c s))
  where
    arg : Text
    arg = b'-' ∷ a ∷ b ∷ c ∷ s

    one_of : 3 < byte_len arg → rewrite_one arg ≡ rewrite_long arg
    one_of h =
        let more : (byte_len arg == 3) ≡ false = ground arith in unfold rewrite_one in rw more refl

    long_of : 3 < byte_len arg → rewrite_long arg ≡ ok (attached arg (a ∷ b ∷ [], c ∷ s))
    long_of h =
        let more : ltb 3 (byte_len arg) ≡ true = ground arith in
        unfold rewrite_long behind_dash long_form in
        rw (more, dash, split_at_two a b (c ∷ s) ha hb) refl

two_chars_cases :
    (f : Text)
    → two_chars f ≡ true
    → (a : ℕ) × (b : ℕ) × (f ≡ a ∷ b ∷ []) × (a < 128) × (b < 128) × (a ≢ b'-')
unfolding two_chars
two_chars_cases [] h = ground arith
two_chars_cases (a ∷ []) h = ground arith
two_chars_cases (a ∷ b ∷ c ∷ f) h = ground arith
two_chars_cases (a ∷ b ∷ []) h = (a, b, refl, ground arith, ground arith, ground arith)

attached_known :
    (a b : ℕ) (value : Text)
    → is_flag nmap_flags (a ∷ b ∷ []) ≡ true
    → attached (b'-' ∷ a ∷ b ∷ value) (a ∷ b ∷ [], value) ≡ dashed (a ∷ b ∷ []) ∷ value ∷ []
unfolding attached
attached_known a b value known = rw known refl

attached_unknown :
    (a b : ℕ) (value : Text)
    → is_flag nmap_flags (a ∷ b ∷ []) ≡ false
    → attached (b'-' ∷ a ∷ b ∷ value) (a ∷ b ∷ [], value) ≡ (b'-' ∷ a ∷ b ∷ value) ∷ []
unfolding attached
attached_unknown a b value no_flag = rw no_flag refl

rewrite_undashed : (a : Text) → single_dash a ≡ false → rewrite_one a ≡ ok (a ∷ [])
unfolding rewrite_one rewrite_long
rewrite_undashed a h =
    rw (h, and_false (byte_len a == 3)) (rw (and_false (ltb 3 (byte_len a))) refl)

rewrite_short : (a : Text) → byte_len a < 3 → rewrite_one a ≡ ok (a ∷ [])
unfolding rewrite_one rewrite_long
rewrite_short a h =
    let not_three : (byte_len a == 3) ≡ false = ground arith in
    let not_more : ltb 3 (byte_len a) ≡ false = ground arith in rw (not_three, not_more) refl

rewrite_unknown :
    (c d : ℕ) (s : Text)
    → c < 128
    → d < 128
    → is_flag nmap_flags (c ∷ d ∷ []) ≡ false
    → single_dash (b'-' ∷ c ∷ d ∷ s) ≡ true
    → rewrite_one (b'-' ∷ c ∷ d ∷ s) ≡ ok ((b'-' ∷ c ∷ d ∷ s) ∷ [])
unfolding rewrite_one rewrite_long byte_len behind_dash
rewrite_unknown c d [] hc hd no_flag dash = rw (len_ascii c hc, len_ascii d hd, dash, no_flag) refl
rewrite_unknown c d (x ∷ s) hc hd no_flag dash =
    rewrite_attached c d (x ∷ s) hc hd (cons-ne-nil x s) dash
    ∙ ap ok (attached_unknown c d (x ∷ s) no_flag)

rewrite_kept : (a : Text) → IsKept a → rewrite_one a ≡ ok (a ∷ [])
rewrite_kept a (undashed h) = rewrite_undashed a h
rewrite_kept a (short h) = rewrite_short a h
rewrite_kept a (unknown c d s e hc hd no_flag) =
    rw e (elim (Bool-cases (single_dash (b'-' ∷ c ∷ d ∷ s))) [
      | inl dash ↦ rewrite_unknown c d s hc hd no_flag dash
      | inr other ↦ rewrite_undashed (b'-' ∷ c ∷ d ∷ s) other
    ])

rewrite_one-meaning : (arg : Arg) → IsArg arg → rewrite_one (spell arg) ≡ ok (meaning arg)
unfolding spell meaning
rewrite_one-meaning (flag f) h =
    let (a, b, both, ha, hb, no_dash) = two_chars_cases f (two_of_flag nmap_flags f flags_two h) in
    rw both (rewrite_flag a b ha hb no_dash (rw both at h))
rewrite_one-meaning (flag_with f value) h =
    let (a, b, both, ha, hb, no_dash) =
      two_chars_cases f (two_of_flag nmap_flags f flags_two h.0) in
    rw both (
      rewrite_attached a b value ha hb h.1 (single_dash_two a (b ∷ value) no_dash)
      ∙ ap ok (attached_known a b value (rw both at (h.0))))
rewrite_one-meaning (kept a) h = rewrite_kept a h

-- The meanings of all arguments, in order.
pub meanings : List Arg → List Text
unfolding meaning
meanings [] = []
meanings (a ∷ args) = meaning a ++ meanings args

-- The arguments of a command line in the style of nmap are rewritten in order: a known flag to its
-- long form, a known flag with a value attached to its long form and the value, and other arguments
-- are kept.
pub rewrite_nmap_args-meanings :
    (args : List Arg) → All IsArg args → rewrite_nmap_args (map spell args) ≡ ok (meanings args)
unfolding rewrite_nmap_args meanings
rewrite_nmap_args-meanings [] h = refl
rewrite_nmap_args-meanings (a ∷ args) h =
    rw (rewrite_one-meaning a h.0, rewrite_nmap_args-meanings args h.1) refl
