-- ===== src/Service/Product.antt =====
-- The split of a detail into product and version, and the report of a banner.
use rnmap.Base.{
  ℕ, ◌≡◌, ◌≢◌, append_assoc, refl, ◌∙◌, false, [], ◌∷◌, ◌++◌, some, ap, arith, is_empty, All-append,
}
use rnmap.Text.{Text}
use rnmap.Text.Space.{
  is_whitespace, IsDense, trim, trim-dense, first_word, first_word-dense, IsApart,
  first_word-append, trim_start_matches, trim_end_matches, Leaves, append-Leaves, trim_end-IsDense,
  trim-append, trim_end-IsApart, All-trim_end,
}
use rnmap.Text.Split.{Lacks, split_once-append, split_once-Lacks}
use rnmap.Service.{word_or_empty, by_splits, split_at_space, split_product_version, detail_version}

word_or_empty-dense : (s : Text) → IsDense s → word_or_empty s ≡ s
unfolding word_or_empty
word_or_empty-dense [] h = unfold first_word in refl
word_or_empty-dense (c ∷ s) h = rw (first_word-dense (c ∷ s) h (λ e. cc), word_or_empty) refl

append-not_empty : (p : Text) (c : ℕ) (v : Text) → is_empty (p ++ c ∷ v) ≡ false
append-not_empty [] c v = refl
append-not_empty (d ∷ p) c v = refl

-- `product_version`, without white space, is split at its first underscore.
pub split_product_version-bar :
    (p v : Text)
    → IsDense p
    → IsDense v
    → Lacks b'_' p
    → split_product_version (p ++ b'_' ∷ v) ≡ (some p, some v)
unfolding split_product_version by_splits
split_product_version-bar p v hp hv no_bar =
    rw
      (
        trim-dense (p ++ b'_' ∷ v) (All-append _ p _ hp (unfold is_whitespace in refl, hv)),
        append-not_empty p b'_' v,
        split_once-append b'_' p v no_bar,
        word_or_empty-dense v hv,
      )
      refl

word_or_empty-append :
    (s rest : Text) → IsDense s → s ≢ [] → IsApart rest → word_or_empty (s ++ rest) ≡ s
unfolding word_or_empty
word_or_empty-append s rest h ne apart =
    rw (first_word-append s rest h ne apart, word_or_empty) refl

pub slash-ne-nil : (p v : Text) → (p ++ b'/' ∷ v) ≢ []
slash-ne-nil [] v e = cc
slash-ne-nil (c ∷ p) v e = cc

-- `product/version`, perhaps with a remark behind white space, is split at its first slash, if no
-- underscore is in it.
pub split_product_version-slash :
    (p v remark : Text)
    → IsDense p
    → IsDense v × (v ≢ [])
    → IsApart remark
    → Lacks b'_' p × Lacks b'_' v × Lacks b'_' remark
    → Lacks b'/' p
    → split_product_version ((p ++ b'/' ∷ v) ++ remark) ≡ (some p, some v)
unfolding split_product_version by_splits
split_product_version-slash p v remark hp (hv, filled) apart (bar_p, bar_v, bar_r) no_slash =
    let kept = trim_end_matches is_whitespace remark in
    let bar_kept = All-trim_end (λ c. c ≢ b'_') is_whitespace remark bar_r in
    rw
      (
        trim-append (p ++ b'/' ∷ v) remark (All-append _ p _ hp (unfold is_whitespace in refl, hv))
            (slash-ne-nil p v),
        append_assoc,
        append-not_empty p b'/' (v ++ kept),
        split_once-Lacks b'_' (p ++ b'/' ∷ (v ++ kept))
            (All-append _ p _ bar_p (omega arith, All-append _ v _ bar_v bar_kept)),
        split_once-append b'/' p (v ++ kept) no_slash,
        word_or_empty-append v kept hv filled (trim_end-IsApart remark apart),
      )
      refl

-- So it is as a detail, whose ends have been trimmed.
pub detail_version-slash :
    (p v remark : Text)
    → IsDense p
    → IsDense v × (v ≢ [])
    → IsApart remark
    → Lacks b'_' p × Lacks b'_' v × Lacks b'_' remark
    → Lacks b'/' p
    → detail_version (some (trim ((p ++ b'/' ∷ v) ++ remark))) ≡ (some p, some v)
unfolding detail_version
detail_version-slash p v remark hp (hv, filled) apart (bar_p, bar_v, bar_r) no_slash =
    let whole = All-append _ p _ hp (unfold is_whitespace in refl, hv) in
    rw (trim-append (p ++ b'/' ∷ v) remark whole (slash-ne-nil p v)) (
      split_product_version-slash p v (trim_end_matches is_whitespace remark) hp (hv, filled)
        (trim_end-IsApart remark apart)
        (bar_p, bar_v, All-trim_end (λ c. c ≢ b'_') is_whitespace remark bar_r) no_slash)

split_at_space-append :
    (s rest : Text) → IsDense s → split_at_space (s ++ b' ' ∷ rest) ≡ some (s, b' ' ∷ rest)
unfolding split_at_space
split_at_space-append [] rest h = unfold is_whitespace in refl
split_at_space-append (c ∷ s) rest h = rw (h.0, split_at_space-append s rest h.1) refl

solid-Leaves : (v : Text) → IsDense v → v ≢ [] → Leaves is_whitespace v v
solid-Leaves [] h ne = absurd (ne refl)
solid-Leaves (c ∷ v) h ne = (trim_end-IsDense (c ∷ v) h, ap is_empty (trim_end-IsDense (c ∷ v) h))

trim-space : (v : Text) → IsDense v → trim (b' ' ∷ v) ≡ v
trim-space v h = skip ∙ trim-dense v h
  where
    skip : trim (b' ' ∷ v) ≡ trim v
    skip = unfold trim trim_start_matches is_whitespace in refl

trim-two :
    (p v : Text)
    → IsDense p × (p ≢ [])
    → IsDense v × (v ≢ [])
    → trim (p ++ b' ' ∷ v) ≡ p ++ b' ' ∷ v
trim-two p v (hp, p_filled) (hv, v_filled) =
    let kept = append-Leaves is_whitespace (b' ' ∷ []) v v (solid-Leaves v hv v_filled) in
    trim-append p (b' ' ∷ v) hp p_filled ∙ ap (λ s. p ++ s) kept.0

-- Two words are split at the space between them, if they have no underscore and no slash.
split_product_version-space :
    (p v : Text)
    → IsDense p × (p ≢ [])
    → IsDense v × (v ≢ [])
    → Lacks b'_' p × Lacks b'_' v
    → Lacks b'/' p × Lacks b'/' v
    → split_product_version (p ++ b' ' ∷ v) ≡ (some p, some v)
unfolding split_product_version by_splits
split_product_version-space p v (hp, p_filled) (hv, v_filled) bar slash =
    rw
      (
        trim-two p v (hp, p_filled) (hv, v_filled),
        append-not_empty p b' ' v,
        split_once-Lacks b'_' (p ++ b' ' ∷ v) (All-append _ p _ bar.0 (omega arith, bar.1)),
        split_once-Lacks b'/' (p ++ b' ' ∷ v) (All-append _ p _ slash.0 (omega arith, slash.1)),
        split_at_space-append p v hp,
        trim-space v hv,
        word_or_empty-dense v hv,
      )
      refl

pub detail_version-space :
    (p v : Text)
    → IsDense p × (p ≢ [])
    → IsDense v × (v ≢ [])
    → Lacks b'_' p × Lacks b'_' v
    → Lacks b'/' p × Lacks b'/' v
    → detail_version (some (trim (p ++ b' ' ∷ v))) ≡ (some p, some v)
unfolding detail_version
detail_version-space p v hp hv bar slash =
    rw (trim-two p v hp hv) (split_product_version-space p v hp hv bar slash)
