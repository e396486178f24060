-- ===== src/Examples/Listings.antt =====
-- LIST of internal/imap.
use yunt.Prelude.{
  Bool, false, ◌||◌, ◌==◌, Bool-cases, inl, inr, sym, ap, ◌∙◌, arith, ◌≡◌, ◌↔◌, refl, true, [], ◌∷◌,
}
use yunt.Imap.Listing.{
  Bytes, text_eq, match_wildcard, has_wildcard, has_prefix, joined, inbox, filter_mailboxes,
}
use yunt.Imap.Listing.Wildcards.{Matches, match_wildcard_iff}
use yunt.Imap.Listing.Reference.{FoldsInbox, reference_selects_nothing}

abbrev work_new : Bytes
work_new = b'w' ∷ b'/' ∷ b'n' ∷ []

abbrev percent_new : Bytes
percent_new = b'%' ∷ b'/' ∷ b'N' ∷ []

match_wildcard_iff_example :
    (match_wildcard work_new percent_new ≡ true) ↔ Matches work_new percent_new
match_wildcard_iff_example = match_wildcard_iff work_new percent_new

text_eq_sound : (s t : Bytes) → text_eq s t ≡ true → s ≡ t
unfolding text_eq
text_eq_sound [] [] h = refl
text_eq_sound [] (d ∷ t) h = absurd (ground arith)
text_eq_sound (c ∷ s) [] h = absurd (ground arith)
text_eq_sound (c ∷ s) (d ∷ t) h =
    let same : c ≡ d = ground arith in
    let rest : s ≡ t = text_eq_sound s t (ground arith) in λ i. same i ∷ rest i

-- A text of which a test tells INBOX apart is not INBOX.
apart_from_inbox :
    (test : Bytes → Bool) (s : Bytes) → test inbox ≡ false → test s ≡ true → text_eq s inbox ≡ false
apart_from_inbox test s misses hits = elim (Bool-cases (text_eq s inbox)) [
  | inr h ↦ h
  | inl h ↦ absurd (ground (arith, misses, sym hits ∙ ap test (text_eq_sound s inbox h)))
]

has_separator : Bytes → Bool
has_separator [] = false
has_separator (c ∷ s) = (c == b'/') || has_separator s

has_separator-joined : (s t : Bytes) → has_separator (joined s t) ≡ true
unfolding has_separator
has_separator-joined [] t = refl
has_separator-joined (c ∷ s) t = ground (arith, has_separator-joined s t)

folds : FoldsInbox text_eq
folds = record {
  no_wildcard = λ s h. apart_from_inbox has_wildcard s (unfold has_wildcard in refl) h;
  no_separator = λ s t.
      apart_from_inbox has_separator (joined s t) (unfold has_separator in refl)
        (has_separator-joined s t);
}

-- The mailboxes `w/n` and `n` are listed below the reference `z`.
reference_selects_nothing_example :
    filter_mailboxes text_eq
      (work_new ∷ (b'n' ∷ []) ∷ [])
      (b'z' ∷ [])
      ((b'*' ∷ []) ∷ [])
      (record { select_special_use = false })
    ≡ filter_mailboxes text_eq
        (work_new ∷ (b'n' ∷ []) ∷ [])
        []
        ((b'*' ∷ []) ∷ [])
        (record { select_special_use = false })
unfolding has_wildcard has_prefix
reference_selects_nothing_example =
    reference_selects_nothing text_eq folds b'z' [] (work_new ∷ (b'n' ∷ []) ∷ []) ((b'*' ∷ []) ∷ [])
      (record { select_special_use = false }) refl ((refl, refl), tt)
