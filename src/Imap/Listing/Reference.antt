-- ===== src/Imap/Listing/Reference.antt =====
-- The reference name of LIST.
use yunt.Prelude.{List, ℕ, ◌≡◌, refl, ◌∙◌, Bool, true, false, ◌||◌, [], ◌∷◌, ◌++◌, arith}
use yunt.Imap.Listing.{
  Bytes, mailbox_hierarchy_separator, equal_fold_char, match_wildcard, has_wildcard, has_prefix,
  inbox, joined, match_mailbox_pattern, normalize_mailbox_name, matches_any, new_mailbox_info,
  filter_mailboxes, ListOptions, MailboxInfo,
}

match_wildcard-append :
    (ref name pattern : Bytes)
    → has_wildcard ref ≡ false
    → match_wildcard (ref ++ name) (ref ++ pattern) ≡ match_wildcard name pattern
unfolding match_wildcard has_wildcard equal_fold_char
match_wildcard-append [] name pattern h = refl
match_wildcard-append (c ∷ ref) name pattern h =
    ground (arith, match_wildcard-append ref name pattern)

has_wildcard-append : (s t : Bytes) → has_wildcard (s ++ t) ≡ has_wildcard s || has_wildcard t
unfolding has_wildcard
has_wildcard-append [] t = refl
has_wildcard-append (c ∷ s) t = ground (arith, has_wildcard-append s t)

match_wildcard-joined :
    (ref name pattern : Bytes)
    → has_wildcard ref ≡ false
    → match_wildcard (joined ref name) (joined ref pattern) ≡ match_wildcard name pattern
match_wildcard-joined ref name pattern h =
    match_wildcard-append ref (mailbox_hierarchy_separator ∷ name)
      (mailbox_hierarchy_separator ∷ pattern) h
    ∙ match_wildcard-append (mailbox_hierarchy_separator ∷ []) name pattern
        (unfold has_wildcard in refl)

has_wildcard-joined :
    (ref pattern : Bytes) → has_wildcard pattern ≡ true → has_wildcard (joined ref pattern) ≡ true
has_wildcard-joined ref pattern h = ground (
  arith,
  has_wildcard-append ref (mailbox_hierarchy_separator ∷ pattern),
  has_wildcard-append (mailbox_hierarchy_separator ∷ []) pattern,
)

-- A pattern with a wildcard that does not begin with the reference
abbrev pub IsBelow : Bytes → Bytes → Type 0
IsBelow ref pattern = (has_wildcard pattern ≡ true) × (has_prefix pattern ref ≡ false)

abbrev pub AllBelow : Bytes → List Bytes → Type 0
AllBelow ref [] = Unit
AllBelow ref (pattern ∷ patterns) = IsBelow ref pattern × AllBelow ref patterns

-- Texts that are INBOX but for case have no wildcard and no separator.
pub record FoldsInbox (equal_fold : Bytes → Bytes → Bool) : Type 0 where
  pub no_wildcard : (s : Bytes) → has_wildcard s ≡ true → equal_fold s inbox ≡ false
  pub no_separator : (s t : Bytes) → equal_fold (joined s t) inbox ≡ false

module _ (equal_fold : Bytes → Bytes → Bool) (folds : FoldsInbox equal_fold) where
  match_mailbox_pattern-joined :
      (c : ℕ) (ref name pattern : Bytes)
      → has_wildcard (c ∷ ref) ≡ false
      → IsBelow (c ∷ ref) pattern
      → normalize_mailbox_name equal_fold name ≡ name
      → match_mailbox_pattern equal_fold (joined (c ∷ ref) name) (c ∷ ref) pattern
        ≡ match_mailbox_pattern equal_fold name [] pattern
  unfolding match_mailbox_pattern
  match_mailbox_pattern-joined c ref name pattern plain (wild, apart) normal = rw normal (
      ground (
        arith,
        folds.no_wildcard pattern wild,
        folds.no_separator (c ∷ ref) name,
        folds.no_separator (c ∷ ref) pattern,
        has_wildcard-joined (c ∷ ref) pattern wild,
        match_wildcard-joined (c ∷ ref) name pattern plain,
      ))

  matches_any-joined :
      (c : ℕ) (ref : Bytes) (patterns : List Bytes) (options : ListOptions) (info : MailboxInfo)
      → has_wildcard (c ∷ ref) ≡ false
      → AllBelow (c ∷ ref) patterns
      → normalize_mailbox_name equal_fold info.name ≡ info.name
      → matches_any equal_fold options info (joined (c ∷ ref) info.name) (c ∷ ref) patterns
        ≡ matches_any equal_fold options info info.name [] patterns
  unfolding matches_any
  matches_any-joined c ref [] options info plain all_below normal = refl
  matches_any-joined c ref (pattern ∷ patterns) options info plain (below, later) normal =
      rw
        (
          match_mailbox_pattern-joined c ref info.name pattern plain below normal,
          matches_any-joined c ref patterns options info plain later normal,
        )
        refl

  name_is_normal :
      (name : Bytes)
      → normalize_mailbox_name equal_fold (new_mailbox_info equal_fold name).name
        ≡ (new_mailbox_info equal_fold name).name
  unfolding new_mailbox_info normalize_mailbox_name
  name_is_normal name = ground arith

  -- Where the reference has no wildcard, and every pattern has one and does not begin with the
  -- reference, LIST with the reference lists the same mailboxes as LIST without any, whether they
  -- are below the reference or not. This is for a comparison under which no text with a wildcard or
  -- a separator is INBOX.
  pub reference_selects_nothing :
      (c : ℕ) (ref : Bytes) (mailboxes patterns : List Bytes) (options : ListOptions)
      → has_wildcard (c ∷ ref) ≡ false
      → AllBelow (c ∷ ref) patterns
      → filter_mailboxes equal_fold mailboxes (c ∷ ref) patterns options
        ≡ filter_mailboxes equal_fold mailboxes [] patterns options
  unfolding filter_mailboxes
  reference_selects_nothing c ref [] patterns options plain all_below = refl
  reference_selects_nothing c ref (mailbox ∷ mailboxes) patterns options plain all_below =
      rw
        (
          matches_any-joined c ref patterns options (new_mailbox_info equal_fold mailbox) plain
              all_below (name_is_normal mailbox),
          reference_selects_nothing c ref mailboxes patterns options plain all_below,
        )
        refl
