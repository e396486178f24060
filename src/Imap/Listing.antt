-- ===== src/Imap/Listing.antt =====
-- internal/imap/mailbox_list.go and the mailbox names of internal/imap/mailbox.go: the LIST command. A
-- name is the list of its bytes; the comparison of texts without regard to case is a parameter. A
-- name and a pattern stand for the texts from the two indices of the loop on.
pub mod Wildcards
pub mod Reference
use yunt.Prelude.{
  ℕ, ◌+◌, Bool, true, false, not, ◌&&◌, ◌||◌, List, [], ◌∷◌, ◌++◌, leb, ◌==◌, if◌then◌else◌,
}

abbrev pub Bytes : Type 0
Bytes = List ℕ

abbrev pub mailbox_hierarchy_separator : ℕ
mailbox_hierarchy_separator = b'/'

abbrev pub inbox : Bytes
inbox = b'I' ∷ b'N' ∷ b'B' ∷ b'O' ∷ b'X' ∷ []

abbrev pub sent : Bytes
sent = b'S' ∷ b'e' ∷ b'n' ∷ b't' ∷ []

abbrev pub drafts : Bytes
drafts = b'D' ∷ b'r' ∷ b'a' ∷ b'f' ∷ b't' ∷ b's' ∷ []

abbrev pub trash : Bytes
trash = b'T' ∷ b'r' ∷ b'a' ∷ b's' ∷ b'h' ∷ []

abbrev pub spam : Bytes
spam = b'S' ∷ b'p' ∷ b'a' ∷ b'm' ∷ []

-- `==` on texts
unfoldable pub text_eq : Bytes → Bytes → Bool
text_eq [] [] = true
text_eq [] (d ∷ t) = false
text_eq (c ∷ s) [] = false
text_eq (c ∷ s) (d ∷ t) = (c == d) && text_eq s t

abbrev lowered : ℕ → ℕ
lowered c = if leb b'A' c && leb c b'Z' then c + 32 else c

unfoldable pub equal_fold_char : ℕ → ℕ → Bool
equal_fold_char a b = (a == b) || (lowered a == lowered b)

-- `strings.HasPrefix`
unfoldable pub has_prefix : Bytes → Bytes → Bool
has_prefix s [] = true
has_prefix [] (d ∷ t) = false
has_prefix (c ∷ s) (d ∷ t) = (c == d) && has_prefix s t

-- `strings.ContainsAny(s, "*%")`
unfoldable pub has_wildcard : Bytes → Bool
has_wildcard [] = false
has_wildcard (c ∷ s) = (c == b'*') || (c == b'%') || has_wildcard s

unfoldable pub match_wildcard : Bytes → Bytes → Bool
unfolding equal_fold_char
match_wildcard [] [] = true
match_wildcard (n ∷ name) [] = false
match_wildcard [] (c ∷ pattern) =
    let none_taken = match_wildcard [] pattern in
    if (c == b'*') || (c == b'%') then none_taken else false
match_wildcard (n ∷ name) (c ∷ pattern) =
    let none_taken = match_wildcard (n ∷ name) pattern in
    let one_taken = match_wildcard name (c ∷ pattern) in
    let next = match_wildcard name pattern in
    if c == b'*'
    then none_taken || one_taken
    else if c == b'%'
    then none_taken || (not (n == mailbox_hierarchy_separator) && one_taken)
    else equal_fold_char n c && next

-- The attributes of special use that the server gives a mailbox.
pub data MailboxAttr : Type 0 where
  attr_sent attr_drafts attr_trash attr_junk : MailboxAttr

pub record MailboxInfo : Type 0 where
  pub name : Bytes
  pub attributes : List MailboxAttr
  pub is_system : Bool

pub record ListOptions : Type 0 where
  pub select_special_use : Bool

abbrev is_nil {ℓ} : {A : Type ℓ} → List A → Bool
is_nil [] = true
is_nil (x ∷ xs) = false

abbrev pub joined : Bytes → Bytes → Bytes
joined ref name = ref ++ mailbox_hierarchy_separator ∷ name

module _ (equal_fold : Bytes → Bytes → Bool) where
  unfoldable pub normalize_mailbox_name : Bytes → Bytes
  normalize_mailbox_name name = if equal_fold name inbox then inbox else name

  unfoldable pub is_system_mailbox : Bytes → Bool
  unfolding text_eq
  is_system_mailbox name =
      equal_fold name inbox
      || text_eq name inbox
      || text_eq name sent
      || text_eq name drafts
      || text_eq name trash
      || text_eq name spam

  unfoldable pub get_mailbox_attributes : Bytes → List MailboxAttr
  unfolding text_eq
  get_mailbox_attributes name =
      if equal_fold name inbox
      then []
      else if text_eq name sent
      then attr_sent ∷ []
      else if text_eq name drafts
      then attr_drafts ∷ []
      else if text_eq name trash
      then attr_trash ∷ []
      else if text_eq name spam
      then attr_junk ∷ []
      else []

  unfoldable pub new_mailbox_info : Bytes → MailboxInfo
  unfolding normalize_mailbox_name get_mailbox_attributes is_system_mailbox
  new_mailbox_info mailbox_name =
      let name = normalize_mailbox_name mailbox_name in
      record {
        name = name;
        attributes = get_mailbox_attributes name;
        is_system = is_system_mailbox name;
      }

  matched : Bytes → Bytes → Bool
  unfolding has_wildcard match_wildcard
  matched name full_pattern =
      if not (has_wildcard full_pattern)
      then equal_fold name full_pattern
      else match_wildcard name full_pattern

  unfoldable pub match_mailbox_pattern : Bytes → Bytes → Bytes → Bool
  unfolding matched has_prefix normalize_mailbox_name
  match_mailbox_pattern name ref pattern = matched (normalize_mailbox_name name) (
      normalize_mailbox_name
        (if not (is_nil ref) && not (has_prefix pattern ref) then joined ref pattern else pattern))

  -- The inner loop of `filterMailboxes`: whether the mailbox is added.
  unfoldable matches_any : ListOptions → MailboxInfo → Bytes → Bytes → List Bytes → Bool
  unfolding match_mailbox_pattern
  matches_any options info full_path ref [] = false
  matches_any options info full_path ref (pattern ∷ patterns) =
      let later = matches_any options info full_path ref patterns in
      if match_mailbox_pattern full_path ref pattern
      then if options.select_special_use && is_nil info.attributes then later else true
      else later

  abbrev pub full_path_of : Bytes → MailboxInfo → Bytes
  full_path_of ref info = if not (is_nil ref) then joined ref info.name else info.name

  -- All of the attributes are of special use, so their filter keeps them.
  unfoldable pub filter_mailboxes : List Bytes → Bytes → List Bytes → ListOptions → List MailboxInfo
  unfolding matches_any new_mailbox_info
  filter_mailboxes [] ref patterns options = []
  filter_mailboxes (mailbox ∷ mailboxes) ref patterns options =
      let info = new_mailbox_info mailbox in
      let rest = filter_mailboxes mailboxes ref patterns options in
      if matches_any options info (full_path_of ref info) ref patterns then info ∷ rest else rest
