-- ===== src/Service/Mailboxes.antt =====
-- `MailboxService` of internal/service/mailbox.go, with the inputs of internal/domain/mailbox.go, over the
-- table of internal/repository/sqlite/mailbox.go. `strings.ToLower`, `strings.TrimSpace`, the
-- comparison `COLLATE NOCASE` and the regular expression of addresses are parameters; the generated id and the clock's reading are arguments.
-- Transactions succeed or leave the table as it was.
pub mod Defaults
pub mod Operations
use Prim.Native.String.{len}
use yunt.Prelude.{
  ℕ, String, Bool, true, false, not, ◌&&◌, ◌||◌, Option, none, some, List, [], ◌∷◌, ◌++◌, ltb,
  if◌then◌else◌, str_eq,
}
use yunt.Prelude.Int.{ℤ, pos, negsuc}
use yunt.Domain.Mailbox.{Mailbox, new_mailbox}
use yunt.Repository.Mailboxes.{
  Rows, get_by_id, clear_default, set_default, delete_with_messages, exists_by_address, create_row,
  update_row,
}

-- What an error says; a validation error lists the fields.
pub data MailboxError : Type 0 where
  mailbox_id_required user_id_required get_failed access_denied address_exists create_failed
        update_failed system_mailbox delete_failed set_default_failed :
      MailboxError
  validation_failed : List String → MailboxError

pub record MailboxCreateInput : Type 0 where
  pub user_id : String
  pub name : String
  pub address : String
  pub description : String
  pub is_catch_all : Bool
  pub is_default : Bool
  pub retention_days : ℤ

pub record MailboxUpdateInput : Type 0 where
  pub name : Option String
  pub description : Option String
  pub is_default : Option Bool
  pub retention_days : Option ℤ

abbrev pub system_mailbox_names : List String
system_mailbox_names =
    "Inbox" ∷ "INBOX" ∷ "inbox" ∷ "Sent" ∷ "SENT" ∷ "sent" ∷ "Drafts" ∷ "DRAFTS" ∷ "drafts"
    ∷ "Trash" ∷ "TRASH" ∷ "trash" ∷ "Spam" ∷ "SPAM" ∷ "spam" ∷ "Junk" ∷ "JUNK" ∷ "junk" ∷ []

abbrev pub name_in : List String → String → Bool
name_in [] name = false
name_in (s ∷ ss) name = str_eq name s || name_in ss name

abbrev pub named_system_mailbox : String → Bool
named_system_mailbox name = name_in system_mailbox_names name

abbrev pub is_negative : ℤ → Bool
is_negative (pos n) = false
is_negative (negsuc n) = true

abbrev pub field_if : Bool → String → List String
field_if true field = field ∷ []
field_if false field = []

abbrev pub or_old {ℓ} : {A : Type ℓ} → Option A → A → A
or_old none old = old
or_old (some new) old = new

-- What an operation answers with: done, or an error.
abbrev pub Answer : Type 0
Answer = Option MailboxError

abbrev pub finish : MailboxError → Rows × Bool → Rows × Answer
finish e (rows, true) = (rows, none)
finish e (rows, false) = (rows, some e)

-- A transaction that fails leaves the table as it was.
abbrev pub transaction : MailboxError → Rows → Rows × Bool → Rows × Answer
transaction e before (rows, true) = (rows, none)
transaction e before (rows, false) = (before, some e)

-- `DeleteMailbox`, from the mailbox that was read
unfoldable pub delete_found : String → String → Option Mailbox → Rows → Rows × Answer
delete_found mailbox_id user_id none rows = (rows, some get_failed)
delete_found mailbox_id user_id (some m) rows =
    if not (str_eq m.user_id user_id)
    then (rows, some access_denied)
    else if named_system_mailbox m.name
    then (rows, some system_mailbox)
    else finish delete_failed (delete_with_messages mailbox_id rows)

unfoldable pub delete_mailbox : String → String → Rows → Rows × Answer
unfolding delete_found
delete_mailbox mailbox_id user_id rows =
    if str_eq mailbox_id ""
    then (rows, some mailbox_id_required)
    else if str_eq user_id ""
    then (rows, some user_id_required)
    else delete_found mailbox_id user_id (get_by_id mailbox_id rows) rows

unfoldable pub set_default_found : ℕ → String → String → Option Mailbox → Rows → Rows × Answer
set_default_found now mailbox_id user_id none rows = (rows, some get_failed)
set_default_found now mailbox_id user_id (some m) rows =
    if not (str_eq m.user_id user_id)
    then (rows, some access_denied)
    else transaction set_default_failed rows
        (set_default now mailbox_id (clear_default now user_id rows))

unfoldable pub set_default_mailbox : ℕ → String → String → Rows → Rows × Answer
unfolding set_default_found
set_default_mailbox now mailbox_id user_id rows =
    if str_eq mailbox_id ""
    then (rows, some mailbox_id_required)
    else if str_eq user_id ""
    then (rows, some user_id_required)
    else set_default_found now mailbox_id user_id (get_by_id mailbox_id rows) rows

-- `*input.IsDefault` where it is set
abbrev pub wants_default : MailboxUpdateInput → Bool
wants_default i = or_old i.is_default false

module _ (to_lower : String → String) (nocase : String → String → Bool)
    (trim_space : String → String) (matches_email : String → Bool) where
  -- `Normalize` of the input, and its `Validate`
  abbrev pub normalize : MailboxCreateInput → MailboxCreateInput
  normalize i = record i {
    name = trim_space i.name;
    address = trim_space (to_lower i.address);
    description = trim_space i.description;
  }

  unfoldable pub invalid_name : String → Bool
  invalid_name name = let trimmed = trim_space name in str_eq trimmed "" || ltb 100 (len trimmed)

  unfoldable pub validate_create : MailboxCreateInput → List String
  unfolding invalid_name
  validate_create i =
      let address = trim_space i.address in
      field_if (invalid_name i.name) "name"
      ++ field_if (str_eq address "" || (not i.is_catch_all && not (matches_email address)))
          "address"
      ++ field_if (is_negative i.retention_days) "retentionDays"

  unfoldable pub validate_update : MailboxUpdateInput → List String
  unfolding invalid_name
  validate_update i =
      field_if (elim i.name [ none ↦ false | some name ↦ invalid_name name ]) "name"
      ++ field_if (elim i.retention_days [ none ↦ false | some days ↦ is_negative days ])
          "retentionDays"

  -- `Apply`
  abbrev pub apply_update : ℕ → MailboxUpdateInput → Mailbox → Mailbox
  apply_update now i m = record m {
    name = elim i.name [ none ↦ m.name | some name ↦ trim_space name ];
    description = elim i.description [ none ↦ m.description | some d ↦ trim_space d ];
    is_default = or_old i.is_default m.is_default;
    retention_days = or_old i.retention_days m.retention_days;
    updated_at = now;
  }

  -- The mailbox that `CreateMailbox` makes
  abbrev pub made_mailbox : ℕ → String → MailboxCreateInput → Mailbox
  made_mailbox now id i = record (new_mailbox now id i.user_id i.name i.address) {
    description = i.description;
    is_catch_all = i.is_catch_all;
    is_default = i.is_default;
    retention_days = i.retention_days;
  }

  -- From the normalized input and the fields that are invalid on
  unfoldable pub create_checked :
      ℕ → String → MailboxCreateInput → List String → Rows → Rows × Answer
  create_checked now id i (field ∷ fields) rows = (rows, some (validation_failed (field ∷ fields)))
  create_checked now id i [] rows =
      if exists_by_address to_lower nocase i.address rows
      then (rows, some address_exists)
      else if i.is_default
      then transaction create_failed rows
          (create_row to_lower nocase (made_mailbox now id i) (clear_default now i.user_id rows))
      else finish create_failed (create_row to_lower nocase (made_mailbox now id i) rows)

  unfoldable pub create_mailbox : ℕ → String → MailboxCreateInput → Rows → Rows × Answer
  unfolding create_checked validate_create
  create_mailbox now id input rows =
      if str_eq input.user_id ""
      then (rows, some user_id_required)
      else create_checked now id (normalize input) (validate_create (normalize input)) rows

  unfoldable pub update_found :
      ℕ → String → MailboxUpdateInput → Option Mailbox → Rows → Rows × Answer
  update_found now user_id i none rows = (rows, some get_failed)
  update_found now user_id i (some m) rows =
      if not (str_eq m.user_id user_id)
      then (rows, some access_denied)
      else if wants_default i
      then transaction update_failed rows
          (update_row to_lower nocase now (apply_update now i m) (clear_default now user_id rows))
      else finish update_failed (update_row to_lower nocase now (apply_update now i m) rows)

  unfoldable pub update_checked :
      ℕ → String → String → MailboxUpdateInput → List String → Rows → Rows × Answer
  unfolding update_found
  update_checked now mailbox_id user_id i (field ∷ fields) rows =
      (rows, some (validation_failed (field ∷ fields)))
  update_checked now mailbox_id user_id i [] rows =
      update_found now user_id i (get_by_id mailbox_id rows) rows

  unfoldable pub update_mailbox : ℕ → String → String → MailboxUpdateInput → Rows → Rows × Answer
  unfolding update_checked validate_update
  update_mailbox now mailbox_id user_id i rows =
      if str_eq mailbox_id ""
      then (rows, some mailbox_id_required)
      else if str_eq user_id ""
      then (rows, some user_id_required)
      else update_checked now mailbox_id user_id i (validate_update i) rows
