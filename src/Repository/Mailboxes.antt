-- ===== src/Repository/Mailboxes.antt =====
-- The rows and queries of internal/repository/sqlite/mailbox.go that the service of mailboxes uses. The
-- table is a map from the ids; a row's id is its key. Queries succeed. `strings.ToLower` and
-- the comparison `COLLATE NOCASE` of SQLite are parameters.
use yunt.Prelude.{
  ℕ, String, Bool, true, false, ◌&&◌, ◌||◌, Option, none, some, [], ◌∷◌, ◌==◌, if◌then◌else◌,
  str_eq,
}
use yunt.Prelude.Maps.{GoMap, lookup, insert, delete}
use yunt.Domain.Mailbox.{Mailbox}

abbrev pub Rows : Type 0
Rows = GoMap Mailbox

-- `GetByID`
unfoldable pub get_by_id : String → Rows → Option Mailbox
get_by_id id rows = elim (lookup id rows) [ none ↦ none | some m ↦ some (record m { id = id }) ]

-- `UPDATE mailboxes SET is_default = 0 … WHERE user_id = ? AND is_default = 1`
unfoldable pub clear_default : ℕ → String → Rows → Rows
clear_default now user_id [] = []
clear_default now user_id ((k, m) ∷ rows) =
    let rest = clear_default now user_id rows in
    if str_eq m.user_id user_id && m.is_default
    then (k, record m { is_default = false; updated_at = now }) ∷ rest
    else (k, m) ∷ rest

-- `SetDefault`, with whether it succeeded
unfoldable pub set_default : ℕ → String → Rows → Rows × Bool
unfolding get_by_id clear_default
set_default now id rows = elim (get_by_id id rows) [
  | none ↦ (rows, false)
  | some m ↦ (
    insert id (record m { is_default = true; updated_at = now }) (clear_default now m.user_id rows),
    true,
  )
]

-- `DeleteWithMessages`
unfoldable pub delete_with_messages : String → Rows → Rows × Bool
delete_with_messages id rows = elim (lookup id rows) [
  | none ↦ (rows, false)
  | some m ↦ (delete id rows, true)
]

module _ (to_lower : String → String) (nocase : String → String → Bool) where
  unfoldable pub exists_by_address : String → Rows → Bool
  exists_by_address address [] = false
  exists_by_address address ((k, m) ∷ rows) =
      nocase m.address (to_lower address) || exists_by_address address rows

  -- `Create`; the id is the primary key.
  unfoldable pub create_row : Mailbox → Rows → Rows × Bool
  unfolding exists_by_address
  create_row m rows =
      if exists_by_address m.address rows then (rows, false) else elim (lookup m.id rows) [
        | some old ↦ (rows, false)
        | none ↦ (
          insert m.id
              (record m {
                address = to_lower m.address;
                uid_next = if m.uid_next == 0 then 1 else m.uid_next;
              })
              rows,
          true,
        )
      ]

  -- The columns that `Update` writes
  abbrev pub updated_row : ℕ → Mailbox → Mailbox → Mailbox
  updated_row now m old = record old {
    user_id = m.user_id;
    name = m.name;
    address = to_lower m.address;
    description = m.description;
    is_catch_all = m.is_catch_all;
    is_default = m.is_default;
    message_count = m.message_count;
    unread_count = m.unread_count;
    total_size = m.total_size;
    retention_days = m.retention_days;
    updated_at = now;
  }

  -- `Update`
  unfoldable pub update_row : ℕ → Mailbox → Rows → Rows × Bool
  update_row now m rows = elim (lookup m.id rows) [
    | none ↦ (rows, false)
    | some old ↦ (insert m.id (updated_row now m old) rows, true)
  ]
