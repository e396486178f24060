-- ===== src/Service/Mailboxes/Defaults.antt =====
-- How many default mailboxes a user has, and what the queries do to the number
use mathlib.Core.Path.{subst}
use yunt.Prelude.{
  ℕ, ◌+◌, ◌≤◌, String, Bool, true, false, ◌&&◌, some, [], ◌∷◌, ◌≡◌, ◌≢◌, refl, arith, if◌then◌else◌,
  str_eq, eq_iff, inl, inr, Bool-cases, Option-cases,
}
use yunt.Prelude.Maps.{lookup, insert, delete}
use yunt.Domain.Mailbox.{Mailbox}
use yunt.Service.Mailboxes.{MailboxError, finish, transaction}
use yunt.Repository.Mailboxes.{
  Rows, get_by_id, clear_default, set_default, delete_with_messages, create_row, update_row,
  exists_by_address, updated_row,
}

-- Whether the row is a default mailbox of the user
abbrev pub one : String → Mailbox → ℕ
one user_id m = if str_eq m.user_id user_id && m.is_default then 1 else 0

-- How many default mailboxes the user has
unfoldable pub count_defaults : String → Rows → ℕ
count_defaults user_id [] = 0
count_defaults user_id ((k, m) ∷ rows) = one user_id m + count_defaults user_id rows

pub count_defaults-insert :
    (u k : String) (m : Mailbox) (rows : Rows)
    → count_defaults u (insert k m rows) ≤ one u m + count_defaults u rows
unfolding count_defaults insert
count_defaults-insert u k m [] = omega arith
count_defaults-insert u k m ((j, n) ∷ rows) = elim (Bool-cases (str_eq j k)) [
  | inl h ↦ rw h (omega arith)
  | inr h ↦ rw h (omega (arith, count_defaults-insert u k m rows))
]

pub count_defaults-replace :
    (u k : String) (m old : Mailbox) (rows : Rows)
    → lookup k rows ≡ some old
    → one u m ≤ one u old
    → count_defaults u (insert k m rows) ≤ count_defaults u rows
unfolding count_defaults insert lookup
count_defaults-replace u k m old [] h le = ground arith
count_defaults-replace u k m old ((j, n) ∷ rows) h le =
    ground (arith, count_defaults-replace u k m old rows)

pub count_defaults-delete :
    (u k : String) (rows : Rows) → count_defaults u (delete k rows) ≤ count_defaults u rows
unfolding count_defaults delete
count_defaults-delete u k [] = omega arith
count_defaults-delete u k ((j, n) ∷ rows) = elim (Bool-cases (str_eq j k)) [
  | inl h ↦ rw h (omega (arith, count_defaults-delete u k rows))
  | inr h ↦ rw h (omega (arith, count_defaults-delete u k rows))
]

pub count_defaults-clear_default :
    (now : ℕ) (u : String) (rows : Rows) → count_defaults u (clear_default now u rows) ≡ 0
unfolding count_defaults clear_default
count_defaults-clear_default now u [] = refl
count_defaults-clear_default now u ((k, m) ∷ rows) =
    ground (arith, count_defaults-clear_default now u rows)

pub clear_default-below :
    (now : ℕ) (u v : String) (rows : Rows)
    → count_defaults v (clear_default now u rows) ≤ count_defaults v rows
unfolding count_defaults clear_default
clear_default-below now u v [] = omega arith
clear_default-below now u v ((k, m) ∷ rows) = ground (arith, clear_default-below now u v rows)

pub one_bound : (v : String) (m : Mailbox) → one v m ≤ 1
one_bound v m = ground arith

pub one_other : (u v : String) (m : Mailbox) → m.user_id ≡ u → str_eq u v ≡ false → one v m ≡ 0
one_other u v m own apart = rw (own, apart) refl

pub one_plain : (v : String) (m : Mailbox) → m.is_default ≡ false → one v m ≡ 0
one_plain v m plain = ground arith

pub true_false : ◌≢◌ {A = Bool} true false
true_false e = ground arith

-- A default mailbox is written once the user's others are cleared.
pub insert-clear_default :
    (now : ℕ) (u v k : String) (m : Mailbox) (rows : Rows)
    → m.user_id ≡ u
    → count_defaults v rows ≤ 1
    → count_defaults v (insert k m (clear_default now u rows)) ≤ 1
insert-clear_default now u v k m rows own h = elim (Bool-cases (str_eq u v)) [
  | inl same ↦
      let u≡v : u ≡ v = (eq_iff u v).0 same in
      let cleared : count_defaults v (clear_default now u rows) ≡ 0 =
        subst (λ w. count_defaults w (clear_default now u rows) ≡ 0) u≡v
          (count_defaults-clear_default now u rows) in
      omega (arith, count_defaults-insert v k m (clear_default now u rows), one_bound v m)
  | inr apart ↦ omega (
    arith,
    count_defaults-insert v k m (clear_default now u rows),
    one_other u v m own apart,
    clear_default-below now u v rows,
  )
]

-- In the table that an operation leaves, the user has at most one default mailbox.
abbrev pub AtMostOne : {A : Type 0} → String → Rows × A → Type 0
AtMostOne v r = count_defaults v r.0 ≤ 1

pub finish-AtMostOne :
    (e : MailboxError) (v : String) (r : Rows × Bool) → AtMostOne v r → AtMostOne v (finish e r)
finish-AtMostOne e v (rows, true) h = h
finish-AtMostOne e v (rows, false) h = h

pub transaction-AtMostOne :
    (e : MailboxError) (v : String) (before : Rows) (r : Rows × Bool)
    → count_defaults v before ≤ 1
    → AtMostOne v r
    → AtMostOne v (transaction e before r)
transaction-AtMostOne e v before (rows, true) b h = h
transaction-AtMostOne e v before (rows, false) b h = b

pub delete_with_messages-AtMostOne :
    (v id : String) (rows : Rows)
    → count_defaults v rows ≤ 1
    → AtMostOne v (delete_with_messages id rows)
unfolding delete_with_messages
delete_with_messages-AtMostOne v id rows h = elim (Option-cases (lookup id rows)) [
  | inl e ↦ rw (delete_with_messages, e) h
  | inr (m, e) ↦ rw (delete_with_messages, e) (omega (arith, count_defaults-delete v id rows))
]

pub set_default-AtMostOne :
    (now : ℕ) (v id : String) (rows : Rows)
    → count_defaults v rows ≤ 1
    → AtMostOne v (set_default now id rows)
unfolding set_default
set_default-AtMostOne now v id rows h = elim (Option-cases (get_by_id id rows)) [
  | inl e ↦ rw (set_default, e) h
  | inr (m, e) ↦ rw (set_default, e) (insert-clear_default now m.user_id v id _ rows refl h)
]

pub create_row-AtMostOne :
    (to_lower : String → String) (nocase : String → String → Bool) (v : String) (m : Mailbox)
    (rows : Rows)
    → count_defaults v rows ≤ 1
    → ((address : String) (uid_next : ℕ)
        → count_defaults v (insert m.id (record m { address = address; uid_next = uid_next }) rows)
          ≤ 1)
    → AtMostOne v (create_row to_lower nocase m rows)
unfolding create_row
create_row-AtMostOne to_lower nocase v m rows h made_one =
    elim (Bool-cases (exists_by_address to_lower nocase m.address rows)) [
      | inl taken ↦ rw (create_row, taken) h
      | inr free ↦ elim (Option-cases (lookup m.id rows)) [
        | inl e ↦ rw (create_row, free, e) (made_one _ _)
        | inr (old, e) ↦ rw (create_row, free, e) h
      ]
    ]

pub update_row-AtMostOne :
    (to_lower : String → String) (nocase : String → String → Bool) (now : ℕ) (v : String)
    (m : Mailbox) (rows : Rows)
    → count_defaults v rows ≤ 1
    → ((old : Mailbox)
        → lookup m.id rows ≡ some old
        → count_defaults v (insert m.id (updated_row to_lower nocase now m old) rows) ≤ 1)
    → AtMostOne v (update_row to_lower nocase now m rows)
unfolding update_row
update_row-AtMostOne to_lower nocase now v m rows h written =
    elim (Option-cases (lookup m.id rows)) [
      | inl e ↦ rw (update_row, e) h
      | inr (old, e) ↦ rw (update_row, e) (written old e)
    ]
