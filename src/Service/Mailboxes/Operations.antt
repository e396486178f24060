-- ===== src/Service/Mailboxes/Operations.antt =====
-- Sequences of operations of internal/service/mailbox.go, and the default mailboxes of the users after
-- them
use yunt.Prelude.{
  ℕ, ◌≤◌, String, Bool, true, false, not, Option, none, some, List, [], ◌∷◌, ◌≡◌, refl, sym, ap,
  ◌∙◌, arith, if◌then◌else◌, str_eq, eq_iff, inl, inr, Bool-cases, Option-cases, if_either,
}
use yunt.Prelude.Maps.{lookup, insert}
use yunt.Domain.Mailbox.{Mailbox, new_mailbox}
use yunt.Service.Mailboxes.{
  Answer, finish, transaction, delete_failed, set_default_failed, create_failed, update_failed,
  named_system_mailbox, delete_found, delete_mailbox, set_default_found, set_default_mailbox,
  MailboxCreateInput, MailboxUpdateInput, normalize, validate_update, apply_update, made_mailbox,
  create_checked, create_mailbox, wants_default, or_old, update_found, update_checked,
  update_mailbox,
}
use yunt.Repository.Mailboxes.{
  updated_row, Rows, get_by_id, clear_default, delete_with_messages, create_row, update_row,
  exists_by_address,
}
use yunt.Service.Mailboxes.Defaults.{
  AtMostOne, clear_default-below, count_defaults, count_defaults-insert, count_defaults-replace,
  create_row-AtMostOne, delete_with_messages-AtMostOne, finish-AtMostOne, insert-clear_default, one,
  one_plain, set_default-AtMostOne, transaction-AtMostOne, true_false, update_row-AtMostOne,
}

delete_mailbox-AtMostOne :
    (v id user_id : String) (rows : Rows)
    → count_defaults v rows ≤ 1
    → AtMostOne v (delete_mailbox id user_id rows)
unfolding delete_mailbox
delete_mailbox-AtMostOne v id user_id rows h =
    if_either (AtMostOne v) (str_eq id "") _ _ h
      (if_either (AtMostOne v) (str_eq user_id "") _ _ h (found_one (get_by_id id rows)))
  where
    deleted : AtMostOne v (delete_with_messages id rows)
    deleted = delete_with_messages-AtMostOne v id rows h

    found_one : (m : Option Mailbox) → AtMostOne v (delete_found id user_id m rows)
    found_one none = unfold delete_found in h
    found_one (some m) =
        unfold delete_found in
        (if_either (AtMostOne v) (not (str_eq m.user_id user_id)) _ _ h (
          if_either (AtMostOne v) (named_system_mailbox m.name) _ _ h
            (finish-AtMostOne delete_failed v _ deleted)))

set_default_mailbox-AtMostOne :
    (now : ℕ) (v id user_id : String) (rows : Rows)
    → count_defaults v rows ≤ 1
    → AtMostOne v (set_default_mailbox now id user_id rows)
unfolding set_default_mailbox
set_default_mailbox-AtMostOne now v id user_id rows h =
    if_either (AtMostOne v) (str_eq id "") _ _ h
      (if_either (AtMostOne v) (str_eq user_id "") _ _ h (found_one (get_by_id id rows)))
  where
    found_one : (m : Option Mailbox) → AtMostOne v (set_default_found now id user_id m rows)
    found_one none = unfold set_default_found in h
    found_one (some m) =
        unfold set_default_found in
        (if_either (AtMostOne v) (not (str_eq m.user_id user_id)) _ _ h (
          transaction-AtMostOne set_default_failed v rows _ h (
            set_default-AtMostOne now v id (clear_default now user_id rows)
              (omega (arith, clear_default-below now user_id v rows)))))

module _ (to_lower : String → String) (nocase : String → String → Bool)
    (trim_space : String → String) (matches_email : String → Bool) where
  -- A default mailbox that is created or updated in the cleared table, and another one in the table.
  default_created :
      (now : ℕ) (v u : String) (m : Mailbox) (rows : Rows)
      → m.user_id ≡ u
      → count_defaults v rows ≤ 1
      → AtMostOne v
          (transaction create_failed rows (create_row to_lower nocase m (clear_default now u rows)))
  default_created now v u m rows own h = transaction-AtMostOne create_failed v rows _ h (
      create_row-AtMostOne to_lower nocase v m (clear_default now u rows)
        (omega (arith, clear_default-below now u v rows))
        (λ address uid_next.
          insert-clear_default now u v m.id (record m { address = address; uid_next = uid_next })
            rows own h))

  plain_created :
      (v : String) (m : Mailbox) (rows : Rows)
      → m.is_default ≡ false
      → count_defaults v rows ≤ 1
      → AtMostOne v (finish create_failed (create_row to_lower nocase m rows))
  plain_created v m rows plain h = finish-AtMostOne create_failed v _ (
      create_row-AtMostOne to_lower nocase v m rows h (λ address uid_next. omega (
        arith,
        count_defaults-insert v m.id (record m { address = address; uid_next = uid_next }) rows,
        one_plain v (record m { address = address; uid_next = uid_next }) plain,
      )))

  default_updated :
      (now : ℕ) (v u : String) (m : Mailbox) (rows : Rows)
      → m.user_id ≡ u
      → count_defaults v rows ≤ 1
      → AtMostOne v (
          transaction update_failed rows
            (update_row to_lower nocase now m (clear_default now u rows)))
  default_updated now v u m rows own h = transaction-AtMostOne update_failed v rows _ h (
      update_row-AtMostOne to_lower nocase now v m (clear_default now u rows)
        (omega (arith, clear_default-below now u v rows))
        (λ old e.
          insert-clear_default now u v m.id (updated_row to_lower nocase now m old) rows own h))

  plain_updated :
      (now : ℕ) (v : String) (m old : Mailbox) (rows : Rows)
      → lookup m.id rows ≡ some old
      → one v m ≤ one v old
      → count_defaults v rows ≤ 1
      → AtMostOne v (finish update_failed (update_row to_lower nocase now m rows))
  plain_updated now v m old rows e le h = finish-AtMostOne update_failed v _ (
      update_row-AtMostOne to_lower nocase now v m rows h (λ old' e'.
        let written : Mailbox = updated_row to_lower nocase now m old' in
        let fewer : count_defaults v (insert m.id written rows) ≤ count_defaults v rows =
          count_defaults-replace v m.id written old rows e le in
        omega (arith, fewer)))

  create_checked-AtMostOne :
      (now : ℕ) (v id : String) (i : MailboxCreateInput) (fields : List String) (rows : Rows)
      → count_defaults v rows ≤ 1
      → AtMostOne v (create_checked to_lower nocase trim_space matches_email now id i fields rows)
  unfolding create_checked new_mailbox
  create_checked-AtMostOne now v id i (field ∷ fields) rows h = h
  create_checked-AtMostOne now v id i [] rows h =
      if_either (AtMostOne v) (exists_by_address to_lower nocase i.address rows) _ _ h
        (by_default i.is_default refl)
    where
      m : Mailbox
      m = made_mailbox to_lower nocase trim_space matches_email now id i

      by_default :
          (b : Bool)
          → i.is_default ≡ b
          → AtMostOne v (
              if b
              then transaction create_failed rows
                  (create_row to_lower nocase m (clear_default now i.user_id rows))
              else finish create_failed (create_row to_lower nocase m rows))
      by_default true wanted = default_created now v i.user_id m rows refl h
      by_default false plain = plain_created v m rows plain h

  create_mailbox-AtMostOne :
      (now : ℕ) (v id : String) (i : MailboxCreateInput) (rows : Rows)
      → count_defaults v rows ≤ 1
      → AtMostOne v (create_mailbox to_lower nocase trim_space matches_email now id i rows)
  unfolding create_mailbox
  create_mailbox-AtMostOne now v id i rows h = if_either (AtMostOne v) (str_eq i.user_id "") _ _ h (
      create_checked-AtMostOne now v id (normalize to_lower nocase trim_space matches_email i) _
        rows h)

  -- An update that does not ask for it makes no mailbox a default.
  one-apply_update :
      (now : ℕ) (v id : String) (i : MailboxUpdateInput) (old : Mailbox)
      → wants_default i ≡ false
      → one v (apply_update to_lower nocase trim_space matches_email now i (record old { id = id }))
        ≤ one v old
  one-apply_update now v id i old plain = from i.is_default refl
    where
      from :
          (d : Option Bool)
          → i.is_default ≡ d
          → one v
              (apply_update to_lower nocase trim_space matches_email now i (record old { id = id }))
            ≤ one v old
      from none e = rw e (omega arith)
      from (some true) e = absurd (true_false (sym (ap (λ d. or_old d false) e) ∙ plain))
      from (some false) e = rw e (ground arith)

  update_owned-AtMostOne :
      (now : ℕ) (v id user_id : String) (i : MailboxUpdateInput) (old : Mailbox) (rows : Rows)
      → lookup id rows ≡ some old
      → count_defaults v rows ≤ 1
      → AtMostOne v (
          update_found to_lower nocase trim_space matches_email now user_id i
            (some (record old { id = id }))
            rows)
  unfolding update_found
  update_owned-AtMostOne now v id user_id i old rows e h =
      elim (Bool-cases (str_eq old.user_id user_id)) [
        | inr other ↦ rw other h
        | inl own ↦ rw own (by_default ((eq_iff old.user_id user_id).0 own) (wants_default i) refl)
      ]
    where
      m : Mailbox
      m = apply_update to_lower nocase trim_space matches_email now i (record old { id = id })

      by_default :
          old.user_id ≡ user_id
          → (b : Bool) → wants_default i ≡ b
          → AtMostOne v (
              if b
              then transaction update_failed rows
                  (update_row to_lower nocase now m (clear_default now user_id rows))
              else finish update_failed (update_row to_lower nocase now m rows))
      by_default own true wanted = default_updated now v user_id m rows own h
      by_default own false plain =
          plain_updated now v m old rows e (one-apply_update now v id i old plain) h

  update_mailbox-AtMostOne :
      (now : ℕ) (v id user_id : String) (i : MailboxUpdateInput) (rows : Rows)
      → count_defaults v rows ≤ 1
      → AtMostOne v (update_mailbox to_lower nocase trim_space matches_email now id user_id i rows)
  unfolding update_mailbox
  update_mailbox-AtMostOne now v id user_id i rows h =
      if_either (AtMostOne v) (str_eq id "") _ _ h (
        if_either (AtMostOne v) (str_eq user_id "") _ _ h
          (checked_one (validate_update to_lower nocase trim_space matches_email i)))
    where
      found_one : AtMostOne v (
          update_found to_lower nocase trim_space matches_email now user_id i
            (get_by_id id rows)
            rows)
      found_one = elim (Option-cases (lookup id rows)) [
        | inl e ↦ unfold get_by_id update_found in rw (get_by_id, e) h
        | inr (old, e) ↦
            unfold get_by_id in
            rw (get_by_id, e) (update_owned-AtMostOne now v id user_id i old rows e h)
      ]

      checked_one :
          (fields : List String)
          → AtMostOne v
              (update_checked to_lower nocase trim_space matches_email now id user_id i fields rows)
      checked_one [] = unfold update_checked in found_one
      checked_one (field ∷ fields) = unfold update_checked in h

-- A call of the service. The generated id and the clock's reading are given.
pub data Operation : Type 0 where
  create : ℕ → String → MailboxCreateInput → Operation
  update : ℕ → String → String → MailboxUpdateInput → Operation
  delete_it set_default_it : ℕ → String → String → Operation

module _ (to_lower : String → String) (nocase : String → String → Bool)
    (trim_space : String → String) (matches_email : String → Bool) where
  unfoldable pub run_operation : Operation → Rows → Rows × Answer
  unfolding create_mailbox update_mailbox delete_mailbox set_default_mailbox
  run_operation (create now id i) rows =
      create_mailbox to_lower nocase trim_space matches_email now id i rows
  run_operation (update now id user_id i) rows =
      update_mailbox to_lower nocase trim_space matches_email now id user_id i rows
  run_operation (delete_it now id user_id) rows = delete_mailbox id user_id rows
  run_operation (set_default_it now id user_id) rows = set_default_mailbox now id user_id rows

  unfoldable pub run_all : List Operation → Rows → Rows
  unfolding run_operation
  run_all [] rows = rows
  run_all (o ∷ os) rows = run_all os (run_operation o rows).0

  run_operation-AtMostOne :
      (v : String) (o : Operation) (rows : Rows)
      → count_defaults v rows ≤ 1
      → AtMostOne v (run_operation o rows)
  unfolding run_operation
  run_operation-AtMostOne v (create now id i) rows h =
      create_mailbox-AtMostOne to_lower nocase trim_space matches_email now v id i rows h
  run_operation-AtMostOne v (update now id user_id i) rows h =
      update_mailbox-AtMostOne to_lower nocase trim_space matches_email now v id user_id i rows h
  run_operation-AtMostOne v (delete_it now id user_id) rows h =
      delete_mailbox-AtMostOne v id user_id rows h
  run_operation-AtMostOne v (set_default_it now id user_id) rows h =
      set_default_mailbox-AtMostOne now v id user_id rows h

  -- In a table where no user has more than one default mailbox, after any sequence of creations, updates,
  -- deletions and choices of a default, by any users, whether the calls succeed or fail: no user has more
  -- than one default mailbox.
  pub run_all-AtMostOne :
      (os : List Operation) (rows : Rows)
      → ((v : String) → count_defaults v rows ≤ 1)
      → (v : String) → count_defaults v (run_all os rows) ≤ 1
  unfolding run_all
  run_all-AtMostOne [] rows h v = h v
  run_all-AtMostOne (o ∷ os) rows h v =
      run_all-AtMostOne os (run_operation o rows).0 (λ u. run_operation-AtMostOne u o rows (h u)) v
