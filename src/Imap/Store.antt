-- ===== src/Imap/Store.antt =====
-- internal/imap/store.go: the STORE command. The repository and the client's writer are the
-- environment: `fails` says whether a call of the repository fails, given the calls before it, newest
-- first. The messages come in the order in which the loop over the map meets them, which Go leaves
-- open, so they are a list in any order.
pub mod Flags
pub mod Loop
use yunt.Prelude.{
  ℕ, ◌+◌, ◌%◌, ◌^◌, String, Bool, true, false, Option, none, some, List, [], ◌∷◌, ◌++◌,
  if◌then◌else◌,
}
use yunt.Domain.Message.{Message, message_read, message_unread}
use yunt.Imap.Flags.{
  FlagSet, FlagChange, flag_seen, flag_flagged, flag_deleted, flag_draft, flag_answered, add_all,
  remove_all, replace, clone, to_slice, new_flag_set_from_message, has_changes, changed, is_now,
  is_now_not, filter_permanent_flags,
}

pub data StoreFlagsOp : Type 0 where
  store_flags_set store_flags_add store_flags_del : StoreFlagsOp

pub record StoreFlags : Type 0 where
  pub op : StoreFlagsOp
  pub silent : Bool
  pub flags : List String

-- The methods of the message repository that STORE calls.
pub data Action : Type 0 where
  mark_as_read mark_as_unread star unstar mark_as_deleted unmark_as_deleted : Action
  mark_as_draft unmark_as_draft mark_as_answered unmark_as_answered : Action

abbrev pub RepoCall : Type 0
RepoCall = Action × String

apply_operation : StoreFlagsOp → List String → FlagSet → FlagSet
unfolding replace add_all remove_all
apply_operation store_flags_set flags result = replace flags result
apply_operation store_flags_add flags result = add_all flags result
apply_operation store_flags_del flags result = remove_all flags result

unfoldable pub apply_flag_operation : FlagSet → StoreFlags → FlagSet
unfolding apply_operation filter_permanent_flags clone
apply_flag_operation current store_flags =
    apply_operation store_flags.op (filter_permanent_flags store_flags.flags) (clone current)

-- The fields that the actions set in the message in memory.
unfoldable pub act : Action → Message → Message
act mark_as_read msg = record msg { status = message_read }
act mark_as_unread msg = record msg { status = message_unread }
act star msg = record msg { is_starred = true }
act unstar msg = record msg { is_starred = false }
act mark_as_deleted msg = record msg { is_deleted = true }
act unmark_as_deleted msg = record msg { is_deleted = false }
act mark_as_draft msg = record msg { is_draft = true }
act unmark_as_draft msg = record msg { is_draft = false }
act mark_as_answered msg = record msg { is_answered = true }
act unmark_as_answered msg = record msg { is_answered = false }

-- A message, the calls made so far, and the call that failed, if one did: then nothing more is done.
pub record Progress : Type 0 where
  pub msg : Message
  pub calls : List RepoCall
  pub error : Option Action

module _ (fails : List RepoCall → RepoCall → Bool) where
  -- One call of the repository, and the change of the message if it succeeds.
  unfoldable pub perform : Action → Progress → Progress
  unfolding act
  perform a p =
      if fails p.calls (a, p.msg.id)
      then record p { calls = (a, p.msg.id) ∷ p.calls; error = some a }
      else record p { msg = act a p.msg; calls = (a, p.msg.id) ∷ p.calls }

  persist_changed : String → Action → Action → FlagChange → Progress → Progress
  unfolding perform
  persist_changed f set_it clear_it change p =
      if changed f change
      then if is_now f change
        then perform set_it p
        else if is_now_not f change
        then perform clear_it p
        else p
      else p

  -- The paragraph of `persistFlagChanges` about one flag, after those before it returned no error.
  unfoldable pub persist_flag : String → Action → Action → FlagChange → Progress → Progress
  unfolding persist_changed
  persist_flag f set_it clear_it change p = elim p.error [
    | none ↦ persist_changed f set_it clear_it change p
    | some a ↦ p
  ]

  unfoldable pub persist_flag_changes : FlagChange → Progress → Progress
  unfolding persist_flag
  persist_flag_changes change p =
      persist_flag flag_answered mark_as_answered unmark_as_answered change (
        persist_flag flag_draft mark_as_draft unmark_as_draft change (
          persist_flag flag_deleted mark_as_deleted unmark_as_deleted change (
            persist_flag flag_flagged star unstar change
              (persist_flag flag_seen mark_as_read mark_as_unread change p))))

-- `w.WriteFlags` for a message
pub record FetchResponse : Type 0 where
  pub seq_num : ℕ
  pub flags : List String

pub record StoreState : Type 0 where
  pub messages : List (ℕ × Message)
  pub calls : List RepoCall
  pub changes : List FlagChange
  pub responses : List FetchResponse
  pub error : Option Action

abbrev pub change_of : StoreFlags → ℕ → Message → FlagChange
change_of flags seq_num msg =
    let old_flags = new_flag_set_from_message msg in
    record {
      message_id = msg.id;
      seq_num = seq_num;
      uid = msg.imap_uid;
      old_flags = old_flags;
      new_flags = apply_flag_operation old_flags flags;
    }

unfoldable pub respond : StoreFlags → FlagChange → List FetchResponse → List FetchResponse
respond flags change responses =
    if flags.silent
    then responses
    else responses ++ record { seq_num = change.seq_num; flags = to_slice change.new_flags } ∷ []

module _ (fails : List RepoCall → RepoCall → Bool) (flags : StoreFlags) where
  -- What follows `persistFlagChanges`: on an error the loop returns.
  store_changed : ℕ → FlagChange → Progress → StoreState → StoreState
  unfolding respond
  store_changed seq_num change p s = elim p.error [
    | some a ↦ record s {
      messages = s.messages ++ (seq_num, p.msg) ∷ [];
      calls = p.calls;
      error = some a;
    }
    | none ↦ record s {
      messages = s.messages ++ (seq_num, p.msg) ∷ [];
      calls = p.calls;
      changes = s.changes ++ change ∷ [];
      responses = respond flags change s.responses;
    }
  ]

  -- One round of the loop of `Store`.
  unfoldable pub store_message : ℕ → Message → StoreState → StoreState
  unfolding store_changed respond
  store_message seq_num msg s =
      let change = change_of flags seq_num msg in
      if has_changes change
      then store_changed seq_num change
          (persist_flag_changes fails change (record { msg = msg; calls = s.calls; error = none }))
          s
      else record s {
        messages = s.messages ++ (seq_num, msg) ∷ [];
        responses = respond flags change s.responses;
      }

  -- The messages that are reached, as they are afterwards, stand in `messages`.
  unfoldable pub store_loop : List (ℕ × Message) → StoreState → StoreState
  unfolding store_message
  store_loop [] s = s
  store_loop ((seq_num, msg) ∷ rest) s =
      let s' = store_message seq_num msg s in
      let t = store_loop rest s' in elim s'.error [ none ↦ t | some a ↦ s' ]

-- `getMessagesForNumSet` on the listed messages; `contains` is the number set of the IMAP library,
-- given a sequence number and a UID.
unfoldable pub messages_for_num_set : (ℕ → ℕ → Bool) → ℕ → List Message → List (ℕ × Message)
messages_for_num_set contains i [] = []
messages_for_num_set contains i (msg ∷ items) =
    let seq_num = (i + 1) % 2 ^ 32 in
    let rest = messages_for_num_set contains (i + 1) items in
    if contains seq_num msg.imap_uid then (seq_num, msg) ∷ rest else rest
