-- ===== src/Imap/Store/Flags.antt =====
-- The flags that a message has after STORE.
use yunt.Prelude.{
  ◌≡◌, refl, String, Bool, not, ◌&&◌, ◌||◌, none, List, [], ◌∷◌, arith, if◌then◌else◌,
}
use yunt.Domain.Message.{Message}
use yunt.Imap.Flags.{
  FlagSet, FlagChange, flag_seen, flag_flagged, flag_deleted, flag_draft, flag_answered, has, clone,
  changed, is_now, is_now_not, filter_permanent_flags, is_seen,
}
use yunt.Imap.Flags.Laws.{
  mem, IsFlagSet, HasFlagsOf, has-add_all, has-remove_all, has-replace, has-clone,
}
use yunt.Imap.Store.{
  StoreFlagsOp, store_flags_set, store_flags_add, store_flags_del, Action, RepoCall, Progress,
  mark_as_answered, unmark_as_answered, mark_as_draft, unmark_as_draft, mark_as_deleted,
  unmark_as_deleted, star, unstar, mark_as_read, mark_as_unread, act, apply_flag_operation,
  persist_flag, persist_flag_changes,
}

all_permanent : (flags : List String) → filter_permanent_flags flags ≡ flags
unfolding filter_permanent_flags
all_permanent [] = refl
all_permanent (f ∷ flags) = rw (all_permanent flags)

-- What each operation leaves of a flag.
abbrev pub flag_after : StoreFlagsOp → Bool → Bool → Bool
flag_after store_flags_set listed old = listed
flag_after store_flags_add listed old = listed || old
flag_after store_flags_del listed old = not listed && old

-- On a set that holds each flag once and only with the value true, setting flags leaves the listed
-- ones, adding also keeps the old ones, deleting keeps the old ones that are not listed.
has-apply_flag_operation :
    (g : String) (op : StoreFlagsOp) (silent : Bool) (flags : List String) (current : FlagSet)
    → IsFlagSet current
    → has g (apply_flag_operation current (record { op = op; silent = silent; flags = flags }))
      ≡ flag_after op (mem g flags) (has g current)
unfolding apply_flag_operation
has-apply_flag_operation g store_flags_set silent flags current v =
    ground (arith, all_permanent flags, has-replace g flags (clone current))
has-apply_flag_operation g store_flags_add silent flags current v =
    ground (arith, all_permanent flags, has-add_all g flags (clone current), has-clone g current v)
has-apply_flag_operation g store_flags_del silent flags current v =
    ground
      (arith, all_permanent flags, has-remove_all g flags (clone current), has-clone g current v)

-- The message after the paragraph of one flag, if no call failed.
settle : String → Action → Action → FlagChange → Message → Message
unfolding changed is_now is_now_not act
settle f set_it clear_it change msg =
    if changed f change
    then if is_now f change
      then act set_it msg
      else if is_now_not f change
      then act clear_it msg
      else msg
    else msg

-- The five flags as the message holds them.
abbrev Five : Type 0
Five = Bool × Bool × Bool × Bool × Bool

abbrev five : Message → Five
five m = (is_seen m.status, m.is_starred, m.is_deleted, m.is_draft, m.is_answered)

module _ (change : FlagChange) (m : Message) where
  settle_seen :
      has flag_seen change.old_flags ≡ is_seen m.status
      → five (settle flag_seen mark_as_read mark_as_unread change m)
        ≡ (has flag_seen change.new_flags, m.is_starred, m.is_deleted, m.is_draft, m.is_answered)
  unfolding settle
  settle_seen h = ground arith

  settle_flagged :
      has flag_flagged change.old_flags ≡ m.is_starred
      → five (settle flag_flagged star unstar change m) ≡ (
        is_seen m.status,
        has flag_flagged change.new_flags,
        m.is_deleted,
        m.is_draft,
        m.is_answered,
      )
  unfolding settle
  settle_flagged h = ground arith

  settle_deleted :
      has flag_deleted change.old_flags ≡ m.is_deleted
      → five (settle flag_deleted mark_as_deleted unmark_as_deleted change m) ≡ (
        is_seen m.status,
        m.is_starred,
        has flag_deleted change.new_flags,
        m.is_draft,
        m.is_answered,
      )
  unfolding settle
  settle_deleted h = ground arith

  settle_draft :
      has flag_draft change.old_flags ≡ m.is_draft
      → five (settle flag_draft mark_as_draft unmark_as_draft change m) ≡ (
        is_seen m.status,
        m.is_starred,
        m.is_deleted,
        has flag_draft change.new_flags,
        m.is_answered,
      )
  unfolding settle
  settle_draft h = ground arith

  settle_answered :
      has flag_answered change.old_flags ≡ m.is_answered
      → five (settle flag_answered mark_as_answered unmark_as_answered change m) ≡ (
        is_seen m.status,
        m.is_starred,
        m.is_deleted,
        m.is_draft,
        has flag_answered change.new_flags,
      )
  unfolding settle
  settle_answered h = ground arith

settled :
    (change : FlagChange) (m m1 m2 m3 m4 m5 : Message)
    → HasFlagsOf m change.old_flags
    → m1 ≡ settle flag_seen mark_as_read mark_as_unread change m
    → m2 ≡ settle flag_flagged star unstar change m1
    → m3 ≡ settle flag_deleted mark_as_deleted unmark_as_deleted change m2
    → m4 ≡ settle flag_draft mark_as_draft unmark_as_draft change m3
    → m5 ≡ settle flag_answered mark_as_answered unmark_as_answered change m4
    → HasFlagsOf m5 change.new_flags
settled change m m1 m2 m3 m4 m5 v e1 e2 e3 e4 e5 = ground (
  arith,
  settle_seen change m,
  settle_flagged change m1,
  settle_deleted change m2,
  settle_draft change m3,
  settle_answered change m4,
)

module _ (fails : List RepoCall → RepoCall → Bool) where
  persist_flag-settle :
      (f : String) (set_it clear_it : Action) (change : FlagChange) (p : Progress)
      → (persist_flag fails f set_it clear_it change p).error ≡ none
      → (p.error ≡ none)
        × ((persist_flag fails f set_it clear_it change p).msg
            ≡ settle f set_it clear_it change p.msg)
  unfolding persist_flag settle
  persist_flag-settle f set_it clear_it change p h = ground arith

  -- If no call fails, the message ends up with the new flags, whatever it had before.
  pub persist_flag_changes-HasFlagsOf :
      (change : FlagChange) (msg : Message) (calls : List RepoCall)
      → HasFlagsOf msg change.old_flags
      → let p =
          persist_flag_changes fails change (record { msg = msg; calls = calls; error = none }) in
        p.error ≡ none → HasFlagsOf p.msg change.new_flags
  unfolding persist_flag_changes
  persist_flag_changes-HasFlagsOf change msg calls v e =
      let p0 : Progress = record { msg = msg; calls = calls; error = none } in
      let p1 = persist_flag fails flag_seen mark_as_read mark_as_unread change p0 in
      let p2 = persist_flag fails flag_flagged star unstar change p1 in
      let p3 = persist_flag fails flag_deleted mark_as_deleted unmark_as_deleted change p2 in
      let p4 = persist_flag fails flag_draft mark_as_draft unmark_as_draft change p3 in
      let h5 = persist_flag-settle flag_answered mark_as_answered unmark_as_answered change p4 e in
      let h4 = persist_flag-settle flag_draft mark_as_draft unmark_as_draft change p3 h5.0 in
      let h3 = persist_flag-settle flag_deleted mark_as_deleted unmark_as_deleted change p2 h4.0 in
      let h2 = persist_flag-settle flag_flagged star unstar change p1 h3.0 in
      let h1 = persist_flag-settle flag_seen mark_as_read mark_as_unread change p0 h2.0 in
      settled change msg p1.msg p2.msg p3.msg p4.msg _ v h1.1 h2.1 h3.1 h4.1 h5.1
