-- ===== src/Imap/Store/Loop.antt =====
-- What a STORE command does to all of its messages.
use mathlib.Core.List.{append-nil, append_assoc}
use yunt.Prelude.{
  if◌then◌else◌, ℕ, ◌≡◌, refl, sym, ◌∙◌, inl, inr, String, Bool, false, none, List, [], ◌∷◌, ◌++◌,
  arith, Bool-cases, Option-cases,
}
use yunt.Domain.Message.{Message}
use yunt.Imap.Flags.{
  flag_seen, flag_flagged, flag_deleted, flag_draft, flag_answered, FlagSet, FlagChange, has, clone,
  to_slice, new_flag_set_from_message, has_changes, filter_permanent_flags, new_flag_set,
}
use yunt.Imap.Flags.Laws.{
  IsFlagSet, HasFlagsOf, from_message-HasFlagsOf, from_message-IsFlagSet, add_all-IsFlagSet,
  remove_all-IsFlagSet, new_flag_set-IsFlagSet,
}
use yunt.Imap.Flags.Equality.{equal_iff}
use yunt.Imap.Store.{
  StoreFlagsOp, apply_operation, respond, store_changed, store_flags_set, store_flags_add,
  store_flags_del, StoreFlags, RepoCall, Progress, FetchResponse, StoreState, change_of,
  apply_flag_operation, persist_flag_changes, store_message, store_loop,
}
use yunt.Imap.Store.Flags.{persist_flag_changes-HasFlagsOf}

clone-IsFlagSet : (fs : FlagSet) → IsFlagSet (clone fs)
unfolding clone
clone-IsFlagSet fs = add_all-IsFlagSet (to_slice fs) new_flag_set new_flag_set-IsFlagSet

apply_operation-IsFlagSet :
    (op : StoreFlagsOp) (flags : List String) (fs : FlagSet)
    → IsFlagSet fs
    → IsFlagSet (apply_operation op flags fs)
unfolding apply_operation
apply_operation-IsFlagSet store_flags_set flags fs v =
    add_all-IsFlagSet flags new_flag_set new_flag_set-IsFlagSet
apply_operation-IsFlagSet store_flags_add flags fs v = add_all-IsFlagSet flags fs v
apply_operation-IsFlagSet store_flags_del flags fs v = remove_all-IsFlagSet flags fs v

apply-IsFlagSet : (fs : FlagSet) (flags : StoreFlags) → IsFlagSet (apply_flag_operation fs flags)
unfolding apply_flag_operation
apply-IsFlagSet fs flags =
    apply_operation-IsFlagSet flags.op (filter_permanent_flags flags.flags) (clone fs)
      (clone-IsFlagSet fs)

HasFlagsOf-same :
    (msg : Message) (fs gs : FlagSet)
    → HasFlagsOf msg fs
    → ((g : String) → has g fs ≡ has g gs)
    → HasFlagsOf msg gs
HasFlagsOf-same msg fs gs v h = record {
  seen = sym (h flag_seen) ∙ v.seen;
  flagged = sym (h flag_flagged) ∙ v.flagged;
  is_deleted = sym (h flag_deleted) ∙ v.is_deleted;
  is_draft = sym (h flag_draft) ∙ v.is_draft;
  answered = sym (h flag_answered) ∙ v.answered;
}

-- A message that the comparison leaves alone has the new flags already.
unchanged-HasFlagsOf :
    (flags : StoreFlags) (n : ℕ) (msg : Message)
    → has_changes (change_of flags n msg) ≡ false
    → HasFlagsOf msg (change_of flags n msg).new_flags
unfolding has_changes
unchanged-HasFlagsOf flags n msg h =
    let old = new_flag_set_from_message msg in
    let new = apply_flag_operation old flags in
    HasFlagsOf-same msg old new (from_message-HasFlagsOf msg) (
      (equal_iff old new (from_message-IsFlagSet msg) (apply-IsFlagSet old flags)).0 (ground arith))

module _ (fails : List RepoCall → RepoCall → Bool) (flags : StoreFlags) where
  -- One round that meets no error.
  abbrev Stored : ℕ → Message → StoreState → StoreState → Type 0
  Stored n msg s t =
      (msg' : Message) × (t.messages ≡ s.messages ++ (n, msg') ∷ [])
      × HasFlagsOf msg' (change_of flags n msg).new_flags
      × (t.responses ≡ respond flags (change_of flags n msg) s.responses)
      × (s.error ≡ none)

  store_changed_ok :
      (n : ℕ) (change : FlagChange) (p : Progress) (s : StoreState)
      → (store_changed fails flags n change p s).error ≡ none
      → (p.error ≡ none)
        × ((store_changed fails flags n change p s).messages ≡ s.messages ++ (n, p.msg) ∷ [])
        × ((store_changed fails flags n change p s).responses ≡ respond flags change s.responses)
        × (s.error ≡ none)
  unfolding store_changed
  store_changed_ok n change p s e = ground arith

  store_message-Stored :
      (n : ℕ) (msg : Message) (s : StoreState)
      → (store_message fails flags n msg s).error ≡ none
      → Stored n msg s (store_message fails flags n msg s)
  unfolding store_message
  store_message-Stored n msg s e =
      let change = change_of flags n msg in
      let p =
        persist_flag_changes fails change (record { msg = msg; calls = s.calls; error = none }) in
      elim (Bool-cases (has_changes change)) [
        | inl h ↦
            let e' : (store_changed fails flags n change p s).error ≡ none =
              rw (h, store_message) at e in
            let c = store_changed_ok n change p s e' in
            (
              p.msg,
              rw (h, store_message) c.1,
              persist_flag_changes-HasFlagsOf fails change msg s.calls (from_message-HasFlagsOf msg)
                  c.0,
              rw (h, store_message) c.2,
              c.3,
            )
        | inr h ↦ (
          msg,
          rw (h, store_message),
          unchanged-HasFlagsOf flags n msg h,
          rw (h, store_message),
          ground arith,
        )
      ]

-- Message by message, the same numbers, and each message with its new flags.
abbrev pub AllStored : StoreFlags → List (ℕ × Message) → List (ℕ × Message) → Type 0
AllStored flags [] [] = Unit
AllStored flags [] (y ∷ ys) = ⊥
AllStored flags (x ∷ xs) [] = ⊥
AllStored flags ((n, msg) ∷ xs) ((k, msg') ∷ ys) =
    (k ≡ n) × HasFlagsOf msg' (change_of flags n msg).new_flags × AllStored flags xs ys

-- The responses of a whole command.
abbrev pub all_responses : StoreFlags → List (ℕ × Message) → List FetchResponse → List FetchResponse
all_responses flags [] responses = responses
all_responses flags ((n, msg) ∷ xs) responses = all_responses flags xs (
    if flags.silent
    then responses
    else responses
      ++ record { seq_num = n; flags = to_slice (change_of flags n msg).new_flags } ∷ [])

module _ (fails : List RepoCall → RepoCall → Bool) (flags : StoreFlags) where
  -- If STORE ends without an error of the repository, it has reached every message; each ends up
  -- with exactly the five system flags that the operation gives it, and unless the command is
  -- silent there is one response for each, with its new flags.
  pub store_loop-AllStored :
      (xs : List (ℕ × Message)) (s : StoreState)
      → (store_loop fails flags xs s).error ≡ none
      → (ys : List (ℕ × Message)) × ((store_loop fails flags xs s).messages ≡ s.messages ++ ys)
        × AllStored flags xs ys
        × ((store_loop fails flags xs s).responses ≡ all_responses flags xs s.responses)
  unfolding store_loop respond
  store_loop-AllStored [] s e = ([], sym (append-nil s.messages), tt, refl)
  store_loop-AllStored ((n, msg) ∷ xs) s e =
      let s' = store_message fails flags n msg s in
      elim (Option-cases s'.error) [
        | inl h ↦
            let (msg', hm, hf, hr, _) = store_message-Stored fails flags n msg s h in
            let (ys, im, is, ir) = store_loop-AllStored xs s' (rw (h, store_loop) at e) in
            (
              (n, msg') ∷ ys,
              rw (h, store_loop) (rw (im, hm) (append_assoc s.messages ((n, msg') ∷ []) ys)),
              (refl, hf, is),
              rw (h, store_loop) (rw (ir, hr) refl),
            )
        | inr (a, h) ↦ absurd (ground arith)
      ]
