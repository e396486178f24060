-- ===== src/Examples/Copies.antt =====
-- COPY and MOVE of internal/imap.
use yunt.Prelude.{
  ℕ, ◌≡◌, ◌+◌, refl, String, true, false, none, some, List, [], ◌∷◌, length, map, str_eq,
}
use yunt.Domain.Message.{Message, new_message}
use yunt.Imap.Expunge.{sort_uint32_desc}
use yunt.Imap.Copy.{Repo, CopyState, copy_messages, moved, find_mailbox, move}
use yunt.Imap.Copy.Outcome.{move_loses}
use yunt.Imap.Copy.Sorting.{IsAscending}
use yunt.Imap.Expunge.Sorting.{count}
use yunt.Imap.Copy.Account.{Attempt, IsOutcome, reversed_onto, numbers, copy_messages-IsOutcome}

abbrev answered : Message
answered = let m = new_message 0 "m1" "inbox" in record m { is_answered = true; is_starred = true }

abbrev messages : List (ℕ × Message)
messages = (3, answered) ∷ (1, new_message 0 "m0" "inbox") ∷ []

-- The set of UIDs is the list of the numbers added. The copies are numbered by those before them.
abbrev working : Repo (List ℕ)
working = record {
  no_uids = [];
  add_num = λ uid uids. uid ∷ uids;
  new_id = λ n. "copy";
  create = λ made msg. some (length made + 1);
  get_raw_body = λ id. none;
  raw_body_fails = λ id. false;
  delete_fails = λ n. false;
}

copy_messages-IsOutcome_example :
    (ts : List Attempt) × IsOutcome working "archive" messages ts
      (copy_messages working 5 "archive" 7 messages)
    × IsAscending (reversed_onto (numbers ts) [])
    × ((n : ℕ) → count n (reversed_onto (numbers ts) []) ≡ count n (map (λ p. p.0) messages))
copy_messages-IsOutcome_example = copy_messages-IsOutcome working "archive" 5 7 messages

abbrev broken : Repo (List ℕ)
broken = record working { create = λ made msg. none }

abbrev mailboxes : List (String × String × ℕ)
mailboxes = ("inbox", "INBOX", 6) ∷ ("archive", "Archive", 7) ∷ []

archive_found : find_mailbox str_eq "Archive" mailboxes ≡ some ("archive", 7)
unfolding find_mailbox
archive_found = refl

move_loses_example :
    (s : CopyState (List ℕ)) × (move broken 5 str_eq
        (some "inbox")
        (some mailboxes)
        "Archive"
        (some messages)
      ≡ moved s (sort_uint32_desc (map (λ p. p.0) messages)))
    × (s.created ≡ [])
move_loses_example =
    move_loses broken 5 str_eq "inbox" "Archive" "archive" 7 mailboxes (3, answered)
      ((1, new_message 0 "m0" "inbox") ∷ []) archive_found refl (λ made msg. refl) (λ n. refl)
