-- ===== src/Examples/Searches.antt =====
-- SEARCH at a concrete mailbox.
use yunt.Prelude.{ℕ, String, Bool, true, false, Option, none, some, List, [], ◌∷◌, str_eq}
use yunt.Domain.Message.{Message, new_message}
use yunt.Imap.Flags.{flag_seen, flag_answered}
use yunt.Imap.Search.Criteria.{GivenFields, Given, given, nil, cons, no_pair}
use yunt.Imap.Search.{MessageFilter}

-- The texts of these examples are in lower case, and a text contains but itself.
abbrev to_lower : String → String
to_lower s = s

abbrev contains : String → String → Bool
contains s substr = str_eq s substr

abbrev normalize_date : ℕ → ℕ
normalize_date t = t

abbrev message : ℕ → Bool → Message
message uid answered = record (new_message 5 "m" "b") {
  imap_uid = uid;
  is_answered = answered;
  subject = "hi";
}

abbrev none_given : GivenFields
none_given = record {
  seq_num = [];
  uid = [];
  since = none;
  before = none;
  sent_since = none;
  sent_before = none;
  header = [];
  body = [];
  text = [];
  flag = [];
  not_flag = [];
  larger = 0;
  smaller = 0;
}

-- SUBJECT hi ANSWERED NOT SEEN
abbrev request : Given
request =
    given
      (record none_given {
        header = record { key = "subject"; value = "hi" } ∷ [];
        flag = flag_answered ∷ [];
      })
      (cons (given (record none_given { flag = flag_seen ∷ [] }) nil no_pair) nil) no_pair

abbrev two_messages : List Message
two_messages = message 9 false ∷ message 12 true ∷ []

abbrev listed : String → Option (List Message)
listed mailbox_id = some two_messages

-- The one message that is marked as read is the second of the mailbox.
abbrev queried : MessageFilter → Option (List Message)
queried f = some (message 12 true ∷ [])
