-- ===== src/Imap/Copy.antt =====
-- internal/imap/copy.go: COPY and MOVE. The repository and the ids of new messages are the
-- environment; a message set comes as the list of its sequence numbers with their messages.
pub mod Sorting
pub mod Outcome
pub mod Account
use yunt.Prelude.{
  ℕ, zero, suc, ◌+◌, String, Bool, Option, none, some, List, [], ◌∷◌, ◌++◌, ltb, ◌==◌,
  if◌then◌else◌, str_eq, length, map,
}
use yunt.Domain.Message.{Message, new_message}
use yunt.Imap.Expunge.{sort_uint32_desc, delete_all}

-- The inner loop of `sortUint32`: the value at `i`, and what stays behind it.
unfoldable pub pass_asc : ℕ → List ℕ → ℕ × List ℕ
pass_asc x [] = (x, [])
pass_asc x (y ∷ ys) =
    let r = pass_asc (if ltb y x then y else x) ys in (r.0, (if ltb y x then x else y) ∷ r.1)

-- The outer loop, with the positions left as fuel.
unfoldable pub sort_asc_from : ℕ → List ℕ → List ℕ
unfolding pass_asc
sort_asc_from zero s = s
sort_asc_from (suc n) [] = []
sort_asc_from (suc n) (x ∷ xs) = let (y, ys) = pass_asc x xs in y ∷ sort_asc_from n ys

unfoldable pub sort_uint32 : List ℕ → List ℕ
unfolding sort_asc_from
sort_uint32 s = sort_asc_from (length s) s

-- What the literal of `copyMessageData` does not name has its zero value.
unfoldable pub copy_message_data : ℕ → Message → String → String → Message
unfolding new_message
copy_message_data now src new_id dest_mailbox_id =
    let blank = new_message now new_id dest_mailbox_id in
    record blank {
      message_id = src.message_id;
      sender = src.sender;
      to = src.to;
      cc = src.cc;
      bcc = src.bcc;
      reply_to = src.reply_to;
      subject = src.subject;
      text_body = src.text_body;
      html_body = src.html_body;
      headers = src.headers;
      content_type = src.content_type;
      size = src.size;
      attachment_count = src.attachment_count;
      status = src.status;
      is_starred = src.is_starred;
      is_spam = src.is_spam;
      in_reply_to = src.in_reply_to;
      references = src.references;
      received_at = src.received_at;
      sent_at = src.sent_at;
    }

-- `UidSet` is `imap.UIDSet` of the IMAP library.
pub record Repo (UidSet : Type 0) : Type 0 where
  pub no_uids : UidSet
  pub add_num : ℕ → UidSet → UidSet
  -- The id of the copy that is tried after so many others.
  pub new_id : ℕ → String
  -- The UID that `Create` assigns, given the messages created before, newest first; none if it fails.
  pub create : List Message → Message → Option ℕ
  pub get_raw_body : String → Option (List ℕ)
  -- Whether `StoreRawBody` fails.
  pub raw_body_fails : String → Bool
  -- Whether `Delete` fails for the message with a sequence number.
  pub delete_fails : ℕ → Bool

pub record CopyResult (UidSet : Type 0) : Type 0 where
  pub source_uids : UidSet
  pub dest_uids : UidSet
  pub uid_validity : ℕ
  pub copied_count : ℕ
  pub failed_count : ℕ

-- The result so far, and what the repository holds: the copies and their raw bodies, newest first.
pub record CopyState (UidSet : Type 0) : Type 0 where
  pub result : CopyResult UidSet
  pub created : List Message
  pub raw_bodies : List (String × List ℕ)

abbrev pub no_copies : {UidSet : Type 0} → Repo UidSet → ℕ → CopyState UidSet
no_copies repo uid_validity = record {
  result = record {
    source_uids = repo.no_uids;
    dest_uids = repo.no_uids;
    uid_validity = uid_validity;
    copied_count = 0;
    failed_count = 0;
  };
  created = [];
  raw_bodies = [];
}

unfoldable pub message_at : ℕ → List (ℕ × Message) → Option Message
message_at n [] = none
message_at n ((k, msg) ∷ messages) = if k == n then some msg else message_at n messages

with_raw_body :
    {UidSet : Type 0}
    → Repo UidSet
    → String
    → String
    → List (String × List ℕ)
    → List (String × List ℕ)
with_raw_body repo src_id new_id stored = elim (repo.get_raw_body src_id) [
  | none ↦ stored
  | some raw ↦
      if length raw == 0
      then stored
      else if repo.raw_body_fails new_id
      then stored
      else (new_id, raw) ∷ stored
]

module _ {UidSet : Type 0} (repo : Repo UidSet) (now : ℕ) (dest_mailbox_id : String) where
  -- One round of the loop of `copyMessages`.
  unfoldable pub copy_one : Message → CopyState UidSet → CopyState UidSet
  unfolding copy_message_data with_raw_body
  copy_one msg s =
      let r = s.result in
      let new_id = repo.new_id (r.copied_count + r.failed_count) in
      let new_msg = copy_message_data now msg new_id dest_mailbox_id in
      elim (repo.create s.created new_msg) [
        | none ↦ record s { result = record r { failed_count = r.failed_count + 1 } }
        | some uid ↦ record {
          result = record r {
            source_uids = repo.add_num msg.imap_uid r.source_uids;
            dest_uids = repo.add_num uid r.dest_uids;
            copied_count = r.copied_count + 1;
          };
          created = record new_msg { imap_uid = uid } ∷ s.created;
          raw_bodies = with_raw_body repo msg.id new_id s.raw_bodies;
        }
      ]

  -- Every number comes from the map, so there is a message at it.
  unfoldable pub copy_loop : List (ℕ × Message) → List ℕ → CopyState UidSet → CopyState UidSet
  unfolding copy_one message_at
  copy_loop messages [] s = s
  copy_loop messages (n ∷ seq_nums) s = elim (message_at n messages) [
    | none ↦ copy_loop messages seq_nums s
    | some msg ↦ copy_loop messages seq_nums (copy_one msg s)
  ]

  unfoldable pub copy_messages : ℕ → List (ℕ × Message) → CopyState UidSet
  unfolding copy_loop sort_uint32
  copy_messages uid_validity messages =
      copy_loop messages (sort_uint32 (map (λ p. p.0) messages)) (no_copies repo uid_validity)

unfoldable pub delete_original_messages :
    {UidSet : Type 0} → Repo UidSet → List (ℕ × Message) → List ℕ
unfolding delete_all sort_uint32_desc
delete_original_messages repo messages =
    delete_all repo.delete_fails (sort_uint32_desc (map (λ p. p.0) messages))

pub data CopyError : Type 0 where
  no_mailbox_selected : CopyError
  no_such_destination : CopyError
  destination_not_found_out : CopyError
  same_mailbox : CopyError
  messages_not_listed : CopyError

-- `equal_fold` is `strings.EqualFold`.
module _ (equal_fold : String → String → Bool) where
  unfoldable pub normalize_mailbox_name : String → String
  normalize_mailbox_name name = if equal_fold name "INBOX" then "INBOX" else name

  -- The loop of `findMailboxByName` over the ids, names and UID validities of the listed mailboxes.
  unfoldable pub find_mailbox : String → List (String × String × ℕ) → Option (String × ℕ)
  unfolding normalize_mailbox_name
  find_mailbox name [] = none
  find_mailbox name ((id, mailbox_name, uid_validity) ∷ items) =
      let rest = find_mailbox name items in
      if equal_fold (normalize_mailbox_name mailbox_name) (normalize_mailbox_name name)
      then some (id, uid_validity)
      else rest

-- What COPY answers with, and what it leaves behind; MOVE adds the numbers that it expunges.
pub data Reply (UidSet : Type 0) : Type 0 where
  refused : CopyError → Reply UidSet
  copied : CopyState UidSet → Reply UidSet
  moved : CopyState UidSet → List ℕ → Reply UidSet

checked_target :
    {UidSet : Type 0} → Option (String × ℕ) → String → (String → ℕ → Reply UidSet) → Reply UidSet
checked_target none selected k = refused no_such_destination
checked_target (some (id, uid_validity)) selected k =
    if str_eq id selected then refused same_mailbox else k id uid_validity

-- The checks that `Copy` and `Move` begin with; `mailboxes` is none where their listing fails.
unfoldable pub with_target :
    {UidSet : Type 0}
    → (String → String → Bool)
    → Option String
    → Option (List (String × String × ℕ))
    → String
    → (String → ℕ → Reply UidSet)
    → Reply UidSet
unfolding checked_target find_mailbox
with_target equal_fold none mailboxes dest_name k = refused no_mailbox_selected
with_target equal_fold (some selected) none dest_name k = refused destination_not_found_out
with_target equal_fold (some selected) (some items) dest_name k =
    checked_target (find_mailbox equal_fold dest_name items) selected k

copied_all :
    {UidSet : Type 0} → Repo UidSet → ℕ → Option (List (ℕ × Message)) → String → ℕ → Reply UidSet
unfolding copy_messages
copied_all repo now none id uid_validity = refused messages_not_listed
copied_all repo now (some []) id uid_validity = copied (no_copies repo uid_validity)
copied_all repo now (some (m ∷ messages)) id uid_validity =
    copied (copy_messages repo now id uid_validity (m ∷ messages))

moved_all :
    {UidSet : Type 0} → Repo UidSet → ℕ → Option (List (ℕ × Message)) → String → ℕ → Reply UidSet
unfolding copy_messages delete_original_messages
moved_all repo now none id uid_validity = refused messages_not_listed
moved_all repo now (some []) id uid_validity = moved (no_copies repo uid_validity) []
moved_all repo now (some (m ∷ messages)) id uid_validity =
    moved (copy_messages repo now id uid_validity (m ∷ messages))
      (delete_original_messages repo (m ∷ messages))

module _ {UidSet : Type 0} (repo : Repo UidSet) (now : ℕ) (equal_fold : String → String → Bool)
    (selected : Option String) where
  -- `messages` is none where their listing fails.
  unfoldable pub copy :
      Option (List (String × String × ℕ)) → String → Option (List (ℕ × Message)) → Reply UidSet
  unfolding with_target copied_all
  copy mailboxes dest_name messages =
      with_target equal_fold selected mailboxes dest_name (copied_all repo now messages)

  unfoldable pub move :
      Option (List (String × String × ℕ)) → String → Option (List (ℕ × Message)) → Reply UidSet
  unfolding with_target moved_all
  move mailboxes dest_name messages =
      with_target equal_fold selected mailboxes dest_name (moved_all repo now messages)
