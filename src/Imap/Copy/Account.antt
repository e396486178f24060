-- ===== src/Imap/Copy/Account.antt =====
-- What COPY does for each message of the set.
use yunt.Prelude.{
  Bool-cases, ◌==◌, ℕ, ◌+◌, ◌<◌, ◌≡◌, refl, ap, sym, ◌∙◌, inl, inr, String, Option, none, some,
  List, [], ◌∷◌, ◌⊎◌, arith, length, map, Option-cases,
}
use yunt.Domain.Message.{Message}
use yunt.Imap.Expunge.Sorting.{count}
use yunt.Imap.Copy.{
  copy_message_data, Repo, CopyState, no_copies, message_at, copy_one, copy_loop, copy_messages,
  sort_uint32,
}
use yunt.Imap.Copy.Sorting.{IsAscending, sort_uint32_sorts}

-- The attempt to copy a message, with the copy that it made.
pub record Attempt : Type 0 where
  pub number : ℕ
  pub source : Message
  pub copy : Option Message

-- Attempts are listed with the newest first.
abbrev pub numbers : List Attempt → List ℕ
numbers [] = []
numbers (a ∷ ts) = a.number ∷ numbers ts

abbrev put_copy : Option Message → List Message → List Message
put_copy none copies = copies
put_copy (some c) copies = c ∷ copies

abbrev pub copies_of : List Attempt → List Message
copies_of [] = []
copies_of (a ∷ ts) = put_copy a.copy (copies_of ts)

abbrev one_failure : Option Message → ℕ
one_failure none = 1
one_failure (some c) = 0

abbrev pub failures : List Attempt → ℕ
failures [] = 0
failures (a ∷ ts) = one_failure a.copy + failures ts

abbrev pub reversed_onto : List ℕ → List ℕ → List ℕ
reversed_onto [] ns = ns
reversed_onto (m ∷ ms) ns = reversed_onto ms (m ∷ ns)

-- What a copy in the mailbox has of its source
pub record IsCopy (mailbox_id : String) (src c : Message) : Type 0 where
  pub in_mailbox : c.mailbox_id ≡ mailbox_id
  pub message_id_lem : c.message_id ≡ src.message_id
  pub addresses :
      (c.sender ≡ src.sender)
      × (c.to ≡ src.to)
      × (c.cc ≡ src.cc)
      × (c.bcc ≡ src.bcc)
      × (c.reply_to ≡ src.reply_to)
  pub subject_lem : c.subject ≡ src.subject
  pub bodies :
      (c.text_body ≡ src.text_body)
      × (c.html_body ≡ src.html_body)
      × (c.content_type ≡ src.content_type)
  pub headers_lem : c.headers ≡ src.headers
  pub status_lem : c.status ≡ src.status
  pub starred : c.is_starred ≡ src.is_starred
  pub sizes : (c.size ≡ src.size) × (c.attachment_count ≡ src.attachment_count)
  pub threading : (c.in_reply_to ≡ src.in_reply_to) × (c.references ≡ src.references)
  pub spam : c.is_spam ≡ src.is_spam
  pub dates : (c.received_at ≡ src.received_at) × (c.sent_at ≡ src.sent_at)

abbrev pub At : ℕ → Message → List (ℕ × Message) → Type 0
At n msg [] = ⊥
At n msg ((k, m) ∷ messages) = ((k ≡ n) × (m ≡ msg)) ⊎ At n msg messages

message_at-At :
    (n : ℕ) (msg : Message) (messages : List (ℕ × Message))
    → message_at n messages ≡ some msg
    → At n msg messages
unfolding message_at
message_at-At n msg [] h = absurd (ground arith)
message_at-At n msg ((k, m) ∷ messages) h = elim (Bool-cases (k == n)) [
  | inl e ↦ inl (ground arith, ground (arith, h, e))
  | inr e ↦ inr (message_at-At n msg messages (ground (arith, h, e)))
]

copy_message_data-IsCopy :
    (now : ℕ) (src : Message) (new_id mailbox_id : String)
    → IsCopy mailbox_id src (copy_message_data now src new_id mailbox_id)
unfolding copy_message_data
copy_message_data-IsCopy now src new_id mailbox_id = record {
  in_mailbox = refl;
  message_id_lem = refl;
  addresses = (refl, refl, refl, refl, refl);
  subject_lem = refl;
  bodies = (refl, refl, refl);
  headers_lem = refl;
  status_lem = refl;
  starred = refl;
  sizes = (refl, refl);
  threading = (refl, refl);
  spam = refl;
  dates = (refl, refl);
}

-- Every number stands in the map.
abbrev AllAt : List (ℕ × Message) → List ℕ → Type 0
AllAt messages [] = Unit
AllAt messages (n ∷ ns) = (0 < count n (map (λ p. p.0) messages)) × AllAt messages ns

no_message_at :
    (n : ℕ) (messages : List (ℕ × Message))
    → message_at n messages ≡ none
    → count n (map (λ p. p.0) messages) ≡ 0
unfolding message_at
no_message_at n [] h = refl
no_message_at n ((k, msg) ∷ messages) h = ground (arith, no_message_at n messages)

AllAt-of-count :
    (messages : List (ℕ × Message)) (ns : List ℕ)
    → ((a : ℕ) → 0 < count a ns → 0 < count a (map (λ p. p.0) messages))
    → AllAt messages ns
AllAt-of-count messages [] h = tt
AllAt-of-count messages (n ∷ ns) h =
    (h n (ground arith), AllAt-of-count messages ns (λ a k. h a (ground arith)))

module _ {UidSet : Type 0} (repo : Repo UidSet) (mailbox_id : String) where
  -- `Create`, given the copies made before, refuses the copy or gives it its UID.
  abbrev pub Tried : List Message → Message → Option Message → Type 0
  Tried before src none = (m : Message) × IsCopy mailbox_id src m × (repo.create before m ≡ none)
  Tried before src (some c) =
      (m : Message) × IsCopy mailbox_id src m
      × (repo.create before m ≡ some c.imap_uid)
      × (c ≡ record m { imap_uid = c.imap_uid })

  abbrev pub AllTried : List (ℕ × Message) → List Attempt → Type 0
  AllTried messages [] = Unit
  AllTried messages (a ∷ ts) =
      At a.number a.source messages × Tried (copies_of ts) a.source a.copy × AllTried messages ts

  abbrev put_uid : ℕ → Option Message → UidSet → UidSet
  put_uid uid none uids = uids
  put_uid uid (some c) uids = repo.add_num uid uids

  abbrev put_new_uid : Option Message → UidSet → UidSet
  put_new_uid none uids = uids
  put_new_uid (some c) uids = repo.add_num c.imap_uid uids

  -- The UIDs of the sources that were copied, and those of the copies
  abbrev pub source_uids_of : List Attempt → UidSet
  source_uids_of [] = repo.no_uids
  source_uids_of (a ∷ ts) = put_uid a.source.imap_uid a.copy (source_uids_of ts)

  abbrev pub dest_uids_of : List Attempt → UidSet
  dest_uids_of [] = repo.no_uids
  dest_uids_of (a ∷ ts) = put_new_uid a.copy (dest_uids_of ts)

  -- The state is the outcome of these attempts.
  pub record IsOutcome (messages : List (ℕ × Message)) (ts : List Attempt) (s : CopyState UidSet)
      : Type 0 where
    pub tried : AllTried messages ts
    pub copies : s.created ≡ copies_of ts
    pub sources : s.result.source_uids ≡ source_uids_of ts
    pub dests : s.result.dest_uids ≡ dest_uids_of ts
    pub copied : s.result.copied_count ≡ length (copies_of ts)
    pub not_copied : s.result.failed_count ≡ failures ts

  copy_one-IsOutcome :
      (now n : ℕ) (messages : List (ℕ × Message)) (ts : List Attempt) (msg : Message)
      (s : CopyState UidSet)
      → At n msg messages
      → IsOutcome messages ts s
      → (c : Option Message) × IsOutcome messages
          (record { number = n; source = msg; copy = c } ∷ ts)
          (copy_one repo now mailbox_id msg s)
  unfolding copy_one
  copy_one-IsOutcome now n messages ts msg s at v =
      let r = s.result in
      let new_id = repo.new_id (r.copied_count + r.failed_count) in
      let m = copy_message_data now msg new_id mailbox_id in
      let like = copy_message_data-IsCopy now msg new_id mailbox_id in
      let same = ap (λ t. repo.create t m) (sym v.copies) in
      elim (Option-cases (repo.create s.created m)) [
        | inl e ↦ (
          none,
          rw (e, copy_one)
              (record {
                tried = (at, (m, like, same ∙ e), v.tried);
                copies = v.copies;
                sources = v.sources;
                dests = v.dests;
                copied = v.copied;
                not_copied = omega (arith, v.not_copied);
              }),
        )
        | inr (uid, e) ↦ (
          some (record m { imap_uid = uid }),
          rw (e, copy_one)
              (record {
                tried = (at, (m, like, same ∙ e, refl), v.tried);
                copies = ap (λ t. record m { imap_uid = uid } ∷ t) v.copies;
                sources = ap (repo.add_num msg.imap_uid) v.sources;
                dests = ap (repo.add_num uid) v.dests;
                copied = omega (arith, v.copied);
                not_copied = omega (arith, v.not_copied);
              }),
        )
      ]

  copy_loop-IsOutcome :
      (now : ℕ) (messages : List (ℕ × Message)) (ns : List ℕ) (ts : List Attempt)
      (s : CopyState UidSet)
      → AllAt messages ns
      → IsOutcome messages ts s
      → (ts' : List Attempt) × IsOutcome messages ts' (copy_loop repo now mailbox_id messages ns s)
        × (reversed_onto (numbers ts') [] ≡ reversed_onto (numbers ts) ns)
  unfolding copy_loop
  copy_loop-IsOutcome now messages [] ts s all_at v = (ts, v, refl)
  copy_loop-IsOutcome now messages (n ∷ ns) ts s all_at v =
      elim (Option-cases (message_at n messages)) [
        | inl e ↦ absurd (omega (arith, no_message_at n messages e, all_at.0))
        | inr (msg, e) ↦
            let (c, w) =
              copy_one-IsOutcome now n messages ts msg s (message_at-At n msg messages e) v in
            rw (e, copy_loop)
              (copy_loop-IsOutcome now messages ns
                (record { number = n; source = msg; copy = c } ∷ ts)
                (copy_one repo now mailbox_id msg s) all_at.1 w)
      ]

  -- COPY tries every message of the set once, in the ascending order of their numbers, and goes on
  -- where a copy fails. What it tries is a copy of that message in the destination, with its
  -- addresses, subject, bodies, headers, status, star, references and dates. A copy that `Create` takes stands in
  -- the destination with the UID that it got, and both UIDs are added to the sets of the result; one
  -- that `Create` refuses leaves nothing. The result counts both.
  pub copy_messages-IsOutcome :
      (now uid_validity : ℕ) (messages : List (ℕ × Message))
      → (ts : List Attempt) × IsOutcome messages ts
          (copy_messages repo now mailbox_id uid_validity messages)
        × IsAscending (reversed_onto (numbers ts) [])
        × ((n : ℕ) → count n (reversed_onto (numbers ts) []) ≡ count n (map (λ p. p.0) messages))
  unfolding copy_messages
  copy_messages-IsOutcome now uid_validity messages =
      let keys = map (λ p. p.0) messages in
      let (ascending, counts) = sort_uint32_sorts keys in
      let (ts, v, e) =
        copy_loop-IsOutcome now messages (sort_uint32 keys) [] (no_copies repo uid_validity)
          (AllAt-of-count messages (sort_uint32 keys) (λ a h. omega (arith, counts a)))
          (record {
            tried = tt;
            copies = refl;
            sources = refl;
            dests = refl;
            copied = refl;
            not_copied = refl;
          }) in
      (ts, v, rw e ascending, λ n. rw e (counts n))
