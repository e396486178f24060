-- ===== src/Imap/Search.antt =====
-- `SearchHandler` and `OptimizedSearchHandler` of internal/imap/search.go. The queries of the
-- repository are arguments: each returns the messages, or none where it fails. A number set of the
-- answer is the list of its numbers.
pub mod Criteria
pub mod Match
pub mod Empty
pub mod Slots
pub mod Headers
pub mod Meaning
pub mod Results
use yunt.Prelude.{
  ℕ, zero, suc, ◌%◌, ◌^◌, String, Bool, true, false, not, ◌&&◌, ◌||◌, Option, none, some, List, [],
  ◌∷◌, ltb, leb, if◌then◌else◌, str_eq, length, map,
}
use yunt.Domain.Message.{Message, MessageStatus, message_read, message_unread}
use yunt.Imap.Flags.{flag_seen, flag_flagged}
use yunt.Imap.Search.Criteria.{
  HeaderCriterion, GivenFields, Given, given, GivenList, nil, cons, GivenPairs, no_pair, pair,
  Fields, SearchCriteria, criteria, none_left, no_more, normalized, parse, parse_fields, is_nil,
}
use yunt.Imap.Search.Match.{matches}

pub data NumKind : Type 0 where
  num_seq num_uid : NumKind

pub record SearchResult : Type 0 where
  pub seq_num : ℕ
  pub uid : ℕ

pub record SearchOptions : Type 0 where
  pub return_min : Bool
  pub return_max : Bool
  pub return_all : Bool
  pub return_count : Bool

pub record SearchData : Type 0 where
  pub all_numbers : List ℕ
  pub min : ℕ
  pub max : ℕ
  pub count : ℕ

pub data SearchOutcome : Type 0 where
  no_mailbox list_failed search_failed : SearchOutcome
  found : SearchData → SearchOutcome

abbrev pub number_of : NumKind → SearchResult → ℕ
number_of num_seq r = r.seq_num
number_of num_uid r = r.uid

-- `uint32(i + 1)`
abbrev pub seq_num_at : ℕ → ℕ
seq_num_at i = suc i % 2 ^ 32

-- The loop over the messages, with the test that it applies.
unfoldable pub collect : (Message → ℕ → ℕ → Bool) → ℕ → List Message → List SearchResult
collect test i [] = []
collect test i (msg ∷ msgs) =
    let rest = collect test (suc i) msgs in
    if test msg (seq_num_at i) msg.imap_uid
    then record { seq_num = seq_num_at i; uid = msg.imap_uid } ∷ rest
    else rest

-- `sort.Slice` by the number of the kind
unfoldable pub insert_result : NumKind → SearchResult → List SearchResult → List SearchResult
insert_result kind r [] = r ∷ []
insert_result kind r (s ∷ rs) =
    let rest = insert_result kind r rs in
    if ltb (number_of kind s) (number_of kind r) then s ∷ rest else r ∷ s ∷ rs

unfoldable pub sort_results : NumKind → List SearchResult → List SearchResult
unfolding insert_result
sort_results kind [] = []
sort_results kind (r ∷ rs) = insert_result kind r (sort_results kind rs)

unfoldable pub last_of : ℕ → List ℕ → ℕ
last_of n [] = n
last_of n (m ∷ ms) = last_of m ms

abbrev pub empty_data : SearchData
empty_data = record { all_numbers = []; min = 0; max = 0; count = 0 }

-- The answer to the numbers that were found, in their order.
unfoldable pub data_of : List ℕ → Option SearchOptions → SearchData
unfolding last_of
data_of [] options = empty_data
data_of (n ∷ ns) none = record { all_numbers = n ∷ ns; min = 0; max = 0; count = 0 }
data_of (n ∷ ns) (some options) = record {
  all_numbers = n ∷ ns;
  min = if options.return_min then n else 0;
  max = if options.return_max then last_of n ns else 0;
  count = if options.return_count then length (n ∷ ns) % 2 ^ 32 else 0;
}

unfoldable pub build_search_data : NumKind → List SearchResult → Option SearchOptions → SearchData
unfolding data_of
build_search_data kind results options = data_of (map (number_of kind) results) options

-- What a query's messages are answered with.
unfoldable pub answered :
    (Message → ℕ → ℕ → Bool)
    → NumKind
    → Option SearchOptions
    → SearchOutcome
    → Option (List Message)
    → SearchOutcome
unfolding collect sort_results build_search_data
answered test kind options failure none = failure
answered test kind options failure (some msgs) =
    found (build_search_data kind (sort_results kind (collect test 0 msgs)) options)

-- The part of `repository.MessageFilter` that the search sets.
pub record MessageFilter : Type 0 where
  pub mailbox_id : String
  pub status : Option MessageStatus
  pub is_starred : Option Bool
  pub is_spam : Option Bool
  pub from_address_contains : String
  pub to_address_contains : String
  pub subject_contains : String
  pub body_contains : String
  pub search_text : String
  pub received_after : Option ℕ
  pub received_before : Option ℕ
  pub sent_after : Option ℕ
  pub sent_before : Option ℕ
  pub min_size : Option ℕ
  pub max_size : Option ℕ

abbrev pub flag_junk : String
flag_junk = "$Junk"

abbrev pub head_or : String → List String → String
head_or d [] = d
head_or d (s ∷ ss) = s

abbrev pub positive : ℕ → Option ℕ
positive zero = none
positive (suc n) = some (suc n)

unfoldable pub filter_flag : Bool → String → MessageFilter → MessageFilter
filter_flag wanted flag f =
    if str_eq flag flag_seen
    then record f { status = some (if wanted then message_read else message_unread) }
    else if str_eq flag flag_flagged
    then record f { is_starred = some wanted }
    else if str_eq flag flag_junk
    then record f { is_spam = some wanted }
    else f

unfoldable pub filter_flags : Bool → List String → MessageFilter → MessageFilter
unfolding filter_flag
filter_flags wanted [] f = f
filter_flags wanted (flag ∷ flags) f = filter_flags wanted flags (filter_flag wanted flag f)

abbrev pub empty_filter : String → MessageFilter
empty_filter mailbox_id = record {
  mailbox_id = mailbox_id;
  status = none;
  is_starred = none;
  is_spam = none;
  from_address_contains = "";
  to_address_contains = "";
  subject_contains = "";
  body_contains = "";
  search_text = "";
  received_after = none;
  received_before = none;
  sent_after = none;
  sent_before = none;
  min_size = none;
  max_size = none;
}

abbrev pub no_given : GivenList → Bool
no_given nil = true
no_given (cons g gs) = false

abbrev pub no_given_pairs : GivenPairs → Bool
no_given_pairs no_pair = true
no_given_pairs (pair a b gs) = false

unfoldable pub can_optimize : Option Given → Bool
can_optimize none = true
can_optimize (some (given g nots ors)) =
    is_nil g.seq_num && is_nil g.uid && no_given nots && no_given_pairs ors

-- `&SearchCriteria{All: true}`
abbrev no_fields : Fields
no_fields = record {
  seq_nums = [];
  uids = [];
  since = none;
  before = none;
  sent_since = none;
  sent_before = none;
  sender = "";
  to = "";
  cc = "";
  bcc = "";
  subject = "";
  body = [];
  text = [];
  header = [];
  flags = [];
  not_flags = [];
  larger = 0;
  smaller = 0;
}

module _ (to_lower : String → String) (contains : String → String → Bool)
    (normalize_date : ℕ → ℕ) where
  abbrev pub parse_criteria : Option Given → SearchCriteria
  parse_criteria none = criteria true no_fields none_left no_more
  parse_criteria (some g) = parse to_lower normalize_date g

  unfoldable pub filter_header : HeaderCriterion → MessageFilter → MessageFilter
  filter_header h f =
      let k = to_lower h.key in
      if str_eq k "from"
      then record f { from_address_contains = h.value }
      else if str_eq k "to"
      then record f { to_address_contains = h.value }
      else if str_eq k "subject"
      then record f { subject_contains = h.value }
      else f

  unfoldable pub filter_headers : List HeaderCriterion → MessageFilter → MessageFilter
  unfolding filter_header
  filter_headers [] f = f
  filter_headers (h ∷ hs) f = filter_headers hs (filter_header h f)

  unfoldable pub build_message_filter : String → Option Given → MessageFilter
  unfolding filter_flags filter_headers
  build_message_filter mailbox_id none = empty_filter mailbox_id
  build_message_filter mailbox_id (some (given g nots ors)) =
      let dated = record (empty_filter mailbox_id) {
        received_after = normalized to_lower normalize_date g.since;
        received_before = normalized to_lower normalize_date g.before;
        sent_after = normalized to_lower normalize_date g.sent_since;
        sent_before = normalized to_lower normalize_date g.sent_before;
      } in
      let flagged = filter_flags false g.not_flag (filter_flags true g.flag dated) in
      let sized = record flagged { min_size = positive g.larger; max_size = positive g.smaller } in
      let headed = filter_headers g.header sized in
      record headed {
        body_contains = head_or headed.body_contains g.body;
        search_text = head_or headed.search_text g.text;
      }

  -- `Search` of the plain handler, with its listing of the mailbox by ascending uids.
  unfoldable pub search :
      (String → Option (List Message))
      → Option String
      → NumKind
      → Option Given
      → Option SearchOptions
      → SearchOutcome
  unfolding answered matches parse
  search list_by_mailbox none kind g options = no_mailbox
  search list_by_mailbox (some mailbox_id) kind g options =
      answered (matches to_lower contains normalize_date (parse_criteria g)) kind options
        list_failed (list_by_mailbox mailbox_id)

  -- `optimizedSearch`: what the query returns is numbered as it comes.
  unfoldable pub optimized_search :
      (MessageFilter → Option (List Message))
      → String
      → NumKind
      → Option Given
      → Option SearchOptions
      → SearchOutcome
  unfolding answered build_message_filter
  optimized_search list mailbox_id kind g options =
      answered (λ msg seq_num uid. true) kind options search_failed
        (list (build_message_filter mailbox_id g))

  -- `Search` of the optimized handler.
  unfoldable pub search_optimized :
      (String → Option (List Message))
      → (MessageFilter → Option (List Message))
      → Option String
      → NumKind
      → Option Given
      → Option SearchOptions
      → SearchOutcome
  unfolding search optimized_search can_optimize
  search_optimized list_by_mailbox list none kind g options = no_mailbox
  search_optimized list_by_mailbox list (some mailbox_id) kind g options =
      if can_optimize g
      then optimized_search list mailbox_id kind g options
      else search list_by_mailbox (some mailbox_id) kind g options
