-- ===== src/Imap/Search/Match.antt =====
-- `MessageMatcher` of internal/imap/search_parser.go, with `String` of an address and `GetHeader` of
-- internal/domain. `strings.ToLower`, `strings.Contains` and `normalizeDate`'s calls of the package time
-- are parameters. A map is visited in its list's order.
use Prim.Native.String.{◌++◌ as joined_with}
use yunt.Prelude.{
  ℕ, String, Bool, true, false, not, ◌&&◌, ◌||◌, Option, none, some, List, [], ◌∷◌, leb, ltb,
  if◌then◌else◌, str_eq,
}
use yunt.Prelude.Maps.{GoMap, lookup}
use yunt.Domain.Message.{EmailAddress, Message}
use yunt.Imap.Flags.{to_slice, new_flag_set_from_message}
use yunt.Imap.Search.Criteria.{
  NumSet, HeaderCriterion, Fields, SearchCriteria, criteria, CriteriaList, none_left, more,
  CriteriaPairs, no_more, either_of, is_nil,
}

-- `String` of an address
unfoldable pub address_string : EmailAddress → String
address_string e =
    if str_eq e.name ""
    then e.address
    else joined_with e.name (joined_with " <" (joined_with e.address ">"))

-- The loops that look for one hit, and those that stop at the first miss.
unfoldable pub any {ℓ} : {A : Type ℓ} → (A → Bool) → List A → Bool
any p [] = false
any p (x ∷ xs) = p x || any p xs

unfoldable pub all {ℓ} : {A : Type ℓ} → (A → Bool) → List A → Bool
all p [] = true
all p (x ∷ xs) = p x && all p xs

unfoldable pub has_flag : List String → String → Bool
unfolding any
has_flag flags flag = any (λ f. str_eq f flag) flags

-- A number is in one of the sets, where there are any.
unfoldable pub in_sets : ℕ → List NumSet → Bool
unfolding any
in_sets n sets = if is_nil sets then true else any (λ s. s n) sets

module _ (to_lower : String → String) (contains : String → String → Bool)
    (normalize_date : ℕ → ℕ) where
  unfoldable pub contains_ignore_case : String → String → Bool
  contains_ignore_case s substr = contains (to_lower s) (to_lower substr)

  -- `Since`, with the date of the message
  unfoldable pub on_or_after : Option ℕ → ℕ → Bool
  on_or_after none date = true
  on_or_after (some t) date = not (ltb (normalize_date date) t)

  unfoldable pub strictly_before : Option ℕ → ℕ → Bool
  strictly_before none date = true
  strictly_before (some t) date = ltb (normalize_date date) t

  -- The same for the date of sending, which a message may lack.
  unfoldable pub sent_test : (Option ℕ → ℕ → Bool) → Option ℕ → Option ℕ → Bool
  sent_test test none sent = true
  sent_test test (some t) none = false
  sent_test test (some t) (some date) = test (some t) date

  unfoldable pub text_test : String → String → Bool
  unfolding contains_ignore_case
  text_test wanted s = if str_eq wanted "" then true else contains_ignore_case s wanted

  unfoldable pub addresses_test : String → List EmailAddress → Bool
  unfolding any contains_ignore_case address_string
  addresses_test wanted addrs =
      if str_eq wanted ""
      then true
      else any (λ a. contains_ignore_case (address_string a) wanted) addrs

  unfoldable pub match_body : Message → String → Bool
  unfolding contains_ignore_case
  match_body msg search =
      contains_ignore_case msg.text_body search || contains_ignore_case msg.html_body search

  unfoldable pub match_text : Message → String → Bool
  unfolding contains_ignore_case any address_string match_body
  match_text msg search =
      contains_ignore_case msg.subject search
      || contains_ignore_case (address_string msg.sender) search
      || any (λ a. contains_ignore_case (address_string a) search) msg.to
      || any (λ a. contains_ignore_case (address_string a) search) msg.cc
      || any (λ h. contains_ignore_case h.1 search) msg.headers
      || match_body msg search

  unfoldable pub folded_header : String → GoMap String → String
  folded_header name_lower [] = ""
  folded_header name_lower ((key, val) ∷ headers) =
      if str_eq (to_lower key) name_lower then val else folded_header name_lower headers

  unfoldable pub get_header : Message → String → String
  unfolding folded_header
  get_header msg name = elim (lookup name msg.headers) [
    | some val ↦ val
    | none ↦ folded_header (to_lower name) msg.headers
  ]

  unfoldable pub match_header : Message → HeaderCriterion → Bool
  unfolding get_header contains_ignore_case
  match_header msg crit =
      let header_value = get_header msg crit.key in
      if str_eq crit.value ""
      then not (str_eq header_value "")
      else contains_ignore_case header_value crit.value

  -- The tests of `Matches` on the fields, in its order: where and when, who and about what, and the
  -- content.
  unfoldable pub envelope_match : Fields → Message → ℕ → ℕ → Bool
  unfolding in_sets on_or_after strictly_before sent_test
  envelope_match c msg seq_num uid =
      in_sets seq_num c.seq_nums
      && in_sets uid c.uids
      && on_or_after c.since msg.received_at
      && strictly_before c.before msg.received_at
      && sent_test on_or_after c.sent_since msg.sent_at
      && sent_test strictly_before c.sent_before msg.sent_at

  unfoldable pub people_match : Fields → Message → Bool
  unfolding text_test addresses_test
  people_match c msg =
      text_test c.sender (address_string msg.sender)
      && addresses_test c.to msg.to
      && addresses_test c.cc msg.cc
      && addresses_test c.bcc msg.bcc
      && text_test c.subject msg.subject

  unfoldable pub content_match : Fields → Message → Bool
  unfolding all match_body match_text match_header has_flag
  content_match c msg =
      let msg_flags = to_slice (new_flag_set_from_message msg) in
      all (match_body msg) c.body
      && all (match_text msg) c.text
      && all (match_header msg) c.header
      && all (has_flag msg_flags) c.flags
      && all (λ f. not (has_flag msg_flags f)) c.not_flags
      && not (ltb 0 c.larger && leb msg.size c.larger)
      && not (ltb 0 c.smaller && leb c.smaller msg.size)

  unfoldable pub fields_match : Fields → Message → ℕ → ℕ → Bool
  unfolding envelope_match people_match content_match
  fields_match c msg seq_num uid =
      envelope_match c msg seq_num uid && people_match c msg && content_match c msg

  unfoldable mutual
    unfolding fields_match

    pub matches : SearchCriteria → Message → ℕ → ℕ → Bool
    matches (criteria is_all c nots ors) msg seq_num uid =
        let no_not = none_match nots msg seq_num uid in
        let some_side = pairs_match ors msg seq_num uid in
        if is_all then true else fields_match c msg seq_num uid && no_not && some_side

    pub none_match : CriteriaList → Message → ℕ → ℕ → Bool
    none_match none_left msg seq_num uid = true
    none_match (more c cs) msg seq_num uid =
        not (matches c msg seq_num uid) && none_match cs msg seq_num uid

    pub pairs_match : CriteriaPairs → Message → ℕ → ℕ → Bool
    pairs_match no_more msg seq_num uid = true
    pairs_match (either_of a b cs) msg seq_num uid =
        (matches a msg seq_num uid || matches b msg seq_num uid) && pairs_match cs msg seq_num uid
