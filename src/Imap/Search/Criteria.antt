-- ===== src/Imap/Search/Criteria.antt =====
-- The criteria of internal/imap/search_parser.go: the library's, the internal ones, and the parser that
-- turns the first into the second. A number set of the library is given by its test `Contains`, and a
-- date that is not set is none. `strings.ToLower` and `normalizeDate`'s calls of the package time are
-- parameters.
use yunt.Prelude.{
  ℕ, String, Bool, true, false, ◌&&◌, Option, none, some, List, [], ◌∷◌, ◌++◌, ◌==◌, if◌then◌else◌,
  str_eq,
}

abbrev pub NumSet : Type 0
NumSet = ℕ → Bool

pub record HeaderCriterion : Type 0 where
  pub key : String
  pub value : String

-- The library's criteria but for the nested ones.
pub record GivenFields : Type 0 where
  pub seq_num : List NumSet
  pub uid : List NumSet
  pub since : Option ℕ
  pub before : Option ℕ
  pub sent_since : Option ℕ
  pub sent_before : Option ℕ
  pub header : List HeaderCriterion
  pub body : List String
  pub text : List String
  pub flag : List String
  pub not_flag : List String
  pub larger : ℕ
  pub smaller : ℕ

-- With the negated criteria and the pairs of alternatives.
mutual
  pub data Given : Type 0 where
    given : GivenFields → GivenList → GivenPairs → Given

  pub data GivenList : Type 0 where
    nil : GivenList
    cons : Given → GivenList → GivenList

  pub data GivenPairs : Type 0 where
    no_pair : GivenPairs
    pair : Given → Given → GivenPairs → GivenPairs

-- The internal criteria but for `All` and the nested ones.
pub record Fields : Type 0 where
  pub seq_nums : List NumSet
  pub uids : List NumSet
  pub since : Option ℕ
  pub before : Option ℕ
  pub sent_since : Option ℕ
  pub sent_before : Option ℕ
  pub sender : String
  pub to : String
  pub cc : String
  pub bcc : String
  pub subject : String
  pub body : List String
  pub text : List String
  pub header : List HeaderCriterion
  pub flags : List String
  pub not_flags : List String
  pub larger : ℕ
  pub smaller : ℕ

-- The first argument is `All`.
mutual
  pub data SearchCriteria : Type 0 where
    criteria : Bool → Fields → CriteriaList → CriteriaPairs → SearchCriteria

  pub data CriteriaList : Type 0 where
    none_left : CriteriaList
    more : SearchCriteria → CriteriaList → CriteriaList

  pub data CriteriaPairs : Type 0 where
    no_more : CriteriaPairs
    either_of : SearchCriteria → SearchCriteria → CriteriaPairs → CriteriaPairs

abbrev pub is_nil {ℓ} : {A : Type ℓ} → List A → Bool
is_nil [] = true
is_nil (x ∷ xs) = false

abbrev pub is_none {ℓ} : {A : Type ℓ} → Option A → Bool
is_none none = true
is_none (some x) = false

abbrev pub no_list : CriteriaList → Bool
no_list none_left = true
no_list (more c cs) = false

abbrev pub no_pairs : CriteriaPairs → Bool
no_pairs no_more = true
no_pairs (either_of a b cs) = false

-- `isEmpty`: where and when, who and about what, and the content, in its order.
abbrev pub envelope_empty : Fields → Bool
envelope_empty c =
    is_nil c.seq_nums
    && is_nil c.uids
    && is_none c.since
    && is_none c.before
    && is_none c.sent_since
    && is_none c.sent_before

abbrev pub people_empty : Fields → Bool
people_empty c =
    str_eq c.sender "" && str_eq c.to "" && str_eq c.cc "" && str_eq c.bcc "" && str_eq c.subject ""

abbrev pub content_empty : Fields → Bool
content_empty c =
    is_nil c.body
    && is_nil c.text
    && is_nil c.header
    && is_nil c.flags
    && is_nil c.not_flags
    && c.larger == 0
    && c.smaller == 0

unfoldable pub is_empty : Fields → CriteriaList → CriteriaPairs → Bool
is_empty c nots ors =
    envelope_empty c && people_empty c && content_empty c && no_list nots && no_pairs ors

-- The cases of the switch on a header's name.
pub data Slot : Type 0 where
  from to cc bcc subject other : Slot

-- A value that is empty leaves what was there.
abbrev pub over : String → String → String
over value old = if str_eq value "" then old else value

abbrev pub assign : Slot → HeaderCriterion → Fields → Fields
assign from h c = record c { sender = over h.value c.sender }
assign to h c = record c { to = over h.value c.to }
assign cc h c = record c { cc = over h.value c.cc }
assign bcc h c = record c { bcc = over h.value c.bcc }
assign subject h c = record c { subject = over h.value c.subject }
assign other h c = record c { header = c.header ++ h ∷ [] }

module _ (to_lower : String → String) (normalize_date : ℕ → ℕ) where
  abbrev pub normalized : Option ℕ → Option ℕ
  normalized none = none
  normalized (some t) = some (normalize_date t)

  unfoldable pub slot_of : String → Slot
  slot_of key =
      let k = to_lower key in
      if str_eq k "from"
      then from
      else if str_eq k "to"
      then to
      else if str_eq k "cc"
      then cc
      else if str_eq k "bcc"
      then bcc
      else if str_eq k "subject"
      then subject
      else other

  unfoldable pub process_header_criterion : HeaderCriterion → Fields → Fields
  unfolding slot_of
  process_header_criterion h c = assign (slot_of h.key) h c

  unfoldable pub process_headers : List HeaderCriterion → Fields → Fields
  unfolding process_header_criterion
  process_headers [] c = c
  process_headers (h ∷ hs) c = process_headers hs (process_header_criterion h c)

  -- The fields before the loop over the headers, with those that the loop leaves alone filled in.
  unfoldable pub plain_fields : GivenFields → Fields
  plain_fields g = record {
    seq_nums = g.seq_num;
    uids = g.uid;
    since = normalized g.since;
    before = normalized g.before;
    sent_since = normalized g.sent_since;
    sent_before = normalized g.sent_before;
    sender = "";
    to = "";
    cc = "";
    bcc = "";
    subject = "";
    body = g.body;
    text = g.text;
    header = [];
    flags = g.flag;
    not_flags = g.not_flag;
    larger = g.larger;
    smaller = g.smaller;
  }

  unfoldable pub parse_fields : GivenFields → Fields
  unfolding process_headers plain_fields
  parse_fields g = process_headers g.header (plain_fields g)

  unfoldable mutual
    unfolding parse_fields is_empty

    pub parse : Given → SearchCriteria
    parse (given g nots ors) =
        let c = parse_fields g in
        let ns = parse_list nots in let os = parse_pairs ors in criteria (is_empty c ns os) c ns os

    pub parse_list : GivenList → CriteriaList
    parse_list nil = none_left
    parse_list (cons g gs) = more (parse g) (parse_list gs)

    pub parse_pairs : GivenPairs → CriteriaPairs
    parse_pairs no_pair = no_more
    parse_pairs (pair a b gs) = either_of (parse a) (parse b) (parse_pairs gs)
