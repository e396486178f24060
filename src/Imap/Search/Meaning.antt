-- ===== src/Imap/Search/Meaning.antt =====
-- What the criteria of a SEARCH ask for, read off the request itself, and that the matcher over the
-- parsed criteria answers it.
use yunt.Prelude.{
  ℕ, String, Bool, true, not, ◌&&◌, ◌||◌, List, ◌≡◌, refl, sym, ◌∙◌, leb, ltb, arith, if◌then◌else◌,
  inl, inr, Bool-cases,
}
use yunt.Domain.Message.{Message}
use yunt.Imap.Flags.{to_slice, new_flag_set_from_message}
use yunt.Imap.Search.Criteria.{
  GivenFields, Given, given, GivenList, nil, cons, GivenPairs, no_pair, pair, Fields, CriteriaList,
  CriteriaPairs, normalized, plain_fields, parse_fields, is_empty, parse, parse_list, parse_pairs,
}
use yunt.Imap.Search.Match.{
  all, has_flag, in_sets, on_or_after, strictly_before, sent_test, match_body, match_text,
  envelope_match, people_match, content_match, fields_match, matches, none_match, pairs_match,
  text_test, addresses_test,
}
use yunt.Imap.Search.Empty.{is_empty-matches}
use yunt.Imap.Search.Slots.{header_holds}
use yunt.Imap.Search.Headers.{IsSeparate, AreOpen-plain, process_headers-fields_match}

module _ (to_lower : String → String) (contains : String → String → Bool)
    (normalize_date : ℕ → ℕ) where
  -- Every condition of the request holds of the message.
  unfoldable pub given_holds : GivenFields → Message → ℕ → ℕ → Bool
  unfolding in_sets on_or_after strictly_before sent_test all match_body match_text has_flag
      header_holds
  given_holds g msg seq_num uid =
      let msg_flags = to_slice (new_flag_set_from_message msg) in
      in_sets seq_num g.seq_num
      && in_sets uid g.uid
      && on_or_after to_lower contains normalize_date (normalized to_lower normalize_date g.since)
          msg.received_at
      && strictly_before to_lower contains normalize_date
          (normalized to_lower normalize_date g.before) msg.received_at
      && sent_test to_lower contains normalize_date (on_or_after to_lower contains normalize_date)
          (normalized to_lower normalize_date g.sent_since) msg.sent_at
      && sent_test to_lower contains normalize_date
          (strictly_before to_lower contains normalize_date)
          (normalized to_lower normalize_date g.sent_before) msg.sent_at
      && all (match_body to_lower contains normalize_date msg) g.body
      && all (match_text to_lower contains normalize_date msg) g.text
      && all (has_flag msg_flags) g.flag
      && all (λ f. not (has_flag msg_flags f)) g.not_flag
      && not (ltb 0 g.larger && leb msg.size g.larger)
      && not (ltb 0 g.smaller && leb g.smaller msg.size)
      && all (header_holds to_lower contains normalize_date msg) g.header

  -- Where none of the negated criteria hold, and one side of each pair.
  unfoldable mutual
    unfolding given_holds

    pub holds : Given → Message → ℕ → ℕ → Bool
    holds (given g nots ors) msg n u =
        given_holds g msg n u && none_holds nots msg n u && sides_hold ors msg n u

    pub none_holds : GivenList → Message → ℕ → ℕ → Bool
    none_holds nil msg n u = true
    none_holds (cons g gs) msg n u = not (holds g msg n u) && none_holds gs msg n u

    pub sides_hold : GivenPairs → Message → ℕ → ℕ → Bool
    sides_hold no_pair msg n u = true
    sides_hold (pair a b gs) msg n u = (holds a msg n u || holds b msg n u) && sides_hold gs msg n u

  -- Every header list of the request is one that the parser keeps apart.
  unfoldable mutual
    pub IsSeparated : Given → Type 0
    IsSeparated (given g nots ors) =
        IsSeparate to_lower contains normalize_date g.header
        × AllSeparated nots
        × PairsSeparated ors

    pub AllSeparated : GivenList → Type 0
    AllSeparated nil = Unit
    AllSeparated (cons g gs) = IsSeparated g × AllSeparated gs

    pub PairsSeparated : GivenPairs → Type 0
    PairsSeparated no_pair = Unit
    PairsSeparated (pair a b gs) = IsSeparated a × IsSeparated b × PairsSeparated gs

  given_holds-regrouped :
      (a b c d e f p q r s x y h : Bool)
      → (((a && b && c && d && e && f) && true && (p && q && true && r && s && x && y)) && h)
        ≡ (a && b && c && d && e && f && p && q && r && s && x && y && h)
  given_holds-regrouped a b c d e f p q r s x y h = ground arith

  parse_fields-match :
      (g : GivenFields) (msg : Message) (n u : ℕ)
      → IsSeparate to_lower contains normalize_date g.header
      → fields_match to_lower contains normalize_date
          (parse_fields to_lower normalize_date g)
          msg
          n
          u
        ≡ given_holds g msg n u
  unfolding parse_fields given_holds fields_match envelope_match people_match content_match
      plain_fields text_test addresses_test all
  parse_fields-match g msg n u sep =
      process_headers-fields_match to_lower contains normalize_date g.header
        (plain_fields to_lower normalize_date g) msg n u sep
        (AreOpen-plain to_lower contains normalize_date g.header g)
      ∙ regrouped
    where
      flags : List String
      flags = to_slice (new_flag_set_from_message msg)

      regrouped :
          (fields_match to_lower contains normalize_date
              (plain_fields to_lower normalize_date g)
              msg
              n
              u
            && all (header_holds to_lower contains normalize_date msg) g.header)
          ≡ given_holds g msg n u
      regrouped =
          given_holds-regrouped (in_sets n g.seq_num) (in_sets u g.uid)
            (on_or_after to_lower contains normalize_date
              (normalized to_lower normalize_date g.since) msg.received_at)
            (strictly_before to_lower contains normalize_date
              (normalized to_lower normalize_date g.before) msg.received_at)
            (sent_test to_lower contains normalize_date
              (on_or_after to_lower contains normalize_date)
              (normalized to_lower normalize_date g.sent_since) msg.sent_at)
            (sent_test to_lower contains normalize_date
              (strictly_before to_lower contains normalize_date)
              (normalized to_lower normalize_date g.sent_before) msg.sent_at)
            (all (match_body to_lower contains normalize_date msg) g.body)
            (all (match_text to_lower contains normalize_date msg) g.text)
            (all (has_flag flags) g.flag) (all (λ f. not (has_flag flags f)) g.not_flag)
            (not (ltb 0 g.larger && leb msg.size g.larger))
            (not (ltb 0 g.smaller && leb g.smaller msg.size))
            (all (header_holds to_lower contains normalize_date msg) g.header)

  -- `All`, where it is set, says what the tests say.
  all_or :
      (c : Fields) (nots : CriteriaList) (ors : CriteriaPairs) (msg : Message) (n u : ℕ)
      → (if is_empty c nots ors
          then true
          else fields_match to_lower contains normalize_date c msg n u
            && none_match to_lower contains normalize_date nots msg n u
            && pairs_match to_lower contains normalize_date ors msg n u)
        ≡ (fields_match to_lower contains normalize_date c msg n u
            && none_match to_lower contains normalize_date nots msg n u
            && pairs_match to_lower contains normalize_date ors msg n u)
  all_or c nots ors msg n u = elim (Bool-cases (is_empty c nots ors)) [
    | inl h ↦ rw h (sym (is_empty-matches to_lower contains normalize_date c nots ors msg n u h))
    | inr h ↦ rw h refl
  ]

  mutual
    unfolding parse matches holds IsSeparated

    parse-holds :
        (g : Given) (msg : Message) (n u : ℕ)
        → IsSeparated g
        → matches to_lower contains normalize_date (parse to_lower normalize_date g) msg n u
          ≡ holds g msg n u
    parse-holds (given g nots ors) msg n u (sep, ns, os) =
        all_or (parse_fields to_lower normalize_date g) (parse_list to_lower normalize_date nots)
          (parse_pairs to_lower normalize_date ors) msg n u
        ∙ rw
            (
              parse_fields-match g msg n u sep,
              list-holds nots msg n u ns,
              pairs-hold ors msg n u os,
            )
            refl

    list-holds :
        (gs : GivenList) (msg : Message) (n u : ℕ)
        → AllSeparated gs
        → none_match to_lower contains normalize_date
            (parse_list to_lower normalize_date gs)
            msg
            n
            u
          ≡ none_holds gs msg n u
    list-holds nil msg n u s = refl
    list-holds (cons g gs) msg n u (s, ss) =
        rw (parse-holds g msg n u s, list-holds gs msg n u ss) refl

    pairs-hold :
        (gs : GivenPairs) (msg : Message) (n u : ℕ)
        → PairsSeparated gs
        → pairs_match to_lower contains normalize_date
            (parse_pairs to_lower normalize_date gs)
            msg
            n
            u
          ≡ sides_hold gs msg n u
    pairs-hold no_pair msg n u s = refl
    pairs-hold (pair a b gs) msg n u (sa, sb, ss) =
        rw (parse-holds a msg n u sa, parse-holds b msg n u sb, pairs-hold gs msg n u ss) refl
