-- ===== src/Imap/Search/Empty.antt =====
-- Criteria with no condition match every message.
use yunt.Prelude.{
  ℕ, String, Bool, true, false, ◌&&◌, Option, none, some, List, [], ◌∷◌, ◌≡◌, refl, ◌==◌, arith,
  str_eq,
}
use yunt.Domain.Message.{EmailAddress, Message}
use yunt.Imap.Search.Criteria.{
  NumSet, Fields, CriteriaList, none_left, more, CriteriaPairs, no_more, either_of, is_nil, is_none,
  no_list, no_pairs, envelope_empty, people_empty, content_empty, is_empty,
}
use yunt.Imap.Search.Match.{
  all, in_sets, on_or_after, strictly_before, sent_test, text_test, addresses_test, envelope_match,
  people_match, content_match, fields_match, none_match, pairs_match,
}

pub and_left : (a b : Bool) → (a && b) ≡ true → a ≡ true
and_left true b h = refl
and_left false b h = h

pub and_right : (a b : Bool) → (a && b) ≡ true → b ≡ true
and_right true b h = h
and_right false b h = ground arith

pub and_intro : {a b : Bool} → a ≡ true → b ≡ true → (a && b) ≡ true
and_intro ha hb = rw (ha, hb) refl

all-nil {ℓ} : {A : Type ℓ} (p : A → Bool) (xs : List A) → is_nil xs ≡ true → all p xs ≡ true
unfolding all
all-nil p [] h = refl
all-nil p (x ∷ xs) h = ground arith

in_sets-nil : (n : ℕ) (sets : List NumSet) → is_nil sets ≡ true → in_sets n sets ≡ true
unfolding in_sets
in_sets-nil n sets h = rw h refl

module _ (to_lower : String → String) (contains : String → String → Bool)
    (normalize_date : ℕ → ℕ) where
  on_or_after-none :
      (o : Option ℕ) (d : ℕ)
      → is_none o ≡ true
      → on_or_after to_lower contains normalize_date o d ≡ true
  unfolding on_or_after
  on_or_after-none none d h = refl
  on_or_after-none (some t) d h = ground arith

  strictly_before-none :
      (o : Option ℕ) (d : ℕ)
      → is_none o ≡ true
      → strictly_before to_lower contains normalize_date o d ≡ true
  unfolding strictly_before
  strictly_before-none none d h = refl
  strictly_before-none (some t) d h = ground arith

  sent_test-none :
      (test : Option ℕ → ℕ → Bool) (o sent : Option ℕ)
      → is_none o ≡ true
      → sent_test to_lower contains normalize_date test o sent ≡ true
  unfolding sent_test
  sent_test-none test none sent h = refl
  sent_test-none test (some t) sent h = ground arith

  pub text_test-empty :
      (wanted s : String)
      → str_eq wanted "" ≡ true
      → text_test to_lower contains normalize_date wanted s ≡ true
  unfolding text_test
  text_test-empty wanted s h = rw h refl

  pub addresses_test-empty :
      (wanted : String) (addrs : List EmailAddress)
      → str_eq wanted "" ≡ true
      → addresses_test to_lower contains normalize_date wanted addrs ≡ true
  unfolding addresses_test
  addresses_test-empty wanted addrs h = rw h refl

  envelope_match-empty :
      (c : Fields) (msg : Message) (n u : ℕ)
      → envelope_empty c ≡ true
      → envelope_match to_lower contains normalize_date c msg n u ≡ true
  unfolding envelope_match
  envelope_match-empty c msg n u h5 =
      let h4 = and_left _ (is_none c.sent_before) h5 in
      let h3 = and_left _ (is_none c.sent_since) h4 in
      let h2 = and_left _ (is_none c.before) h3 in
      let h1 = and_left _ (is_none c.since) h2 in
      rw
        (
          in_sets-nil n c.seq_nums (and_left _ (is_nil c.uids) h1),
          in_sets-nil u c.uids (and_right (is_nil c.seq_nums) _ h1),
          on_or_after-none c.since msg.received_at (and_right _ (is_none c.since) h2),
          strictly_before-none c.before msg.received_at (and_right _ (is_none c.before) h3),
          sent_test-none (on_or_after to_lower contains normalize_date) c.sent_since msg.sent_at
              (and_right _ (is_none c.sent_since) h4),
          sent_test-none (strictly_before to_lower contains normalize_date) c.sent_before
              msg.sent_at (and_right _ (is_none c.sent_before) h5),
        )
        refl

  people_match-empty :
      (c : Fields) (msg : Message)
      → people_empty c ≡ true
      → people_match to_lower contains normalize_date c msg ≡ true
  unfolding people_match
  people_match-empty c msg h4 =
      let h3 = and_left _ (str_eq c.subject "") h4 in
      let h2 = and_left _ (str_eq c.bcc "") h3 in
      let h1 = and_left _ (str_eq c.cc "") h2 in
      and_intro
        (and_intro
          (and_intro
            (and_intro (text_test-empty c.sender _ (and_left _ (str_eq c.to "") h1))
              (addresses_test-empty c.to msg.to (and_right (str_eq c.sender "") _ h1)))
            (addresses_test-empty c.cc msg.cc (and_right _ (str_eq c.cc "") h2)))
          (addresses_test-empty c.bcc msg.bcc (and_right _ (str_eq c.bcc "") h3)))
        (text_test-empty c.subject msg.subject (and_right _ (str_eq c.subject "") h4))

  content_match-empty :
      (c : Fields) (msg : Message)
      → content_empty c ≡ true
      → content_match to_lower contains normalize_date c msg ≡ true
  unfolding content_match
  content_match-empty c msg h6 =
      let h5 = and_left _ (c.smaller == 0) h6 in
      let h4 = and_left _ (c.larger == 0) h5 in
      let h3 = and_left _ (is_nil c.not_flags) h4 in
      let h2 = and_left _ (is_nil c.flags) h3 in
      let h1 = and_left _ (is_nil c.header) h2 in
      let larger_zero = and_right _ (c.larger == 0) h5 in
      let smaller_zero = and_right _ (c.smaller == 0) h6 in
      and_intro
        (and_intro
          (and_intro
            (and_intro
              (and_intro
                (and_intro (all-nil _ c.body (and_left _ (is_nil c.text) h1))
                  (all-nil _ c.text (and_right (is_nil c.body) _ h1)))
                (all-nil _ c.header (and_right _ (is_nil c.header) h2)))
              (all-nil _ c.flags (and_right _ (is_nil c.flags) h3)))
            (all-nil _ c.not_flags (and_right _ (is_nil c.not_flags) h4)))
          (ground arith))
        (ground arith)

  none_match-empty :
      (nots : CriteriaList) (msg : Message) (n u : ℕ)
      → no_list nots ≡ true
      → none_match to_lower contains normalize_date nots msg n u ≡ true
  unfolding none_match
  none_match-empty none_left msg n u h = refl
  none_match-empty (more c cs) msg n u h = ground arith

  pairs_match-empty :
      (ors : CriteriaPairs) (msg : Message) (n u : ℕ)
      → no_pairs ors ≡ true
      → pairs_match to_lower contains normalize_date ors msg n u ≡ true
  unfolding pairs_match
  pairs_match-empty no_more msg n u h = refl
  pairs_match-empty (either_of a b cs) msg n u h = ground arith

  -- Where no condition is set, all tests pass.
  pub is_empty-matches :
      (c : Fields) (nots : CriteriaList) (ors : CriteriaPairs) (msg : Message) (n u : ℕ)
      → is_empty c nots ors ≡ true
      → (fields_match to_lower contains normalize_date c msg n u
          && none_match to_lower contains normalize_date nots msg n u
          && pairs_match to_lower contains normalize_date ors msg n u)
        ≡ true
  unfolding is_empty fields_match
  is_empty-matches c nots ors msg n u h4 =
      let h3 = and_left _ (no_pairs ors) h4 in
      let h2 = and_left _ (no_list nots) h3 in
      let h1 = and_left _ (content_empty c) h2 in
      and_intro
        (and_intro
          (and_intro
            (and_intro (envelope_match-empty c msg n u (and_left _ (people_empty c) h1))
              (people_match-empty c msg (and_right (envelope_empty c) _ h1)))
            (content_match-empty c msg (and_right _ (content_empty c) h2)))
          (none_match-empty nots msg n u (and_right _ (no_list nots) h3)))
        (pairs_match-empty ors msg n u (and_right _ (no_pairs ors) h4))
