-- ===== src/Imap/Search/Results.antt =====
-- What a SEARCH answers with.
use mathlib.Core.Path.{subst}
use yunt.Prelude.{
  ℕ, suc, ◌+◌, ◌^◌, ◌≤◌, ◌<◌, String, Bool, true, false, Option, some, List, [], ◌∷◌, ◌≡◌, refl, ap,
  sym, ◌∙◌, ltb, arith, if◌then◌else◌, length, map, inl, inr, Bool-cases,
}
use yunt.Domain.Message.{Message}
use yunt.Imap.Search.Criteria.{Given}
use yunt.Imap.Search.{
  num_seq, SearchResult, SearchOptions, SearchOutcome, found, number_of, seq_num_at, collect,
  insert_result, sort_results, data_of, build_search_data, answered, MessageFilter,
  build_message_filter, optimized_search, search_failed,
}

-- The sequence numbers of the messages that pass the test, in the mailbox's order.
unfoldable pub numbers : (Message → ℕ → ℕ → Bool) → ℕ → List Message → List ℕ
numbers test i [] = []
numbers test i (msg ∷ msgs) =
    let rest = numbers test (suc i) msgs in
    if test msg (suc i) msg.imap_uid then suc i ∷ rest else rest

seq_num_at-small : (i : ℕ) → suc i < 2 ^ 32 → seq_num_at i ≡ suc i
seq_num_at-small i h = omega arith

-- Every number that was found is above.
abbrev AreAbove : ℕ → List SearchResult → Type 0
AreAbove n [] = Unit
AreAbove n (r ∷ rs) = (n < r.seq_num) × AreAbove n rs

collect-AreAbove :
    (test : Message → ℕ → ℕ → Bool) (n i : ℕ) (msgs : List Message)
    → n ≤ i
    → i + length msgs < 2 ^ 32
    → AreAbove n (collect test i msgs)
unfolding collect
collect-AreAbove test n i [] h b = tt
collect-AreAbove test n i (msg ∷ msgs) h b =
    let rest = collect-AreAbove test n (suc i) msgs (omega arith) (omega arith) in
    elim (Bool-cases (test msg (seq_num_at i) msg.imap_uid)) [
      | inl hit ↦ rw hit (rw (seq_num_at-small i (omega arith)) (omega arith), rest)
      | inr miss ↦ rw miss rest
    ]

insert_result-first :
    (r : SearchResult) (rs : List SearchResult)
    → AreAbove r.seq_num rs
    → insert_result num_seq r rs ≡ r ∷ rs
unfolding insert_result
insert_result-first r [] a = refl
insert_result-first r (s ∷ rs) (h, a) =
    let later : ltb s.seq_num r.seq_num ≡ false = ground arith in rw later refl

-- The loop finds the messages in the order that the sort asks for.
sort_results-collect :
    (test : Message → ℕ → ℕ → Bool) (i : ℕ) (msgs : List Message)
    → i + length msgs < 2 ^ 32
    → sort_results num_seq (collect test i msgs) ≡ collect test i msgs
unfolding collect sort_results
sort_results-collect test i [] b = refl
sort_results-collect test i (msg ∷ msgs) b =
    let small = seq_num_at-small i (omega arith) in
    let rest = sort_results-collect test (suc i) msgs (omega arith) in
    let above = collect-AreAbove test (suc i) (suc i) msgs (omega arith) (omega arith) in
    elim (Bool-cases (test msg (seq_num_at i) msg.imap_uid)) [
      | inl hit ↦
          rw (hit, rest)
            (insert_result-first (record { seq_num = seq_num_at i; uid = msg.imap_uid })
              (collect test (suc i) msgs)
              (subst (λ n. AreAbove n (collect test (suc i) msgs)) (sym small) above))
      | inr miss ↦ rw miss rest
    ]

-- Two tests that agree find the same.
map-collect :
    (test test' : Message → ℕ → ℕ → Bool) (i : ℕ) (msgs : List Message)
    → ((msg : Message) (n u : ℕ) → test msg n u ≡ test' msg n u)
    → i + length msgs < 2 ^ 32
    → map (number_of num_seq) (collect test i msgs) ≡ numbers test' i msgs
unfolding collect numbers
map-collect test test' i [] agree b = refl
map-collect test test' i (msg ∷ msgs) agree b =
    let small = seq_num_at-small i (omega arith) in
    let rest = map-collect test test' (suc i) msgs agree (omega arith) in
    let same : test msg (seq_num_at i) msg.imap_uid ≡ test' msg (suc i) msg.imap_uid =
      agree msg (seq_num_at i) msg.imap_uid ∙ ap (λ n. test' msg n msg.imap_uid) small in
    elim (Bool-cases (test' msg (suc i) msg.imap_uid)) [
      | inl hit ↦ rw (same, hit, rest, small) refl
      | inr miss ↦ rw (same, miss, rest) refl
    ]

answered-numbers :
    (test test' : Message → ℕ → ℕ → Bool) (options : Option SearchOptions) (failure : SearchOutcome)
    (msgs : List Message)
    → ((msg : Message) (n u : ℕ) → test msg n u ≡ test' msg n u)
    → length msgs < 2 ^ 32
    → answered test num_seq options failure (some msgs)
      ≡ found (data_of (numbers test' 0 msgs) options)
unfolding answered build_search_data
answered-numbers test test' options failure msgs agree b =
    let small : 0 + length msgs < 2 ^ 32 = omega arith in
    rw (sort_results-collect test 0 msgs small, map-collect test test' 0 msgs agree small) refl

module _ (to_lower : String → String) (contains : String → String → Bool)
    (normalize_date : ℕ → ℕ) where
  -- The optimized search answers with the numbers from 1 to the number of messages that its query
  -- returned, whichever numbers these messages have in the mailbox.
  optimized_search-numbers :
      (list : MessageFilter → Option (List Message)) (mailbox_id : String) (g : Option Given)
      (options : Option SearchOptions) (msgs : List Message)
      → list (build_message_filter to_lower contains normalize_date mailbox_id g) ≡ some msgs
      → length msgs < 2 ^ 32
      → optimized_search to_lower contains normalize_date list mailbox_id num_seq g options
        ≡ found (data_of (numbers (λ msg n u. true) 0 msgs) options)
  unfolding optimized_search
  optimized_search-numbers list mailbox_id g options msgs listed b = rw listed (
      answered-numbers (λ msg n u. true) (λ msg n u. true) options search_failed msgs
        (λ msg n u. refl) b)
