-- ===== src/Imap/Search/Slots.antt =====
-- A header field of a request that is assigned to a slot of its own adds its own test to those of the
-- message.
use yunt.Prelude.{
  ℕ, String, Bool, true, false, not, ◌&&◌, List, [], ◌∷◌, ◌++◌, ◌≡◌, refl, leb, ltb, arith, str_eq,
}
use yunt.Domain.Message.{EmailAddress, Message}
use yunt.Imap.Flags.{to_slice, new_flag_set_from_message}
use yunt.Imap.Search.Criteria.{
  HeaderCriterion, Fields, Slot, from, to, cc, bcc, subject, other, over, assign, slot_of,
}
use yunt.Imap.Search.Match.{
  address_string, any, all, has_flag, contains_ignore_case, text_test, addresses_test, match_body,
  match_text, match_header, envelope_match, people_match, content_match, fields_match,
}
use yunt.Imap.Search.Empty.{text_test-empty, addresses_test-empty}

-- The value that the slot has so far.
abbrev pub value_of : Slot → Fields → String
value_of from c = c.sender
value_of to c = c.to
value_of cc c = c.cc
value_of bcc c = c.bcc
value_of subject c = c.subject
value_of other c = ""

-- Boolean algebra of the step.
swap_1 : (x a b c d : Bool) → (x && a && b && c && d) ≡ ((true && a && b && c && d) && x)
swap_1 x a b c d = ground arith

swap_2 : (x a b c d : Bool) → (a && x && b && c && d) ≡ ((a && true && b && c && d) && x)
swap_2 x a b c d = ground arith

swap_3 : (x a b c d : Bool) → (a && b && x && c && d) ≡ ((a && b && true && c && d) && x)
swap_3 x a b c d = ground arith

swap_4 : (x a b c d : Bool) → (a && b && c && x && d) ≡ ((a && b && c && true && d) && x)
swap_4 x a b c d = ground arith

swap_5 : (x a b c d : Bool) → (a && b && c && d && x) ≡ ((a && b && c && d && true) && x)
swap_5 x a b c d = ground arith

swap_people : (e p k x : Bool) → (e && (p && x) && k) ≡ ((e && p && k) && x)
swap_people e p k x = ground arith

swap_header :
    (x a b c d e f g : Bool)
    → (a && b && (c && x) && d && e && f && g) ≡ ((a && b && c && d && e && f && g) && x)
swap_header x a b c d e f g = ground arith

swap_content : (e p k x : Bool) → (e && p && (k && x)) ≡ ((e && p && k) && x)
swap_content e p k x = ground arith

all-append_one {ℓ} :
    {A : Type ℓ} (p : A → Bool) (xs : List A) (x : A) → all p (xs ++ x ∷ []) ≡ (all p xs && p x)
unfolding all
all-append_one p [] x = ground arith
all-append_one p (y ∷ xs) x = ground (arith, all-append_one p xs x)

module _ (to_lower : String → String) (contains : String → String → Bool)
    (normalize_date : ℕ → ℕ) where
  -- A header field has the text; the five common ones are the message's own fields.
  unfoldable pub slot_holds : Message → Slot → HeaderCriterion → Bool
  slot_holds msg from h =
      contains_ignore_case to_lower contains normalize_date (address_string msg.sender) h.value
  slot_holds msg to h =
      any (λ a. contains_ignore_case to_lower contains normalize_date (address_string a) h.value)
        msg.to
  slot_holds msg cc h =
      any (λ a. contains_ignore_case to_lower contains normalize_date (address_string a) h.value)
        msg.cc
  slot_holds msg bcc h =
      any (λ a. contains_ignore_case to_lower contains normalize_date (address_string a) h.value)
        msg.bcc
  slot_holds msg subject h =
      contains_ignore_case to_lower contains normalize_date msg.subject h.value
  slot_holds msg other h = match_header to_lower contains normalize_date msg h

  unfoldable pub header_holds : Message → HeaderCriterion → Bool
  unfolding slot_holds
  header_holds msg h = slot_holds msg (slot_of to_lower normalize_date h.key) h

  -- A slot that is not set yet takes the value, and the value is one.
  abbrev pub Fresh : Slot → HeaderCriterion → Fields → Type 0
  Fresh other h c = Unit
  Fresh s h c = (str_eq h.value "" ≡ false) × (str_eq (value_of s c) "" ≡ true)

  text_test-set :
      (wanted s : String)
      → str_eq wanted "" ≡ false
      → text_test to_lower contains normalize_date wanted s
        ≡ contains_ignore_case to_lower contains normalize_date s wanted
  unfolding text_test
  text_test-set wanted s h = rw h refl

  addresses_test-set :
      (wanted : String) (addrs : List EmailAddress)
      → str_eq wanted "" ≡ false
      → addresses_test to_lower contains normalize_date wanted addrs
        ≡ any
            (λ a. contains_ignore_case to_lower contains normalize_date (address_string a) wanted)
            addrs
  unfolding addresses_test
  addresses_test-set wanted addrs h = rw h refl

  abbrev Special : Slot → Type 0
  Special other = ⊥
  Special s = Unit

  -- The five tests of the people, each of a value.
  abbrev sender_test : String → Message → Bool
  sender_test v msg = text_test to_lower contains normalize_date v (address_string msg.sender)

  abbrev list_test : String → List EmailAddress → Bool
  list_test v addrs = addresses_test to_lower contains normalize_date v addrs

  abbrev subject_test : String → Message → Bool
  subject_test v msg = text_test to_lower contains normalize_date v msg.subject

  over-set : (v old : String) → str_eq v "" ≡ false → over v old ≡ v
  over-set v old h = rw h refl

  assign-people_match :
      (s : Slot) (h : HeaderCriterion) (c : Fields) (msg : Message)
      → Special s
      → Fresh s h c
      → people_match to_lower contains normalize_date (assign s h c) msg
        ≡ (people_match to_lower contains normalize_date c msg && slot_holds msg s h)
  unfolding people_match slot_holds
  assign-people_match from h c msg d (hv, hc) =
      rw
        (
          over-set h.value c.sender hv,
          text_test-set h.value (address_string msg.sender) hv,
          text_test-empty to_lower contains normalize_date c.sender (address_string msg.sender) hc,
        )
        (swap_1
          (contains_ignore_case to_lower contains normalize_date (address_string msg.sender)
            h.value)
          (list_test c.to msg.to) (list_test c.cc msg.cc) (list_test c.bcc msg.bcc)
          (subject_test c.subject msg))
  assign-people_match to h c msg d (hv, hc) =
      rw
        (
          over-set h.value c.to hv,
          addresses_test-set h.value msg.to hv,
          addresses_test-empty to_lower contains normalize_date c.to msg.to hc,
        )
        (swap_2 (slot_holds msg to h) (sender_test c.sender msg) (list_test c.cc msg.cc)
          (list_test c.bcc msg.bcc) (subject_test c.subject msg))
  assign-people_match cc h c msg d (hv, hc) =
      rw
        (
          over-set h.value c.cc hv,
          addresses_test-set h.value msg.cc hv,
          addresses_test-empty to_lower contains normalize_date c.cc msg.cc hc,
        )
        (swap_3 (slot_holds msg cc h) (sender_test c.sender msg) (list_test c.to msg.to)
          (list_test c.bcc msg.bcc) (subject_test c.subject msg))
  assign-people_match bcc h c msg d (hv, hc) =
      rw
        (
          over-set h.value c.bcc hv,
          addresses_test-set h.value msg.bcc hv,
          addresses_test-empty to_lower contains normalize_date c.bcc msg.bcc hc,
        )
        (swap_4 (slot_holds msg bcc h) (sender_test c.sender msg) (list_test c.to msg.to)
          (list_test c.cc msg.cc) (subject_test c.subject msg))
  assign-people_match subject h c msg d (hv, hc) =
      rw
        (
          over-set h.value c.subject hv,
          text_test-set h.value msg.subject hv,
          text_test-empty to_lower contains normalize_date c.subject msg.subject hc,
        )
        (swap_5 (slot_holds msg subject h) (sender_test c.sender msg) (list_test c.to msg.to)
          (list_test c.cc msg.cc) (list_test c.bcc msg.bcc))
  assign-people_match other h c msg d f = absurd d

  assign-envelope_match :
      (s : Slot) (h : HeaderCriterion) (c : Fields) (msg : Message) (n u : ℕ)
      → envelope_match to_lower contains normalize_date (assign s h c) msg n u
        ≡ envelope_match to_lower contains normalize_date c msg n u
  unfolding envelope_match
  assign-envelope_match from h c msg n u = refl
  assign-envelope_match to h c msg n u = refl
  assign-envelope_match cc h c msg n u = refl
  assign-envelope_match bcc h c msg n u = refl
  assign-envelope_match subject h c msg n u = refl
  assign-envelope_match other h c msg n u = refl

  assign-content_match :
      (s : Slot) (h : HeaderCriterion) (c : Fields) (msg : Message)
      → Special s
      → content_match to_lower contains normalize_date (assign s h c) msg
        ≡ content_match to_lower contains normalize_date c msg
  unfolding content_match
  assign-content_match from h c msg d = refl
  assign-content_match to h c msg d = refl
  assign-content_match cc h c msg d = refl
  assign-content_match bcc h c msg d = refl
  assign-content_match subject h c msg d = refl
  assign-content_match other h c msg d = absurd d

  assign_people-fields_match :
      (s : Slot) (h : HeaderCriterion) (c : Fields) (msg : Message) (n u : ℕ)
      → Special s
      → Fresh s h c
      → fields_match to_lower contains normalize_date (assign s h c) msg n u
        ≡ (fields_match to_lower contains normalize_date c msg n u && slot_holds msg s h)
  unfolding fields_match
  assign_people-fields_match s h c msg n u d f =
      rw
        (
          assign-envelope_match s h c msg n u,
          assign-content_match s h c msg d,
          assign-people_match s h c msg d f,
        )
        (swap_people (envelope_match to_lower contains normalize_date c msg n u)
          (people_match to_lower contains normalize_date c msg)
          (content_match to_lower contains normalize_date c msg) (slot_holds msg s h))

  other-content_match :
      (h : HeaderCriterion) (c : Fields) (msg : Message)
      → content_match to_lower contains normalize_date (assign other h c) msg
        ≡ (content_match to_lower contains normalize_date c msg && slot_holds msg other h)
  unfolding content_match slot_holds
  other-content_match h c msg =
      rw (all-append_one (match_header to_lower contains normalize_date msg) c.header h) (
        swap_header (match_header to_lower contains normalize_date msg h)
          (all (match_body to_lower contains normalize_date msg) c.body)
          (all (match_text to_lower contains normalize_date msg) c.text)
          (all (match_header to_lower contains normalize_date msg) c.header)
          (all (has_flag (to_slice (new_flag_set_from_message msg))) c.flags)
          (all (λ f. not (has_flag (to_slice (new_flag_set_from_message msg)) f)) c.not_flags)
          (not (ltb 0 c.larger && leb msg.size c.larger))
          (not (ltb 0 c.smaller && leb c.smaller msg.size)))

  other-people_match :
      (h : HeaderCriterion) (c : Fields) (msg : Message)
      → people_match to_lower contains normalize_date (assign other h c) msg
        ≡ people_match to_lower contains normalize_date c msg
  unfolding people_match
  other-people_match h c msg = refl

  other-fields_match :
      (h : HeaderCriterion) (c : Fields) (msg : Message) (n u : ℕ)
      → fields_match to_lower contains normalize_date (assign other h c) msg n u
        ≡ (fields_match to_lower contains normalize_date c msg n u && slot_holds msg other h)
  unfolding fields_match
  other-fields_match h c msg n u =
      rw
        (
          assign-envelope_match other h c msg n u,
          other-people_match h c msg,
          other-content_match h c msg,
        )
        (swap_content (envelope_match to_lower contains normalize_date c msg n u)
          (people_match to_lower contains normalize_date c msg)
          (content_match to_lower contains normalize_date c msg) (slot_holds msg other h))

  pub assign-fields_match :
      (s : Slot) (h : HeaderCriterion) (c : Fields) (msg : Message) (n u : ℕ)
      → Fresh s h c
      → fields_match to_lower contains normalize_date (assign s h c) msg n u
        ≡ (fields_match to_lower contains normalize_date c msg n u && slot_holds msg s h)
  assign-fields_match from h c msg n u f = assign_people-fields_match from h c msg n u tt f
  assign-fields_match to h c msg n u f = assign_people-fields_match to h c msg n u tt f
  assign-fields_match cc h c msg n u f = assign_people-fields_match cc h c msg n u tt f
  assign-fields_match bcc h c msg n u f = assign_people-fields_match bcc h c msg n u tt f
  assign-fields_match subject h c msg n u f = assign_people-fields_match subject h c msg n u tt f
  assign-fields_match other h c msg n u f = other-fields_match h c msg n u
