-- ===== src/Imap/Search/Headers.antt =====
-- The loop over the header fields of a request.
use yunt.Prelude.{
  ℕ, String, Bool, true, false, ◌&&◌, List, [], ◌∷◌, ◌≡◌, ◌≢◌, refl, ap, sym, ◌∙◌, arith, str_eq,
}
use yunt.Domain.Message.{Message}
use yunt.Imap.Search.Criteria.{
  HeaderCriterion, GivenFields, Fields, Slot, from, to, cc, bcc, subject, other, assign, slot_of,
  process_headers, plain_fields,
}
use yunt.Imap.Search.Match.{all, fields_match}
use yunt.Imap.Search.Slots.{value_of, Fresh, header_holds, slot_holds, assign-fields_match}

module _ (to_lower : String → String) (contains : String → String → Bool)
    (normalize_date : ℕ → ℕ) where
  -- The header fields of a request that the parser keeps apart: each of the five common ones stands
  -- once and has a text.
  abbrev IsValue : Slot → HeaderCriterion → Type 0
  IsValue other h = Unit
  IsValue s h = str_eq h.value "" ≡ false

  -- No further field goes to the slot.
  abbrev Alone : Slot → List HeaderCriterion → Type 0
  Alone s [] = Unit
  Alone s (h ∷ hs) = (slot_of to_lower normalize_date h.key ≢ s) × Alone s hs

  abbrev Apart : Slot → List HeaderCriterion → Type 0
  Apart other hs = Unit
  Apart s hs = Alone s hs

  abbrev pub IsSeparate : List HeaderCriterion → Type 0
  IsSeparate [] = Unit
  IsSeparate (h ∷ hs) =
      IsValue (slot_of to_lower normalize_date h.key) h
      × Apart (slot_of to_lower normalize_date h.key) hs
      × IsSeparate hs

  -- The slots of these fields are not set yet.
  abbrev pub AreOpen : List HeaderCriterion → Fields → Type 0
  AreOpen [] c = Unit
  AreOpen (h ∷ hs) c =
      (str_eq (value_of (slot_of to_lower normalize_date h.key) c) "" ≡ true) × AreOpen hs c

  Fresh-intro :
      (s : Slot) (h : HeaderCriterion) (c : Fields)
      → IsValue s h
      → str_eq (value_of s c) "" ≡ true
      → Fresh to_lower contains normalize_date s h c
  Fresh-intro from h c v o = (v, o)
  Fresh-intro to h c v o = (v, o)
  Fresh-intro cc h c v o = (v, o)
  Fresh-intro bcc h c v o = (v, o)
  Fresh-intro subject h c v o = (v, o)
  Fresh-intro other h c v o = tt

  value_of-assign :
      (s t : Slot) (h : HeaderCriterion) (c : Fields)
      → t ≢ s
      → value_of t (assign s h c) ≡ value_of t c
  value_of-assign from from h c d = absurd (d refl)
  value_of-assign from to h c d = refl
  value_of-assign from cc h c d = refl
  value_of-assign from bcc h c d = refl
  value_of-assign from subject h c d = refl
  value_of-assign from other h c d = refl
  value_of-assign to from h c d = refl
  value_of-assign to to h c d = absurd (d refl)
  value_of-assign to cc h c d = refl
  value_of-assign to bcc h c d = refl
  value_of-assign to subject h c d = refl
  value_of-assign to other h c d = refl
  value_of-assign cc from h c d = refl
  value_of-assign cc to h c d = refl
  value_of-assign cc cc h c d = absurd (d refl)
  value_of-assign cc bcc h c d = refl
  value_of-assign cc subject h c d = refl
  value_of-assign cc other h c d = refl
  value_of-assign bcc from h c d = refl
  value_of-assign bcc to h c d = refl
  value_of-assign bcc cc h c d = refl
  value_of-assign bcc bcc h c d = absurd (d refl)
  value_of-assign bcc subject h c d = refl
  value_of-assign bcc other h c d = refl
  value_of-assign subject from h c d = refl
  value_of-assign subject to h c d = refl
  value_of-assign subject cc h c d = refl
  value_of-assign subject bcc h c d = refl
  value_of-assign subject subject h c d = absurd (d refl)
  value_of-assign subject other h c d = refl
  value_of-assign other from h c d = refl
  value_of-assign other to h c d = refl
  value_of-assign other cc h c d = refl
  value_of-assign other bcc h c d = refl
  value_of-assign other subject h c d = refl
  value_of-assign other other h c d = absurd (d refl)

  value_of-other :
      (t : Slot) (h : HeaderCriterion) (c : Fields) → value_of t (assign other h c) ≡ value_of t c
  value_of-other from h c = refl
  value_of-other to h c = refl
  value_of-other cc h c = refl
  value_of-other bcc h c = refl
  value_of-other subject h c = refl
  value_of-other other h c = refl

  AreOpen-other :
      (h : HeaderCriterion) (c : Fields) (hs : List HeaderCriterion)
      → AreOpen hs c
      → AreOpen hs (assign other h c)
  AreOpen-other h c [] o = tt
  AreOpen-other h c (g ∷ gs) o = (
    rw (value_of-other (slot_of to_lower normalize_date g.key) h c) o.0,
    AreOpen-other h c gs o.1,
  )

  AreOpen-assign_one :
      (s : Slot) (h : HeaderCriterion) (c : Fields) (hs : List HeaderCriterion)
      → Alone s hs
      → AreOpen hs c
      → AreOpen hs (assign s h c)
  AreOpen-assign_one s h c [] a o = tt
  AreOpen-assign_one s h c (g ∷ gs) a o = (
    rw (value_of-assign s (slot_of to_lower normalize_date g.key) h c a.0) o.0,
    AreOpen-assign_one s h c gs a.1 o.1,
  )

  AreOpen-assign :
      (s : Slot) (h : HeaderCriterion) (c : Fields) (hs : List HeaderCriterion)
      → Apart s hs
      → AreOpen hs c
      → AreOpen hs (assign s h c)
  AreOpen-assign from h c hs a o = AreOpen-assign_one from h c hs a o
  AreOpen-assign to h c hs a o = AreOpen-assign_one to h c hs a o
  AreOpen-assign cc h c hs a o = AreOpen-assign_one cc h c hs a o
  AreOpen-assign bcc h c hs a o = AreOpen-assign_one bcc h c hs a o
  AreOpen-assign subject h c hs a o = AreOpen-assign_one subject h c hs a o
  AreOpen-assign other h c hs a o = AreOpen-other h c hs o

  value_of-plain :
      (s : Slot) (g : GivenFields)
      → str_eq (value_of s (plain_fields to_lower normalize_date g)) "" ≡ true
  unfolding plain_fields
  value_of-plain from g = refl
  value_of-plain to g = refl
  value_of-plain cc g = refl
  value_of-plain bcc g = refl
  value_of-plain subject g = refl
  value_of-plain other g = refl

  pub AreOpen-plain :
      (hs : List HeaderCriterion) (g : GivenFields)
      → AreOpen hs (plain_fields to_lower normalize_date g)
  AreOpen-plain [] g = tt
  AreOpen-plain (h ∷ hs) g =
      (value_of-plain (slot_of to_lower normalize_date h.key) g, AreOpen-plain hs g)

  and_assoc : (a b c : Bool) → ((a && b) && c) ≡ (a && (b && c))
  and_assoc a b c = ground arith

  and_true : (a : Bool) → (a && true) ≡ a
  and_true a = ground arith

  pub process_headers-fields_match :
      (hs : List HeaderCriterion) (c : Fields) (msg : Message) (n u : ℕ)
      → IsSeparate hs
      → AreOpen hs c
      → fields_match to_lower contains normalize_date
          (process_headers to_lower normalize_date hs c)
          msg
          n
          u
        ≡ (fields_match to_lower contains normalize_date c msg n u
            && all (header_holds to_lower contains normalize_date msg) hs)
  unfolding process_headers all header_holds
  process_headers-fields_match [] c msg n u sep o = sym (and_true _)
  process_headers-fields_match (h ∷ hs) c msg n u (v, a, sep) o =
      let s = slot_of to_lower normalize_date h.key in
      process_headers-fields_match hs (assign s h c) msg n u sep (AreOpen-assign s h c hs a o.1)
      ∙ ap (λ b. b && all (header_holds to_lower contains normalize_date msg) hs)
          (assign-fields_match to_lower contains normalize_date s h c msg n u
            (Fresh-intro s h c v o.0))
      ∙ and_assoc (fields_match to_lower contains normalize_date c msg n u)
          (slot_holds to_lower contains normalize_date msg s h)
          (all (header_holds to_lower contains normalize_date msg) hs)
