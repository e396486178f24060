-- ===== src/Jmap/Dispatcher/Resolution.antt =====
-- What a reference is resolved to, and the reference that has nothing to refer to.
use yunt.Prelude.{
  String, Bool, true, false, Option, none, some, List, [], ◌∷◌, ◌≡◌, ◌≢◌, refl, ap, ◌∙◌, inl, inr,
  Bool-cases, arith, str_eq, eq_iff,
}
use yunt.Prelude.Maps.{
  GoMap, lookup, delete, lookup-insert, UniqueKeys, insert-UniqueKeys, delete-UniqueKeys,
}
use yunt.Jmap.Dispatcher.Values.{Json, Extracted, extracted, failed, extract_path}
use yunt.Jmap.Dispatcher.Calls.{
  ResultReference, Visited, skipped, substituted, refused, Resolved, resolved, unresolved,
  target_of, put, from_result, referred, unless_plain, visited, visit, resolve_keys,
}
use yunt.Jmap.Dispatcher.References.{
  Keeps, Hands, HasArg, visit-Keeps, next_intro, resolve_keys-Hands,
}

-- The key is visited.
pub data Visits (key : String) : List String → Type 0 where
  here : {keys : List String} → Visits key (key ∷ keys)
  there : {other : String} {keys : List String} → Visits key keys → Visits key (other ∷ keys)

later :
    {key first : String} {keys : List String}
    → Visits key (first ∷ keys)
    → first ≢ key
    → Visits key keys
later here d = absurd (d refl)
later (there v) d = v

apart : (key other : String) → str_eq key other ≡ false → key ≢ other
apart key other h e = ground (arith, eq_iff key other)

module _ (decode : Json → Option ResultReference) (results : GoMap Json) (args : Json) where
  -- What a visited reference leaves under its target, or an error.
  abbrev Puts : String → String → Json → Visited → Type 0
  Puts target path prev skipped = ⊥
  Puts target path prev (substituted m) =
      (v : Json) × (extract_path prev path ≡ extracted v)
      × (lookup target m ≡ some v)
      × UniqueKeys m
  Puts target path prev (refused e) = Unit

  put-Puts :
      (key target path : String) (prev : Json) (x : Extracted Json) (m : GoMap Json)
      → extract_path prev path ≡ x
      → UniqueKeys m
      → Puts target path prev (put decode key target path x m)
  unfolding put
  put-Puts key target path prev (failed e) m h u = tt
  put-Puts key target path prev (extracted v) m h u = (
    v,
    h,
    ground (arith, lookup-insert target target v (delete key m), eq_iff target target),
    insert-UniqueKeys target v (delete key m) (delete-UniqueKeys key m u),
  )

  visit-Puts :
      (key target : String) (val : Json) (ref : ResultReference) (prev : Json) (m : GoMap Json)
      → target_of key ≡ some target
      → lookup key m ≡ some val
      → decode val ≡ some ref
      → lookup ref.result_of results ≡ some prev
      → UniqueKeys m
      → Puts target ref.path prev (visit decode results key m)
  unfolding visit visited
  visit-Puts key target val ref prev m ht hk hd hr u = rw (ht, hk) (from (lookup target m))
    where
      from :
          (plain : Option Json)
          → Puts target ref.path prev (unless_plain decode results key target val plain m)
      from (some plain) = unfold unless_plain in tt
      from none =
          unfold unless_plain referred from_result in
          rw (hd, hr) (put-Puts key target ref.path prev _ m refl u)

  -- What a reference to no result leaves.
  abbrev Refuses : Visited → Type 0
  Refuses skipped = ⊥
  Refuses (substituted m) = ⊥
  Refuses (refused e) = Unit

  visit-Refuses :
      (key target : String) (val : Json) (ref : ResultReference) (m : GoMap Json)
      → target_of key ≡ some target
      → lookup key m ≡ some val
      → decode val ≡ some ref
      → lookup ref.result_of results ≡ none
      → Refuses (visit decode results key m)
  unfolding visit visited
  visit-Refuses key target val ref m ht hk hd hr = rw (ht, hk) (from (lookup target m))
    where
      from : (plain : Option Json) → Refuses (unless_plain decode results key target val plain m)
      from (some plain) = unfold unless_plain in tt
      from none = unfold unless_plain referred from_result in rw (hd, hr) tt

  -- The arguments that are handed on have the extracted value under the target.
  abbrev pub Found : String → String → Json → Resolved → Type 0
  Found target path prev (resolved j) =
      (v : Json) × (extract_path prev path ≡ extracted v) × HasArg target v j
  Found target path prev (unresolved e) = Unit

  Hands_Found :
      (target path : String) (prev v : Json) (r : Resolved)
      → extract_path prev path ≡ extracted v
      → Hands decode results args target v r
      → Found target path prev r
  Hands_Found target path prev v (resolved j) e h = (v, e, h)
  Hands_Found target path prev v (unresolved err) e h = tt

  pub resolve_keys-Found :
      (key target : String) (val : Json) (ref : ResultReference) (prev : Json) (keys : List String)
      (done : Bool) (m : GoMap Json)
      → Visits key keys
      → target_of key ≡ some target
      → target_of target ≡ none
      → decode val ≡ some ref
      → lookup ref.result_of results ≡ some prev
      → lookup key m ≡ some val
      → UniqueKeys m
      → Found target ref.path prev (resolve_keys decode results args keys done m)
  unfolding resolve_keys
  resolve_keys-Found key target val ref prev [] done m at ht plain hd hr hk u = elim at [ ]
  resolve_keys-Found key target val ref prev (first ∷ keys) done m at ht plain hd hr hk u =
      elim (Bool-cases (str_eq first key)) [
        | inl same ↦
            let e : first ≡ key = (eq_iff first key).0 same in
            next_intro decode results args (Found target ref.path prev) (Puts target ref.path prev)
              (λ done' m'. resolve_keys decode results args keys done' m') done m
              (visit decode results first m)
              (visit-Puts first target val ref prev m (ap target_of e ∙ ht)
                (ap (λ k. lookup k m) e ∙ hk) hd hr u)
              (λ k. absurd k)
              (λ m' k.
                Hands_Found target ref.path prev k.0 (resolve_keys decode results args keys true m')
                  k.1
                  (resolve_keys-Hands decode results args target k.0 keys true m' plain tt k.2 k.3))
              (λ err k. tt)
        | inr other ↦
            let rest = later at (apart first key other) in
            next_intro decode results args (Found target ref.path prev) (Keeps key val m)
              (λ done' m'. resolve_keys decode results args keys done' m') done m
              (visit decode results first m)
              (visit-Keeps decode results first key val m (inl (apart first key other)) hk u)
              (λ k.
                resolve_keys-Found key target val ref prev keys done m rest ht plain hd hr k.0 k.1)
              (λ m' k.
                resolve_keys-Found key target val ref prev keys true m' rest ht plain hd hr k.0 k.1)
              (λ err k. tt)
      ]

  abbrev pub IsUnresolved : Resolved → Type 0
  IsUnresolved (resolved j) = ⊥
  IsUnresolved (unresolved e) = Unit

  pub resolve_keys-IsUnresolved :
      (key target : String) (val : Json) (ref : ResultReference) (keys : List String) (done : Bool)
      (m : GoMap Json)
      → Visits key keys
      → target_of key ≡ some target
      → decode val ≡ some ref
      → lookup ref.result_of results ≡ none
      → lookup key m ≡ some val
      → UniqueKeys m
      → IsUnresolved (resolve_keys decode results args keys done m)
  unfolding resolve_keys
  resolve_keys-IsUnresolved key target val ref [] done m at ht hd hr hk u = elim at [ ]
  resolve_keys-IsUnresolved key target val ref (first ∷ keys) done m at ht hd hr hk u =
      elim (Bool-cases (str_eq first key)) [
        | inl same ↦
            let e : first ≡ key = (eq_iff first key).0 same in
            next_intro decode results args IsUnresolved Refuses
              (λ done' m'. resolve_keys decode results args keys done' m') done m
              (visit decode results first m)
              (visit-Refuses first target val ref m (ap target_of e ∙ ht)
                (ap (λ k. lookup k m) e ∙ hk) hd hr)
              (λ k. absurd k) (λ m' k. absurd k) (λ err k. tt)
        | inr other ↦
            let rest = later at (apart first key other) in
            next_intro decode results args IsUnresolved (Keeps key val m)
              (λ done' m'. resolve_keys decode results args keys done' m') done m
              (visit decode results first m)
              (visit-Keeps decode results first key val m (inl (apart first key other)) hk u)
              (λ k. resolve_keys-IsUnresolved key target val ref keys done m rest ht hd hr k.0 k.1)
              (λ m' k.
                resolve_keys-IsUnresolved key target val ref keys true m' rest ht hd hr k.0 k.1)
              (λ err k. tt)
      ]
