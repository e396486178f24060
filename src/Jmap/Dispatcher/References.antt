-- ===== src/Jmap/Dispatcher/References.antt =====
-- What the references of a call are replaced by.
use yunt.Prelude.{
  String, Bool, true, false, Option, none, some, List, [], ◌∷◌, ◌≡◌, ◌≢◌, ◌⊎◌, refl, sym, ap, ◌∙◌,
  inl, inr, Bool-cases, arith, str_eq, eq_iff,
}
use yunt.Prelude.Maps.{
  GoMap, lookup, insert, delete, lookup-insert, lookup-delete, UniqueKeys, insert-UniqueKeys,
  delete-UniqueKeys,
}
use yunt.Jmap.Dispatcher.Values.{
  Json, as_map, map_of, fields_of, Extracted, extracted, failed, extract_path,
}
use yunt.Jmap.Dispatcher.Calls.{
  ResultReference, RefError, Visited, skipped, substituted, refused, Resolved, resolved, unresolved,
  target_of, put, from_result, referred, unless_plain, visited, visit, resolve_next, resolve_keys,
}

-- The key still has its value after a step, and no key stands twice.
abbrev pub Keeps : String → Json → GoMap Json → Visited → Type 0
Keeps key val m skipped = (lookup key m ≡ some val) × UniqueKeys m
Keeps key val m (substituted m') = (lookup key m' ≡ some val) × UniqueKeys m'
Keeps key val m (refused e) = Unit

-- A step at `key` leaves `other` alone.
abbrev pub LeavesAlone : String → String → Type 0
LeavesAlone key other = (key ≢ other) ⊎ (target_of key ≡ none)

module _ (decode : Json → Option ResultReference) (results : GoMap Json) where
  put-Keeps :
      (key target path other : String) (val : Json) (x : Extracted Json) (m : GoMap Json)
      → key ≢ other
      → lookup target m ≡ none
      → lookup other m ≡ some val
      → UniqueKeys m
      → Keeps other val m (put decode key target path x m)
  unfolding put
  put-Keeps key target path other val (failed e) m d free h u = tt
  put-Keeps key target path other val (extracted v) m d free h u = (
    ground (
      arith,
      lookup-insert target other v (delete key m),
      lookup-delete key other m,
      eq_iff key other,
      eq_iff target other,
    ),
    insert-UniqueKeys target v (delete key m) (delete-UniqueKeys key m u),
  )

  from_result-Keeps :
      (key target other : String) (ref : ResultReference) (val : Json) (prev : Option Json)
      (m : GoMap Json)
      → key ≢ other
      → lookup target m ≡ none
      → lookup other m ≡ some val
      → UniqueKeys m
      → Keeps other val m (from_result decode key target ref prev m)
  unfolding from_result
  from_result-Keeps key target other ref val none m d free h u = tt
  from_result-Keeps key target other ref val (some prev) m d free h u =
      put-Keeps key target ref.path other val (extract_path prev ref.path) m d free h u

  referred-Keeps :
      (key target other : String) (val : Json) (ref : Option ResultReference) (m : GoMap Json)
      → key ≢ other
      → lookup target m ≡ none
      → lookup other m ≡ some val
      → UniqueKeys m
      → Keeps other val m (referred decode results key target ref m)
  unfolding referred
  referred-Keeps key target other val none m d free h u = tt
  referred-Keeps key target other val (some ref) m d free h u =
      from_result-Keeps key target other ref val (lookup ref.result_of results) m d free h u

  pub visit-Keeps :
      (key other : String) (val : Json) (m : GoMap Json)
      → LeavesAlone key other
      → lookup other m ≡ some val
      → UniqueKeys m
      → Keeps other val m (visit decode results key m)
  unfolding visit
  visit-Keeps key other val m (inr plain) h u = rw plain (h, u)
  visit-Keeps key other val m (inl d) h u = from (target_of key) (lookup key m)
    where
      free_or :
          (target : String) (v : Json) (p : Option Json)
          → lookup target m ≡ p
          → Keeps other val m (unless_plain decode results key target v p m)
      free_or target v (some plain) e = tt
      free_or target v none e = referred-Keeps key target other val (decode v) m d e h u

      from :
          (t : Option String) (v : Option Json)
          → Keeps other val m (visited decode results key t v m)
      from none v = (h, u)
      from (some target) none = (h, u)
      from (some target) (some v) = free_or target v (lookup target m) refl

plain-LeavesAlone : (key other : String) → target_of other ≡ none → LeavesAlone key other
plain-LeavesAlone key other plain = elim (Bool-cases (str_eq key other)) [
  | inl same ↦
      let key≡other : key ≡ other = (eq_iff key other).0 same in
      inr (ap target_of key≡other ∙ plain)
  | inr apart ↦ inl (λ e. false_true (sym apart ∙ (eq_iff key other).1 e))
]
  where
    false_true : ◌≢◌ {A = Bool} false true
    false_true e = ground arith

-- The arguments that are handed on have the value under the key.
abbrev pub HasArg : String → Json → Json → Type 0
HasArg key val args = (m : GoMap Json) × (as_map args ≡ some m) × (lookup key m ≡ some val)

or_else : Option Json → Option Json → Option Json
or_else (some v) d = some v
or_else none d = d

lookup-map_of :
    (k : String) (m acc : GoMap Json)
    → UniqueKeys m
    → lookup k (map_of (fields_of m) acc) ≡ or_else (lookup k m) (lookup k acc)
unfolding map_of fields_of lookup or_else
lookup-map_of k [] acc u = refl
lookup-map_of k ((j, v) ∷ m) acc u =
    ground (arith, lookup-map_of k m (insert j v acc) u.1, lookup-insert j k v acc, eq_iff j k)

-- Where nothing was substituted, the map is that of the arguments as they came.
abbrev pub Origin : Json → Bool → GoMap Json → Type 0
Origin args false m = as_map args ≡ some m
Origin args true m = Unit

module _ (decode : Json → Option ResultReference) (results : GoMap Json) (args : Json) where
  -- A plain key keeps its value, where the arguments are handed on.
  abbrev pub Hands : String → Json → Resolved → Type 0
  Hands key val (resolved j) = HasArg key val j
  Hands key val (unresolved e) = Unit

  -- What holds of each way on holds of the step.
  pub next_intro :
      (P : Resolved → Type 0) (K : Visited → Type 0) (f : Bool → GoMap Json → Resolved)
      (done : Bool) (m : GoMap Json) (v : Visited)
      → K v
      → (K skipped → P (f done m))
      → ((m' : GoMap Json) → K (substituted m') → P (f true m'))
      → ((e : RefError) → K (refused e) → P (unresolved e))
      → P (resolve_next decode f done m v)
  unfolding resolve_next
  next_intro P K f done m skipped k hs hm he = hs k
  next_intro P K f done m (substituted m') k hs hm he = hm m' k
  next_intro P K f done m (refused e) k hs hm he = he e k

  pub resolve_keys-Hands :
      (other : String) (val : Json) (keys : List String) (done : Bool) (m : GoMap Json)
      → target_of other ≡ none
      → Origin args done m
      → lookup other m ≡ some val
      → UniqueKeys m
      → Hands other val (resolve_keys decode results args keys done m)
  unfolding resolve_keys lookup
  resolve_keys-Hands other val [] false m plain o h u = (m, o, h)
  resolve_keys-Hands other val [] true m plain o h u = (
    map_of (fields_of m) [],
    unfold as_map in refl,
    unfold or_else in (lookup-map_of other m [] u ∙ ap (λ x. or_else x none) h),
  )
  resolve_keys-Hands other val (key ∷ keys) done m plain o h u =
      next_intro (Hands other val) (Keeps other val m)
        (λ done' m'. resolve_keys decode results args keys done' m') done m
        (visit decode results key m)
        (visit-Keeps decode results key other val m (plain-LeavesAlone key other plain) h u)
        (λ k. resolve_keys-Hands other val keys done m plain o k.0 k.1)
        (λ m' k. resolve_keys-Hands other val keys true m' plain tt k.0 k.1) (λ e k. tt)
