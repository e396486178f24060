-- ===== src/Prelude/Maps.antt =====
-- Go's maps with string keys, as association lists. A key that is missing has no value.
use yunt.Prelude.{
  ℕ, ◌≡◌, refl, String, Option, none, some, List, [], ◌∷◌, arith, if◌then◌else◌, str_eq, eq_iff,
  inl, inr, Bool-cases,
}

abbrev pub GoMap {ℓ} : Type ℓ → Type ℓ
GoMap V = List (String × V)

module _ {ℓ} {V : Type ℓ} where
  -- `m[k]`, with its second result
  unfoldable pub lookup : String → GoMap V → Option V
  lookup k [] = none
  lookup k ((j, v) ∷ m) = if str_eq j k then some v else lookup k m

  -- `m[k] = v`
  unfoldable pub insert : String → V → GoMap V → GoMap V
  insert k v [] = (k, v) ∷ []
  insert k v ((j, w) ∷ m) = if str_eq j k then (k, v) ∷ m else (j, w) ∷ insert k v m

  -- `delete(m, k)`
  unfoldable pub delete : String → GoMap V → GoMap V
  delete k [] = []
  delete k ((j, v) ∷ m) = let rest = delete k m in if str_eq j k then rest else (j, v) ∷ rest

  pub lookup-insert :
      (k j : String) (v : V) (m : GoMap V)
      → lookup j (insert k v m) ≡ (if str_eq k j then some v else lookup j m)
  unfolding lookup insert
  lookup-insert key other new [] = refl
  lookup-insert key other new ((old, w) ∷ rest) =
      ground (
        arith,
        lookup-insert key other new rest,
        eq_iff old other,
        eq_iff old key,
        eq_iff key other,
      )

  pub lookup-delete :
      (k j : String) (m : GoMap V)
      → lookup j (delete k m) ≡ (if str_eq k j then none else lookup j m)
  unfolding lookup delete
  lookup-delete key other [] = ground arith
  lookup-delete key other ((old, w) ∷ rest) =
      ground
        (arith, lookup-delete key other rest, eq_iff old other, eq_iff old key, eq_iff key other)

-- `m[k]` alone: a missing key reads as zero.
unfoldable pub lookup_count : String → GoMap ℕ → ℕ
lookup_count k m = elim (lookup k m) [ none ↦ 0 | some n ↦ n ]

pub ruleset map_laws = (lookup-insert, lookup-delete)

-- No key stands twice, as in the map that the list stands for.
abbrev pub UniqueKeys {ℓ} : {V : Type ℓ} → GoMap V → Type ℓ
UniqueKeys [] = Unit
UniqueKeys ((k, v) ∷ m) = (lookup k m ≡ none) × UniqueKeys m

module _ {ℓ} {V : Type ℓ} where
  pub insert-UniqueKeys :
      (k : String) (v : V) (m : GoMap V) → UniqueKeys m → UniqueKeys (insert k v m)
  unfolding insert
  insert-UniqueKeys k v [] u = (unfold lookup in refl, tt)
  insert-UniqueKeys k v ((j, w) ∷ m) u =
      ground (arith, eq_iff j k, eq_iff k j, lookup-insert k j v m, insert-UniqueKeys k v m u.1)

  pub delete-UniqueKeys : (k : String) (m : GoMap V) → UniqueKeys m → UniqueKeys (delete k m)
  unfolding delete
  delete-UniqueKeys k [] u = tt
  delete-UniqueKeys k ((j, w) ∷ m) u =
      ground (arith, eq_iff k j, lookup-delete k j m, delete-UniqueKeys k m u.1)

-- What holds of every entry.
module _ {ℓ} {V : Type ℓ} (P : String → V → Type ℓ) where
  abbrev pub AllEntries : GoMap V → Type ℓ
  AllEntries [] = Unit
  AllEntries ((k, v) ∷ m) = P k v × AllEntries m

  pub insert-AllEntries :
      (k : String) (v : V) (m : GoMap V) → P k v → AllEntries m → AllEntries (insert k v m)
  unfolding insert
  insert-AllEntries k v [] p a = (p, tt)
  insert-AllEntries k v ((j, w) ∷ m) p a = elim (Bool-cases (str_eq j k)) [
    | inl h ↦ rw h (p, a.1)
    | inr h ↦ rw h (a.0, insert-AllEntries k v m p a.1)
  ]

  pub delete-AllEntries : (k : String) (m : GoMap V) → AllEntries m → AllEntries (delete k m)
  unfolding delete
  delete-AllEntries k [] a = tt
  delete-AllEntries k ((j, w) ∷ m) a = elim (Bool-cases (str_eq j k)) [
    | inl h ↦ rw h (delete-AllEntries k m a.1)
    | inr h ↦ rw h (a.0, delete-AllEntries k m a.1)
  ]

  abbrev pub HoldsAt : String → Option V → Type ℓ
  HoldsAt k none = Unit
  HoldsAt k (some v) = P k v

  pub lookup-AllEntries : (k : String) (m : GoMap V) → AllEntries m → HoldsAt k (lookup k m)
  unfolding lookup
  lookup-AllEntries k [] a = tt
  lookup-AllEntries k ((j, w) ∷ m) a = elim (Bool-cases (str_eq j k)) [
    | inl e ↦ let j≡k : j ≡ k = (eq_iff j k).0 e in rw (e, ← j≡k) a.0
    | inr e ↦ rw e (lookup-AllEntries k m a.1)
  ]
