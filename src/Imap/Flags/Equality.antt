-- ===== src/Imap/Flags/Equality.antt =====
-- `Equal` compares sizes and one inclusion; on sets that is enough.
use yunt.Prelude.{
  ◌+◌, ◌≤◌, ◌≡◌, refl, sym, ◌∙◌, ◌↔◌, String, Bool, true, not, ◌&&◌, none, [], ◌∷◌, arith, str_eq,
  eq_iff, length,
}
use yunt.Prelude.Maps.{GoMap, UniqueKeys, lookup, delete, lookup-delete, delete-UniqueKeys}
use yunt.Imap.Flags.{FlagSet, has, all_in, equal}
use yunt.Imap.Flags.Laws.{AllTrue, IsFlagSet}

abbrev holds : String → GoMap Bool → Bool
holds f m = has f (record { flags = m })

delete_missing : (f : String) (m : GoMap Bool) → lookup f m ≡ none → delete f m ≡ m
unfolding lookup delete
delete_missing f [] h = refl
delete_missing f ((g, b) ∷ m) h = ground (arith, delete_missing f m)

length-delete :
    (f : String) (m : GoMap Bool)
    → UniqueKeys m
    → holds f m ≡ true
    → length (delete f m) + 1 ≡ length m
unfolding has lookup delete
length-delete f [] u h = cc
length-delete f ((g, b) ∷ m) u h =
    ground (arith, eq_iff g f, delete_missing f m, length-delete f m u.1)

holds-delete :
    (f g : String) (m : GoMap Bool) → holds g (delete f m) ≡ not (str_eq f g) && holds g m
unfolding has
holds-delete f g m = ground (arith, lookup-delete f g m)

-- Every flag of the first holds in the second.
abbrev IsIn : GoMap Bool → GoMap Bool → Type 0
IsIn [] n = Unit
IsIn ((f, b) ∷ m) n = (holds f n ≡ true) × IsIn m n

IsIn-delete : (f : String) (m n : GoMap Bool) → lookup f m ≡ none → IsIn m n → IsIn m (delete f n)
unfolding lookup
IsIn-delete f [] n h i = tt
IsIn-delete f ((g, b) ∷ m) n h i =
    ground (arith, eq_iff g f, eq_iff f g, holds-delete f g n, IsIn-delete f m n)

-- Included and of the same size, the sets hold the same flags.
same-of-IsIn :
    (m n : GoMap Bool) (g : String)
    → AllTrue m
    → UniqueKeys m
    → UniqueKeys n
    → IsIn m n
    → length m ≡ length n
    → holds g m ≡ holds g n
unfolding has lookup
same-of-IsIn [] [] g t u v i e = refl
same-of-IsIn [] (p ∷ n) g t u v i e = absurd (omega arith)
same-of-IsIn ((f, b) ∷ m) n g t u v i e = ground (
  arith,
  eq_iff f g,
  holds-delete f g n,
  length-delete f n v i.0,
  IsIn-delete f m n u.0 i.1,
  same-of-IsIn m (delete f n) g t.1 u.1 (delete-UniqueKeys f n v),
)

length-of-IsIn : (m n : GoMap Bool) → UniqueKeys m → UniqueKeys n → IsIn m n → length m ≤ length n
length-of-IsIn [] n u v i = omega arith
length-of-IsIn ((f, b) ∷ m) n u v i = omega (
  arith,
  length-delete f n v i.0,
  length-of-IsIn m (delete f n) u.1 (delete-UniqueKeys f n v) (IsIn-delete f m n u.0 i.1),
)

IsIn-of-holds :
    (m n : GoMap Bool) → AllTrue m → ((g : String) → holds g m ≡ true → holds g n ≡ true) → IsIn m n
unfolding has lookup
IsIn-of-holds [] n t h = tt
IsIn-of-holds ((f, b) ∷ m) n t h = (
  h f (ground (arith, eq_iff f f)),
  IsIn-of-holds m n t.1 (λ g k. h g (ground (arith, eq_iff f g))),
)

all_in→IsIn : (m n : GoMap Bool) → all_in m (record { flags = n }) ≡ true → IsIn m n
unfolding all_in
all_in→IsIn [] n h = tt
all_in→IsIn ((f, b) ∷ m) n h = ground (arith, all_in→IsIn m n)

IsIn→all_in : (m n : GoMap Bool) → IsIn m n → all_in m (record { flags = n }) ≡ true
unfolding all_in
IsIn→all_in [] n i = refl
IsIn→all_in ((f, b) ∷ m) n i = ground (arith, IsIn→all_in m n i.1)

-- On sets that hold each flag once and only with the value true, `Equal` answers true exactly if
-- every flag is in both sets or in neither.
pub equal_iff :
    (fs other : FlagSet)
    → IsFlagSet fs
    → IsFlagSet other
    → (equal fs other ≡ true) ↔ ((g : String) → has g fs ≡ has g other)
unfolding equal
equal_iff fs other v w = (
  λ h g.
      same-of-IsIn fs.flags other.flags g v.members v.unique w.unique
        (all_in→IsIn fs.flags other.flags (ground arith)) (ground arith),
  λ h.
      let i = IsIn-of-holds fs.flags other.flags v.members (λ g k. sym (h g) ∙ k) in
      let j = IsIn-of-holds other.flags fs.flags w.members (λ g k. h g ∙ k) in
      ground (
        arith,
        length-of-IsIn fs.flags other.flags v.unique w.unique i,
        length-of-IsIn other.flags fs.flags w.unique v.unique j,
        IsIn→all_in fs.flags other.flags i,
      ),
)
