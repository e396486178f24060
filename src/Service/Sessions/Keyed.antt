-- ===== src/Service/Sessions/Keyed.antt =====
-- Every operation keeps the sessions under their own ids.
use yunt.Prelude.{ℕ, String, some, ◌≡◌, refl, inl, inr, Option-cases}
use mathlib.Core.Path.{subst}
use yunt.Prelude.Maps.{
  lookup, insert-UniqueKeys, insert-AllEntries, delete-UniqueKeys, delete-AllEntries,
  lookup-AllEntries, HoldsAt,
}
use yunt.Domain.Token.{Session, touched}
use yunt.Service.Sessions.{Store, create, update, remove, touch, UnderId, IsKeyed}

pub create-IsKeyed : (s : Session) (store : Store) → IsKeyed store → IsKeyed (create s store)
unfolding create
create-IsKeyed s store (u, a) =
    (insert-UniqueKeys s.id s store u, insert-AllEntries UnderId s.id s store refl a)

pub remove-IsKeyed : (id : String) (store : Store) → IsKeyed store → IsKeyed (remove id store)
unfolding remove
remove-IsKeyed id store (u, a) =
    (delete-UniqueKeys id store u, delete-AllEntries UnderId id store a)

-- A session that is found has the id that it is found under.
pub found_id :
    (id : String) (s : Session) (store : Store)
    → IsKeyed store
    → lookup id store ≡ some s
    → s.id ≡ id
found_id id s store k h =
    subst (λ o. HoldsAt UnderId id o) h (lookup-AllEntries UnderId id store k.1)

pub update-IsKeyed : (s : Session) (store : Store) → IsKeyed store → IsKeyed (update s store).0
unfolding update
update-IsKeyed s store k = elim (Option-cases (lookup s.id store)) [
  | inl h ↦ rw (update, h) k
  | inr (old, h) ↦
      rw (update, h)
        (insert-UniqueKeys s.id s store k.0, insert-AllEntries UnderId s.id s store refl k.1)
]

pub touch-IsKeyed :
    (now : ℕ) (id : String) (store : Store) → IsKeyed store → IsKeyed (touch now id store).0
unfolding touch
touch-IsKeyed now id store k = elim (Option-cases (lookup id store)) [
  | inl h ↦ rw (touch, h) k
  | inr (s, h) ↦
      rw (touch, h)
        (
          insert-UniqueKeys id (touched now s) store k.0,
          insert-AllEntries UnderId id (touched now s) store (found_id id s store k h) k.1,
        )
]
