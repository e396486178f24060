-- ===== src/Service/Sessions/Users.antt =====
-- Removing the sessions of a user.
use yunt.Prelude.{
  String, Option, none, some, [], ◌∷◌, ◌≡◌, refl, inl, inr, arith, if◌then◌else◌, str_eq, eq_iff,
  Bool-cases,
}
use yunt.Prelude.Maps.{lookup, UniqueKeys, AllEntries}
use yunt.Domain.Token.{Session}
use yunt.Service.Sessions.{Store, remove_user, UnderId, IsKeyed}

-- What is left of a session.
abbrev pub unless_of : String → Option Session → Option Session
unless_of user_id none = none
unless_of user_id (some s) = if str_eq s.user_id user_id then none else some s

-- A session is found afterwards exactly where it was before and is another user's.
pub lookup-remove_user :
    (user_id id : String) (store : Store)
    → UniqueKeys store
    → lookup id (remove_user user_id store) ≡ unless_of user_id (lookup id store)
unfolding remove_user lookup
lookup-remove_user user_id id [] u = refl
lookup-remove_user user_id id ((k, s) ∷ store) u =
    ground (arith, lookup-remove_user user_id id store u.1, eq_iff k id)

remove_user-UniqueKeys :
    (user_id : String) (store : Store) → UniqueKeys store → UniqueKeys (remove_user user_id store)
unfolding remove_user
remove_user-UniqueKeys user_id [] u = tt
remove_user-UniqueKeys user_id ((k, s) ∷ store) u =
    ground (arith, remove_user-UniqueKeys user_id store u.1, lookup-remove_user user_id k store u.1)

remove_user-AllEntries :
    (P : String → Session → Type 0) (user_id : String) (store : Store)
    → AllEntries P store
    → AllEntries P (remove_user user_id store)
unfolding remove_user
remove_user-AllEntries P user_id [] a = tt
remove_user-AllEntries P user_id ((k, s) ∷ store) a = elim (Bool-cases (str_eq s.user_id user_id)) [
  | inl h ↦ rw h (remove_user-AllEntries P user_id store a.1)
  | inr h ↦ rw h (a.0, remove_user-AllEntries P user_id store a.1)
]

pub remove_user-IsKeyed :
    (user_id : String) (store : Store) → IsKeyed store → IsKeyed (remove_user user_id store)
remove_user-IsKeyed user_id store (u, a) =
    (remove_user-UniqueKeys user_id store u, remove_user-AllEntries UnderId user_id store a)
