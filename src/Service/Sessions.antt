-- ===== src/Service/Sessions.antt =====
-- `InMemorySessionStore` of internal/service/auth.go: the sessions by their ids. Each operation runs
-- under the store's lock. A query fails only where the id is missing.
pub mod Keyed
pub mod Users
use yunt.Prelude.{
  ℕ, String, Bool, true, false, Option, none, some, [], ◌∷◌, ◌≡◌, if◌then◌else◌, str_eq,
}
use yunt.Prelude.Maps.{GoMap, lookup, insert, delete, UniqueKeys, AllEntries}
use yunt.Domain.Token.{Session, touched}

abbrev pub Store : Type 0
Store = GoMap Session

unfoldable pub get : String → Store → Option Session
get id store = lookup id store

unfoldable pub create : Session → Store → Store
create s store = insert s.id s store

-- With whether the session was there.
unfoldable pub update : Session → Store → Store × Bool
update s store = elim (lookup s.id store) [
  | none ↦ (store, false)
  | some old ↦ (insert s.id s store, true)
]

unfoldable pub remove : String → Store → Store
remove id store = delete id store

unfoldable pub remove_user : String → Store → Store
remove_user user_id [] = []
remove_user user_id ((k, s) ∷ store) =
    let rest = remove_user user_id store in if str_eq s.user_id user_id then rest else (k, s) ∷ rest

-- With whether the session was there.
unfoldable pub touch : ℕ → String → Store → Store × Bool
touch now id store = elim (lookup id store) [
  | none ↦ (store, false)
  | some s ↦ (insert id (touched now s) store, true)
]

-- Every session stands under its own id, and no id stands twice.
abbrev pub UnderId : String → Session → Type 0
UnderId k s = s.id ≡ k

abbrev pub IsKeyed : Store → Type 0
IsKeyed store = UniqueKeys store × AllEntries UnderId store
