-- ===== src/Api/Users.antt =====
-- The change of a password: `UpdatePassword` of internal/api/handlers/users.go behind its middleware,
-- with `UpdatePassword` and `ChangePassword` of internal/service/user.go. The repository is the map from
-- the ids of the users to the hashes of their passwords, and its queries succeed; bcrypt's hash, which
-- may fail, and its comparison are parameters. A password is the list of its bytes.
pub mod Passwords
use yunt.Prelude.{
  ℕ, String, Bool, true, false, not, ◌&&◌, Option, none, some, List, [], ◌∷◌, ltb, ◌==◌,
  if◌then◌else◌, str_eq, length,
}
use yunt.Prelude.Maps.{GoMap, lookup, insert}
use yunt.Api.Rbac.{
  TokenClaims, Decision, passed, unauthorized, forbidden, role_admin, rbac, owner_or_admin,
}

pub data PasswordError : Type 0 where
  new_required too_short too_long current_required current_incorrect user_not_found hash_failed :
      PasswordError
  denied : Decision → PasswordError

abbrev pub Users : Type 0
Users = GoMap String

-- `Validate` of the input.
unfoldable pub validate_input : List ℕ → Option PasswordError
validate_input new =
    if length new == 0
    then some new_required
    else if ltb (length new) 8
    then some too_short
    else if ltb 128 (length new)
    then some too_long
    else none

-- The next handler's result where the middleware calls it, and its error otherwise.
abbrev pub guarded : Decision → Users → Users × Option PasswordError → Users × Option PasswordError
guarded passed users next = next
guarded (unauthorized message) users next = (users, some (denied (unauthorized message)))
guarded (forbidden message) users next = (users, some (denied (forbidden message)))

module _ (hash : List ℕ → Option String) (compare_hash : String → List ℕ → Bool) where
  hashed : String → Option String → Users → Users × Option PasswordError
  hashed id none users = (users, some hash_failed)
  hashed id (some h) users = (insert id h users, none)

  unfoldable pub update_password : String → List ℕ → Users → Users × Option PasswordError
  unfolding hashed
  update_password id new users =
      if ltb (length new) 8
      then (users, some too_short)
      else if ltb 128 (length new)
      then (users, some too_long)
      else elim (lookup id users) [
        | none ↦ (users, some user_not_found)
        | some old ↦ hashed id (hash new) users
      ]

  unfoldable pub change_password : String → List ℕ → List ℕ → Users → Users × Option PasswordError
  unfolding update_password
  change_password id current new users = elim (lookup id users) [
    | none ↦ (users, some user_not_found)
    | some old ↦
        if not (compare_hash old current)
        then (users, some current_incorrect)
        else update_password id new users
  ]

  -- The handler from the validated input on.
  unfoldable pub changed :
      Bool → Bool → String → List ℕ → List ℕ → Users → Users × Option PasswordError
  unfolding change_password update_password
  changed is_self is_admin id current new users =
      if is_self && not is_admin
      then if length current == 0
        then (users, some current_required)
        else change_password id current new users
      else update_password id new users

  abbrev pub is_self : Option TokenClaims → String → Bool
  is_self none id = false
  is_self (some c) id = str_eq c.user_id id

  abbrev pub is_admin : Option TokenClaims → Bool
  is_admin none = false
  is_admin (some c) = str_eq c.role role_admin

  unfoldable pub handle_update_password :
      (String → String)
      → Option TokenClaims
      → List ℕ
      → List ℕ
      → Users
      → Users × Option PasswordError
  unfolding validate_input changed
  handle_update_password param claims current new users =
      let id = param "id" in
      elim (validate_input new) [
        | some e ↦ (users, some e)
        | none ↦ changed (is_self claims id) (is_admin claims) id current new users
      ]

  -- The route `PUT /users/:id/password`.
  unfoldable pub put_password :
      (String → String)
      → Option TokenClaims
      → List ℕ
      → List ℕ
      → Users
      → Users × Option PasswordError
  unfolding rbac handle_update_password
  put_password param claims current new users =
      guarded (rbac param (owner_or_admin "id") claims) users
        (handle_update_password param claims current new users)
