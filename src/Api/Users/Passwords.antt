-- ===== src/Api/Users/Passwords.antt =====
-- Whose password a request changes.
use yunt.Prelude.{
  ℕ, ◌≡◌, refl, ◌⊎◌, inl, inr, ◌∙◌, ◌≤◌, String, Bool, true, false, Option, none, some, List, arith,
  ltb, ◌==◌, str_eq, length, Bool-cases, Option-cases,
}
use yunt.Prelude.Maps.{lookup, insert}
use yunt.Api.Rbac.{
  TokenClaims, Decision, passed, unauthorized, forbidden, role_admin, role_user, role_viewer, rbac,
  owner_or_admin,
}
use yunt.Api.Rbac.Access.{owner_or_admin_lets_all}
use yunt.Api.Users.{
  PasswordError, guarded, hashed, Users, validate_input, update_password, change_password, changed,
  handle_update_password, put_password,
}

module _ (hash : List ℕ → Option String) (compare_hash : String → List ℕ → Bool) where
  put_password-passed :
      (param : String → String) (claims : Option TokenClaims) (current new : List ℕ) (users : Users)
      → rbac param (owner_or_admin "id") claims ≡ passed
      → put_password hash compare_hash param claims current new users
        ≡ handle_update_password hash compare_hash param claims current new users
  unfolding put_password
  put_password-passed param claims current new users h = rw (put_password, h) refl

  validate_input-none :
      (new : List ℕ) → 8 ≤ length new → length new ≤ 128 → validate_input new ≡ none
  unfolding validate_input
  validate_input-none new l u = ground arith

  update_password-set :
      (id h old : String) (new : List ℕ) (users : Users)
      → 8 ≤ length new
      → length new ≤ 128
      → lookup id users ≡ some old
      → hash new ≡ some h
      → update_password hash compare_hash id new users ≡ (insert id h users, none)
  unfolding update_password
  update_password-set id h old new users l u there k =
      let long_enough : ltb (length new) 8 ≡ false = ground arith in
      let short_enough : ltb 128 (length new) ≡ false = ground arith in
      rw (update_password, long_enough, short_enough, there, hashed, k) refl

  changed-other :
      (id : String) (current new : List ℕ) (users : Users) (admin : Bool)
      → changed hash compare_hash false admin id current new users
        ≡ update_password hash compare_hash id new users
  unfolding changed
  changed-other id current new users admin = refl

  handle-other :
      (param : String → String) (c : TokenClaims) (current new : List ℕ) (users : Users)
      → validate_input new ≡ none
      → str_eq c.user_id (param "id") ≡ false
      → handle_update_password hash compare_hash param (some c) current new users
        ≡ update_password hash compare_hash (param "id") new users
  unfolding handle_update_password changed
  handle-other param c current new users v other = rw (handle_update_password, v, other) refl

  -- A user or a viewer, though no administrator, sets the password of any other user that exists,
  -- without knowing the old one: the request is let through and the hash replaced, for a password of an
  -- admissible length that can be hashed.
  pub password_of_another :
      (param : String → String) (c : TokenClaims) (current new : List ℕ) (users : Users)
      (h old : String)
      → (c.role ≡ role_user) ⊎ (c.role ≡ role_viewer)
      → str_eq c.user_id (param "id") ≡ false
      → 8 ≤ length new
      → length new ≤ 128
      → lookup (param "id") users ≡ some old
      → hash new ≡ some h
      → put_password hash compare_hash param (some c) current new users
        ≡ (insert (param "id") h users, none)
  password_of_another param c current new users h old role other l u there k =
      put_password-passed param (some c) current new users
        (owner_or_admin_lets_all param "id" c role)
      ∙ handle-other param c current new users (validate_input-none new l u) other
      ∙ update_password-set (param "id") h old new users l u there k

  guarded-unchanged :
      (d : Decision) (r : Users × Option PasswordError) (users : Users)
      → r.0 ≡ users
      → (guarded d users r).0 ≡ users
  guarded-unchanged passed r users e = e
  guarded-unchanged (unauthorized message) r users e = refl
  guarded-unchanged (forbidden message) r users e = refl

  change_password-incorrect :
      (id old : String) (current new : List ℕ) (users : Users)
      → lookup id users ≡ some old
      → compare_hash old current ≡ false
      → (change_password hash compare_hash id current new users).0 ≡ users
  unfolding change_password
  change_password-incorrect id old current new users there wrong =
      rw (change_password, there, wrong) refl

  changed-incorrect :
      (id old : String) (current new : List ℕ) (users : Users)
      → lookup id users ≡ some old
      → compare_hash old current ≡ false
      → (changed hash compare_hash true false id current new users).0 ≡ users
  unfolding changed
  changed-incorrect id old current new users there wrong = elim (Bool-cases (length current == 0)) [
    | inl e ↦ rw (changed, e) refl
    | inr e ↦ rw (changed, e) (change_password-incorrect id old current new users there wrong)
  ]

  handle-incorrect :
      (param : String → String) (c : TokenClaims) (old : String) (current new : List ℕ)
      (users : Users)
      → str_eq c.user_id (param "id") ≡ true
      → str_eq c.role role_admin ≡ false
      → lookup (param "id") users ≡ some old
      → compare_hash old current ≡ false
      → (handle_update_password hash compare_hash param (some c) current new users).0 ≡ users
  unfolding handle_update_password
  handle-incorrect param c old current new users own plain there wrong =
      elim (Option-cases (validate_input new)) [
        | inl v ↦
            rw (handle_update_password, v, own, plain)
              (changed-incorrect (param "id") old current new users there wrong)
        | inr (e, v) ↦ rw (handle_update_password, v) refl
      ]

  -- A user who is no administrator does not change the own password without knowing it.
  own_password_kept :
      (param : String → String) (c : TokenClaims) (old : String) (current new : List ℕ)
      (users : Users)
      → str_eq c.user_id (param "id") ≡ true
      → str_eq c.role role_admin ≡ false
      → lookup (param "id") users ≡ some old
      → compare_hash old current ≡ false
      → (put_password hash compare_hash param (some c) current new users).0 ≡ users
  unfolding put_password
  own_password_kept param c old current new users own plain there wrong =
      guarded-unchanged (rbac param (owner_or_admin "id") (some c))
        (handle_update_password hash compare_hash param (some c) current new users) users
        (handle-incorrect param c old current new users own plain there wrong)
