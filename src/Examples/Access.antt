-- ===== src/Examples/Access.antt =====
-- The middleware of internal/api.
use yunt.Prelude.{
  ℕ, ◌≡◌, ◌↔◌, refl, inr, String, Bool, false, Option, none, some, List, [], ◌∷◌, arith,
}
use yunt.Prelude.Maps.{lookup, insert}
use yunt.Api.Rbac.{TokenClaims, access, passed, rbac, admin_only}
use yunt.Api.Rbac.Access.{MayPass, rbac_iff}
use yunt.Api.Users.{Users, put_password}
use yunt.Api.Users.Passwords.{password_of_another}

abbrev viewer : TokenClaims
viewer = record {
  user_id = "u1";
  username = "vic";
  email = "vic@x";
  role = "viewer";
  token_type = access;
  session_id = "s1";
}

-- The path names another user.
abbrev path : String → String
path name = "u2"

rbac_iff_example :
    (rbac path admin_only (some viewer) ≡ passed)
    ↔ ((c : TokenClaims) × (some viewer ≡ some c) × MayPass path admin_only c)
rbac_iff_example = rbac_iff path admin_only (some viewer)

-- Every password is hashed to one text, and none is right.
abbrev hash : List ℕ → Option String
hash new = some "new"

abbrev compare_hash : String → List ℕ → Bool
compare_hash h password = false

abbrev users : Users
users = ("u1", "mine") ∷ ("u2", "theirs") ∷ []

abbrev eight : List ℕ
eight = 1 ∷ 2 ∷ 3 ∷ 4 ∷ 5 ∷ 6 ∷ 7 ∷ 8 ∷ []

password_of_another_example :
    put_password hash compare_hash path (some viewer) [] eight users
    ≡ (insert "u2" "new" users, none)
unfolding lookup
password_of_another_example =
    password_of_another hash compare_hash path viewer [] eight users "new" "theirs" (inr refl) refl
      (omega arith) (omega arith) refl refl

abbrev own_path : String → String
own_path name = "u1"
