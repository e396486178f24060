-- ===== src/Domain/User.antt =====
-- internal/domain/user.go: what the services read of a user. Roles and states are texts, as in the code.
use yunt.Prelude.{String, Bool, str_eq}

pub record User : Type 0 where
  pub id : String
  pub username : String
  pub email : String
  pub display_name : String
  pub role : String
  pub status : String
  pub password_hash : String

abbrev pub status_active : String
status_active = "active"

abbrev pub is_active : User → Bool
is_active u = str_eq u.status status_active
