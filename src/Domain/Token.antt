-- ===== src/Domain/Token.antt =====
-- internal/domain/token.go: the session of a user, the inputs of the authentication and its answers.
-- A time is a count of nanoseconds, and the clock's reading is an argument.
use yunt.Prelude.{
  ℕ, String, Bool, true, false, not, ◌&&◌, List, [], ◌∷◌, ltb, if◌then◌else◌, str_eq,
}
use yunt.Domain.User.{User}

pub record Session : Type 0 where
  pub id : String
  pub user_id : String
  pub refresh_token_hash : String
  pub user_agent : String
  pub ip_address : String
  pub is_revoked : Bool
  pub created_at : ℕ
  pub expires_at : ℕ
  pub last_used_at : ℕ

-- `NewSession`
abbrev pub fresh_session : ℕ → String → String → String → ℕ → Session
fresh_session now id user_id token_hash expires_at = record {
  id = id;
  user_id = user_id;
  refresh_token_hash = token_hash;
  user_agent = "";
  ip_address = "";
  is_revoked = false;
  created_at = now;
  expires_at = expires_at;
  last_used_at = now;
}

-- `IsExpired` and `IsValid` of a session
abbrev pub session_expired : ℕ → Session → Bool
session_expired now s = ltb s.expires_at now

abbrev pub session_valid : ℕ → Session → Bool
session_valid now s = not s.is_revoked && not (session_expired now s)

abbrev pub revoked : Session → Session
revoked s = record s { is_revoked = true }

abbrev pub touched : ℕ → Session → Session
touched now s = record s { last_used_at = now }

pub record TokenPair (Token : Type 0) : Type 0 where
  pub access_token : Token
  pub refresh_token : Token
  pub access_token_expires_at : ℕ
  pub refresh_token_expires_at : ℕ
  pub token_kind : String

-- `NewTokenPair`
abbrev pub fresh_pair : {Token : Type 0} → Token → Token → ℕ → ℕ → TokenPair Token
fresh_pair access refresh access_exp refresh_exp = record {
  access_token = access;
  refresh_token = refresh;
  access_token_expires_at = access_exp;
  refresh_token_expires_at = refresh_exp;
  token_kind = "Bearer";
}

pub record UserInfo : Type 0 where
  pub id : String
  pub username : String
  pub email : String
  pub display_name : String
  pub role : String

abbrev pub user_info : User → UserInfo
user_info u = record {
  id = u.id;
  username = u.username;
  email = u.email;
  display_name = u.display_name;
  role = u.role;
}

pub record AuthResponse (Token : Type 0) : Type 0 where
  pub user : UserInfo
  pub tokens : TokenPair Token

-- The errors that the authentication returns; a validation error lists the fields.
pub data AuthError : Type 0 where
  validation : List String → AuthError
  unauthorized internal invalid_token session_revoked : String → AuthError
  expired_token : ℕ → AuthError

pub data Result (A : Type 0) : Type 0 where
  ok : A → Result A
  error : AuthError → Result A

-- `Validate` of the input of a login: the fields that are missing.
abbrev pub missing_fields : String → String → List String
missing_fields username password =
    let password_errors = if str_eq password "" then "password" ∷ [] else [] in
    if str_eq username "" then "username" ∷ password_errors else password_errors
