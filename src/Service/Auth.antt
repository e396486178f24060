-- ===== src/Service/Auth.antt =====
-- `AuthService` of internal/service/auth.go over the sessions in memory. A token is only made and
-- parsed by jwt, hashed and tested for being empty: it is of a type of its own. jwt, bcrypt, the digest
-- and the repository of the users are parameters. A new session's id, which uuid draws, and the clock's
-- reading are arguments.
pub mod Login
pub mod Gone
pub mod History
pub mod RoundTrip
pub mod Rotation
use yunt.Prelude.{
  ℕ, ◌+◌, String, Bool, true, false, not, Option, none, some, List, [], ◌∷◌, if◌then◌else◌, str_eq,
}
use yunt.Domain.User.{User, is_active}
use yunt.Domain.Token.{
  Session, fresh_session, session_valid, revoked, TokenPair, fresh_pair, user_info, AuthResponse,
  AuthError, validation, unauthorized, internal, invalid_token, session_revoked, expired_token,
  Result, ok, error, missing_fields,
}
use yunt.Api.Rbac.{TokenType, access, refresh, TokenClaims}
use yunt.Service.Sessions.{Store, get, create, update, remove, remove_user, touch}

pub record RegisteredClaims : Type 0 where
  pub subject : String
  pub issuer : String
  pub issued_at : ℕ
  pub expires_at : ℕ
  pub not_before : ℕ

pub record JwtClaims : Type 0 where
  pub registered : RegisteredClaims
  pub claims : TokenClaims

-- What `ParseWithClaims` returns: the claims and `token.Valid`, the bare `ErrTokenExpired`, or another
-- error with its text.
pub data Parsed : Type 0 where
  parsed : JwtClaims → Bool → Parsed
  token_expired : Parsed
  malformed : String → Parsed

-- The calls of jwt, bcrypt and sha256 with the configuration. `numeric_date` is `jwt.NewNumericDate`,
-- `sign` is `SignedString`, and `parse` is `ParseWithClaims` with the service's secret.
pub record Crypto (Token : Type 0) : Type 0 where
  pub numeric_date : ℕ → ℕ
  pub sign : JwtClaims → Option Token
  pub parse : ℕ → Token → Parsed
  pub is_empty : Token → Bool
  pub hash_token : Token → String
  pub compare_hash : String → String → Bool
  pub jwt_expiration : ℕ
  pub refresh_expiration : ℕ

-- A query of the repository: a user, the error for a missing one, or another error.
pub data Fetched : Type 0 where
  found : User → Fetched
  missing broken : Fetched

pub record UserRepository : Type 0 where
  pub get_by_id : String → Fetched
  pub get_by_username : String → Fetched

-- The sessions, and the users whose last login was written, the latest first.
pub record AuthState : Type 0 where
  pub sessions : Store
  pub last_logins : List String

abbrev pub is_access : TokenType → Bool
is_access access = true
is_access refresh = false

-- `sessionStore.Get` with the test of the session that follows it.
unfoldable pub live_session : ℕ → Option Session → Result Session
live_session now none = error (invalid_token "session not found")
live_session now (some s) =
    if session_valid now s
    then ok s
    else if s.is_revoked
    then error (session_revoked s.id)
    else error (expired_token s.expires_at)

-- `Logout`. The session that is revoked is the one that is deleted, so nobody sees the mark.
unfoldable pub logout : String → AuthState → AuthState
logout session_id st = elim (get session_id st.sessions) [
  | none ↦ st
  | some s ↦ record st { sessions = remove session_id st.sessions }
]

unfoldable pub logout_all : String → AuthState → AuthState
logout_all user_id st = record st { sessions = remove_user user_id st.sessions }

module _ {Token : Type 0} (crypto : Crypto Token) where
  abbrev pub claims_of : User → String → TokenType → TokenClaims
  claims_of u session_id kind = record {
    user_id = u.id;
    username = u.username;
    email = u.email;
    role = u.role;
    token_type = kind;
    session_id = session_id;
  }

  -- The claims of a token that is made at `now` and expires at `exp`.
  abbrev pub jwt_claims : ℕ → ℕ → User → String → TokenType → JwtClaims
  jwt_claims now exp u session_id kind = record {
    registered = record {
      subject = u.id;
      issuer = "yunt";
      issued_at = crypto.numeric_date now;
      expires_at = crypto.numeric_date exp;
      not_before = crypto.numeric_date now;
    };
    claims = claims_of u session_id kind;
  }

  -- The pair and the session, from the access token and the refresh token once each is signed.
  unfoldable pub paired :
      ℕ → String → User → Option Token → Option Token → Option (TokenPair Token × Session)
  paired now session_id u none r = none
  paired now session_id u (some a) none = none
  paired now session_id u (some a) (some r) = some (
    fresh_pair a r (now + crypto.jwt_expiration) (now + crypto.refresh_expiration),
    fresh_session now session_id u.id (crypto.hash_token r) (now + crypto.refresh_expiration),
  )

  unfoldable pub generate_token_pair : ℕ → String → User → Option (TokenPair Token × Session)
  unfolding paired
  generate_token_pair now session_id u =
      paired now session_id u
        (crypto.sign (jwt_claims now (now + crypto.jwt_expiration) u session_id access))
        (crypto.sign (jwt_claims now (now + crypto.refresh_expiration) u session_id refresh))

  -- `ValidateToken`, from what the parser returned.
  unfoldable pub read_claims : ℕ → Parsed → Result TokenClaims
  read_claims now (parsed c true) = ok c.claims
  read_claims now (parsed c false) = error (invalid_token "invalid token claims")
  read_claims now token_expired = error (expired_token now)
  read_claims now (malformed reason) = error (invalid_token reason)

  unfoldable pub validate_token : ℕ → Token → Result TokenClaims
  unfolding read_claims
  validate_token now token = read_claims now (crypto.parse now token)
