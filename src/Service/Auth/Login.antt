-- ===== src/Service/Auth/Login.antt =====
-- `Login`, `RefreshToken`, `ValidateAccessToken` and `GetUserFromToken` of internal/service/auth.go.
-- Each returns the state and its answer. A step of the code that may fail is a function of its own.
use yunt.Prelude.{ℕ, String, not, Option, none, some, [], ◌∷◌, List, if◌then◌else◌, str_eq}
use yunt.Domain.User.{User, is_active}
use yunt.Domain.Token.{
  Session, revoked, TokenPair, user_info, AuthResponse, validation, unauthorized, internal,
  invalid_token, Result, ok, error, missing_fields,
}
use yunt.Api.Rbac.{TokenClaims}
use yunt.Service.Sessions.{get, create, update, remove, touch}
use yunt.Service.Auth.{
  Crypto, Fetched, found, missing, broken, UserRepository, AuthState, is_access, live_session,
  generate_token_pair, validate_token,
}

module _ {Token : Type 0} (crypto : Crypto Token) where
  -- The session is stored with the client's agent and address.
  unfoldable pub opened :
      String
      → String
      → User
      → Option (TokenPair Token × Session)
      → AuthState
      → AuthState × Result (AuthResponse Token)
  opened agent address u none st = (st, error (internal "failed to generate tokens"))
  opened agent address u (some (pair, s)) st = (
    record st {
      sessions = create (record s { user_agent = agent; ip_address = address }) st.sessions;
    },
    ok (record { user = user_info u; tokens = pair }),
  )

  -- `UpdateLastLogin`, whose error is dropped, on the way out of a login that succeeded.
  unfoldable pub noted :
      String → AuthState × Result (AuthResponse Token) → AuthState × Result (AuthResponse Token)
  noted id (st, error e) = (st, error e)
  noted id (st, ok r) = (record st { last_logins = id ∷ st.last_logins }, ok r)

  -- From the query of the user on.
  unfoldable pub logged_in :
      ℕ
      → String
      → String
      → String
      → String
      → Fetched
      → AuthState
      → AuthState × Result (AuthResponse Token)
  unfolding opened noted generate_token_pair
  logged_in now session_id password agent address missing st =
      (st, error (unauthorized "invalid credentials"))
  logged_in now session_id password agent address broken st =
      (st, error (internal "failed to retrieve user"))
  logged_in now session_id password agent address (found u) st =
      if not (is_active u)
      then (st, error (unauthorized "account is not active"))
      else if not (crypto.compare_hash u.password_hash password)
      then (st, error (unauthorized "invalid credentials"))
      else noted u.id (opened agent address u (generate_token_pair crypto now session_id u) st)

  -- From the fields that are missing on.
  unfoldable pub attempted :
      UserRepository
      → ℕ
      → String
      → String
      → String
      → String
      → String
      → List String
      → AuthState
      → AuthState × Result (AuthResponse Token)
  unfolding logged_in
  attempted repo now session_id username password agent address (field ∷ fields) st =
      (st, error (validation (field ∷ fields)))
  attempted repo now session_id username password agent address [] st =
      logged_in now session_id password agent address (repo.get_by_username username) st

  unfoldable pub login :
      UserRepository
      → ℕ
      → String
      → String
      → String
      → String
      → String
      → AuthState
      → AuthState × Result (AuthResponse Token)
  unfolding attempted
  login repo now session_id username password agent address st =
      attempted repo now session_id username password agent address
        (missing_fields username password) st

  -- From the query of the session's user on: the old session goes before the new one is made.
  unfoldable pub renewed :
      ℕ → String → Session → Fetched → AuthState → AuthState × Result (AuthResponse Token)
  unfolding opened generate_token_pair
  renewed now session_id s missing st = (st, error (unauthorized "user not found"))
  renewed now session_id s broken st = (st, error (internal "failed to retrieve user"))
  renewed now session_id s (found u) st =
      if not (is_active u)
      then (st, error (unauthorized "account is not active"))
      else opened s.user_agent s.ip_address u (generate_token_pair crypto now session_id u)
          (record st { sessions = remove s.id st.sessions })

  -- From the live session on: a token that is not the session's last one revokes it.
  unfoldable pub rotated :
      UserRepository
      → ℕ
      → String
      → Token
      → Result Session
      → AuthState
      → AuthState × Result (AuthResponse Token)
  unfolding renewed
  rotated repo now session_id token (error e) st = (st, error e)
  rotated repo now session_id token (ok s) st =
      if not (str_eq s.refresh_token_hash (crypto.hash_token token))
      then (
        record st { sessions = (update (revoked s) st.sessions).0 },
        error (invalid_token "token mismatch"),
      )
      else renewed now session_id s (repo.get_by_id s.user_id) st

  -- From the parsed token on.
  unfoldable pub refreshed :
      UserRepository
      → ℕ
      → String
      → Token
      → Result TokenClaims
      → AuthState
      → AuthState × Result (AuthResponse Token)
  unfolding rotated
  refreshed repo now session_id token (error e) st = (st, error e)
  refreshed repo now session_id token (ok c) st =
      if is_access c.token_type
      then (st, error (invalid_token "not a refresh token"))
      else rotated repo now session_id token (live_session now (get c.session_id st.sessions)) st

  unfoldable pub refresh_token :
      UserRepository → ℕ → String → Token → AuthState → AuthState × Result (AuthResponse Token)
  unfolding refreshed
  refresh_token repo now session_id token st =
      if crypto.is_empty token
      then (st, error (validation ("refreshToken" ∷ [])))
      else refreshed repo now session_id token (validate_token crypto now token) st

  -- From the session on: the session is touched, and the error of that is dropped.
  unfoldable pub admitted :
      ℕ → TokenClaims → Result Session → AuthState → AuthState × Result TokenClaims
  admitted now c (error e) st = (st, error e)
  admitted now c (ok s) st = (record st { sessions = (touch now c.session_id st.sessions).0 }, ok c)

  unfoldable pub checked : ℕ → Result TokenClaims → AuthState → AuthState × Result TokenClaims
  unfolding admitted
  checked now (error e) st = (st, error e)
  checked now (ok c) st =
      if not (is_access c.token_type)
      then (st, error (invalid_token "not an access token"))
      else admitted now c (live_session now (get c.session_id st.sessions)) st

  unfoldable pub validate_access_token : ℕ → Token → AuthState → AuthState × Result TokenClaims
  unfolding checked
  validate_access_token now token st = checked now (validate_token crypto now token) st

  active_user : Fetched → Result User
  active_user missing = error (unauthorized "user not found")
  active_user broken = error (internal "failed to retrieve user")
  active_user (found u) =
      if not (is_active u) then error (unauthorized "account is not active") else ok u

  user_of : UserRepository → AuthState × Result TokenClaims → AuthState × Result User
  unfolding active_user
  user_of repo (st, error e) = (st, error e)
  user_of repo (st, ok c) = (st, active_user (repo.get_by_id c.user_id))

  unfoldable pub get_user_from_token :
      UserRepository → ℕ → Token → AuthState → AuthState × Result User
  unfolding user_of validate_access_token
  get_user_from_token repo now token st = user_of repo (validate_access_token now token st)
