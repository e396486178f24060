-- ===== src/Examples/Logins.antt =====
-- The authentication at concrete inputs. A token is its claims, and its digest the issuer.
use mathlib.Core.Path.{subst}
use yunt.Prelude.{
  ℕ, ◌≤◌, ◌<◌, String, true, false, ◌&&◌, Option, none, some, List, [], ◌∷◌, ◌≡◌, ◌≢◌, ◌↔◌, refl,
  ltb, leb, arith, if◌then◌else◌, str_eq, eq_iff,
}
use yunt.Prelude.Maps.{lookup}
use yunt.Domain.User.{User}
use yunt.Domain.Token.{Session, AuthResponse, user_info, ok, error, invalid_token}
use yunt.Api.Rbac.{TokenType, access, refresh}
use yunt.Service.Sessions.{IsKeyed, get}
use yunt.Service.Auth.{
  JwtClaims, Parsed, parsed, malformed, Crypto, found, missing, UserRepository, AuthState,
  claims_of, logout, validate_token, read_claims, live_session, generate_token_pair, paired,
}
use yunt.Service.Auth.Login.{
  login, refresh_token, validate_access_token, refreshed, rotated, renewed, opened,
}
use yunt.Service.Auth.History.{
  Action, login_as, validate_at, Avoids, IsRefused, play, logout-IsRefused,
}
use yunt.Service.Auth.Rotation.{refresh_token-IsRefused, reused-revokes}
use yunt.Service.Auth.RoundTrip.{MayLogIn, login-validate_access_token, login_iff}

abbrev parse_claims : ℕ → JwtClaims → Parsed
parse_claims time c =
    if leb c.registered.not_before time && ltb time c.registered.expires_at
    then parsed c true
    else malformed "expired"

abbrev demo : Crypto JwtClaims
demo = record {
  numeric_date = λ t. t;
  sign = λ c. some c;
  parse = parse_claims;
  is_empty = λ c. false;
  hash_token = λ c. c.registered.issuer;
  compare_hash = λ hash password. str_eq hash password;
  jwt_expiration = 10;
  refresh_expiration = 100;
}

abbrev ann : User
ann = record {
  id = "u1";
  username = "ann";
  email = "ann@x.org";
  display_name = "Ann";
  role = "user";
  status = "active";
  password_hash = "secret12";
}

abbrev one_user : UserRepository
one_user = record {
  get_by_id = λ id. if str_eq id "u1" then found ann else missing;
  get_by_username = λ name. if str_eq name "ann" then found ann else missing;
}

abbrev nobody : AuthState
nobody = record { sessions = []; last_logins = [] }

abbrev token_of : TokenType → String → JwtClaims
token_of kind issuer = record {
  registered = record {
    subject = "u1";
    issuer = issuer;
    issued_at = 1;
    expires_at = 90;
    not_before = 1;
  };
  claims = record {
    user_id = "u1";
    username = "ann";
    email = "ann@x.org";
    role = "user";
    token_type = kind;
    session_id = "s1";
  };
}

abbrev first_session : Session
first_session = record {
  id = "s1";
  user_id = "u1";
  refresh_token_hash = "yunt";
  user_agent = "";
  ip_address = "";
  is_revoked = false;
  created_at = 1;
  expires_at = 101;
  last_used_at = 1;
}

abbrev one_session : AuthState
one_session = record { sessions = ("s1", first_session) ∷ []; last_logins = [] }

one_session-IsKeyed : IsKeyed one_session.sessions
unfolding lookup
one_session-IsKeyed = ((refl, tt), (refl, tt))

signs : (c : JwtClaims) → (t : JwtClaims) × (demo.sign c ≡ some t)
signs c = (c, refl)

reads :
    (c t : JwtClaims) (time : ℕ)
    → demo.sign c ≡ some t
    → c.registered.not_before ≤ time
    → time < c.registered.expires_at
    → demo.parse time t ≡ parsed c true
reads c t time e h k = subst (λ o. parse_or c o ≡ parsed c true) e in_time
  where
    parse_or : JwtClaims → Option JwtClaims → Parsed
    parse_or d none = malformed ""
    parse_or d (some t') = parse_claims time t'

    in_time : parse_claims time c ≡ parsed c true
    in_time = ground arith

login-validate_access_token_example :
    (after kept : AuthState) × (response : AuthResponse JwtClaims) × (login demo one_user 1 "s1"
        "ann" "secret12" "" "" nobody
      ≡ (after, ok response))
    × (response.user ≡ user_info ann)
    × (validate_access_token demo 5 response.tokens.access_token after
        ≡ (kept, ok (claims_of demo ann "s1" access)))
login-validate_access_token_example =
    login-validate_access_token demo one_user 1 5 "s1" "ann" "secret12" "" "" ann nobody signs reads
      (λ time. omega arith) (omega arith) refl refl refl refl refl (omega arith) (omega arith)

login_iff_example :
    ((after : AuthState) × (response : AuthResponse JwtClaims) × (login demo one_user 1 "s1" "ann"
          "secret12" "" "" nobody
        ≡ (after, ok response)))
    ↔ MayLogIn demo one_user "ann" "secret12"
login_iff_example = login_iff demo one_user 1 "s1" "ann" "secret12" "" "" nobody signs

s2_not_s1 : ◌≢◌ {A = String} "s2" "s1"
s2_not_s1 = ground (arith, eq_iff "s2" "s1")

abbrev later_on : List (Action JwtClaims)
later_on =
    login_as one_user 3 "s2" "ann" "secret12" "" "" ∷ validate_at 4 (token_of access "yunt") ∷ []

later_on-Avoids : Avoids "s1" later_on
later_on-Avoids = (s2_not_s1, tt)

abbrev logged_out : AuthState
logged_out = play demo later_on (logout "s1" one_session)

logout-IsRefused_example :
    IsRefused logged_out (validate_access_token demo 6 (token_of access "yunt") logged_out)
    × IsRefused logged_out (refresh_token demo one_user 6 "s3" (token_of access "yunt") logged_out)
unfolding validate_token read_claims
logout-IsRefused_example =
    logout-IsRefused demo "s1" later_on one_session one_user 6 "s3" (token_of access "yunt")
      (token_of access "yunt").claims one_session-IsKeyed later_on-Avoids refl refl

reused-revokes_example :
    (after : AuthState) × (refresh_token demo one_user 5 "s2" (token_of refresh "old") one_session
      ≡ (after, error (invalid_token "token mismatch")))
    × IsRefused after (validate_access_token demo 6 (token_of access "yunt") after)
    × IsRefused after (refresh_token demo one_user 6 "s3" (token_of access "yunt") after)
unfolding validate_token read_claims lookup
reused-revokes_example =
    reused-revokes demo one_user one_user 5 6 "s2" "s3" (token_of refresh "old")
      (token_of access "yunt") (token_of refresh "old").claims (token_of access "yunt").claims
      first_session one_session one_session-IsKeyed refl refl refl refl refl refl refl refl

renewal :
    (st' : AuthState) × (response : AuthResponse JwtClaims) × (refresh_token demo one_user 5 "s2"
        (token_of refresh "yunt")
        one_session
      ≡ (st', ok response))
unfolding refresh_token validate_token read_claims lookup refreshed rotated renewed opened
    live_session generate_token_pair paired get
renewal = (_, _, refl)

abbrev renewed_on : AuthState
renewed_on = play demo later_on renewal.0

refresh_token-IsRefused_example :
    IsRefused renewed_on (validate_access_token demo 7 (token_of refresh "yunt") renewed_on)
    × IsRefused renewed_on (refresh_token demo one_user 7 "s4" (token_of refresh "yunt") renewed_on)
unfolding validate_token read_claims
refresh_token-IsRefused_example =
    refresh_token-IsRefused demo one_user one_user 5 7 "s2" "s4" (token_of refresh "yunt")
      (token_of refresh "yunt") (token_of refresh "yunt").claims (token_of refresh "yunt").claims
      later_on one_session renewal.0 renewal.1 one_session-IsKeyed refl s2_not_s1 renewal.2
      later_on-Avoids refl refl
