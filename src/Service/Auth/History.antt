-- ===== src/Service/Auth/History.antt =====
-- What follows a logout or a renewal: any run of the service's operations, and the tokens that it refuses.
use yunt.Prelude.{
  ℕ, String, none, some, List, [], ◌∷◌, ◌≡◌, ◌≢◌, inl, inr, refl, arith, eq_iff, Option-cases,
  Bool-cases,
}
use yunt.Prelude.Maps.{lookup, lookup-delete}
use yunt.Domain.Token.{Session, AuthError, Result, ok, error, validation, invalid_token}
use yunt.Api.Rbac.{TokenClaims}
use yunt.Service.Sessions.{IsKeyed, get, remove}
use yunt.Service.Sessions.Keyed.{remove-IsKeyed}
use yunt.Service.Sessions.Users.{lookup-remove_user, remove_user-IsKeyed}
use yunt.Service.Auth.{
  Crypto, UserRepository, AuthState, is_access, live_session, logout, logout_all, validate_token,
}
use yunt.Service.Auth.Login.{
  login, rotated, refreshed, refresh_token, checked, admitted, validate_access_token,
}
use yunt.Service.Auth.Gone.{
  IsGone, logout-IsGone, logout_all-IsGone, login-IsGone, refresh_token-IsGone,
  validate_access_token-IsGone,
}

-- The operations with their inputs. Each has the repository of its time, and the id that uuid draws.
pub data Action (Token : Type 0) : Type 0 where
  login_as : UserRepository → ℕ → String → String → String → String → String → Action Token
  refresh_with : UserRepository → ℕ → String → Token → Action Token
  validate_at : ℕ → Token → Action Token
  log_out log_out_all : String → Action Token

-- No operation draws the id again.
abbrev pub Avoids : {Token : Type 0} → String → List (Action Token) → Type 0
Avoids k [] = Unit
Avoids k (login_as repo now id username password agent address ∷ rest) = (id ≢ k) × Avoids k rest
Avoids k (refresh_with repo now id token ∷ rest) = (id ≢ k) × Avoids k rest
Avoids k (validate_at now token ∷ rest) = Avoids k rest
Avoids k (log_out id ∷ rest) = Avoids k rest
Avoids k (log_out_all user_id ∷ rest) = Avoids k rest

-- The operation answers with an error and changes nothing.
abbrev pub IsRefused : {A : Type 0} → AuthState → AuthState × Result A → Type 0
IsRefused st r = (e : AuthError) × (r ≡ (st, error e))

module _ {Token : Type 0} (crypto : Crypto Token) where
  unfoldable pub play : List (Action Token) → AuthState → AuthState
  play [] st = st
  play (login_as repo now id username password agent address ∷ rest) st =
      play rest (login crypto repo now id username password agent address st).0
  play (refresh_with repo now id token ∷ rest) st =
      play rest (refresh_token crypto repo now id token st).0
  play (validate_at now token ∷ rest) st = play rest (validate_access_token crypto now token st).0
  play (log_out id ∷ rest) st = play rest (logout id st)
  play (log_out_all user_id ∷ rest) st = play rest (logout_all user_id st)

  pub play-IsGone :
      (k : String) (history : List (Action Token)) (st : AuthState)
      → Avoids k history
      → IsGone k st.sessions
      → IsGone k (play history st).sessions
  unfolding play
  play-IsGone k [] st a g = g
  play-IsGone k (login_as repo now id username password agent address ∷ rest) st a g =
      play-IsGone k rest _ a.1
        (login-IsGone crypto repo k now id username password agent address st a.0 g)
  play-IsGone k (refresh_with repo now id token ∷ rest) st a g =
      play-IsGone k rest _ a.1 (refresh_token-IsGone crypto repo k now id token st a.0 g)
  play-IsGone k (validate_at now token ∷ rest) st a g =
      play-IsGone k rest _ a (validate_access_token-IsGone crypto k now token st g)
  play-IsGone k (log_out id ∷ rest) st a g = play-IsGone k rest _ a (logout-IsGone k id st g)
  play-IsGone k (log_out_all user_id ∷ rest) st a g =
      play-IsGone k rest _ a (logout_all-IsGone k user_id st g)

  -- A token of a session that is missing, revoked or too old opens nothing.
  unlive-unvalidated :
      (k : String) (st : AuthState) (now : ℕ) (token : Token) (c : TokenClaims) (e : AuthError)
      → live_session now (get k st.sessions) ≡ error e
      → validate_token crypto now token ≡ ok c
      → c.session_id ≡ k
      → IsRefused st (validate_access_token crypto now token st)
  unfolding validate_access_token checked admitted
  unlive-unvalidated k st now token c e dead valid own =
      elim (Bool-cases (is_access c.token_type)) [
        | inl h ↦ (e, rw (valid, h, own, dead) refl)
        | inr h ↦ (invalid_token "not an access token", rw (valid, h) refl)
      ]

  unlive-unrefreshed :
      (k : String) (st : AuthState) (repo : UserRepository) (now : ℕ) (id : String) (token : Token)
      (c : TokenClaims) (e : AuthError)
      → live_session now (get k st.sessions) ≡ error e
      → validate_token crypto now token ≡ ok c
      → c.session_id ≡ k
      → IsRefused st (refresh_token crypto repo now id token st)
  unfolding refresh_token refreshed rotated
  unlive-unrefreshed k st repo now id token c e dead valid own =
      elim (Bool-cases (crypto.is_empty token)) [
        | inl empty ↦ (validation ("refreshToken" ∷ []), rw empty refl)
        | inr full ↦ elim (Bool-cases (is_access c.token_type)) [
          | inl h ↦ (invalid_token "not a refresh token", rw (full, valid, h) refl)
          | inr h ↦ (e, rw (full, valid, h, own, dead) refl)
        ]
      ]

  pub unlive-IsRefused :
      (k : String) (st : AuthState) (repo : UserRepository) (now : ℕ) (id : String) (token : Token)
      (c : TokenClaims) (e : AuthError)
      → live_session now (get k st.sessions) ≡ error e
      → validate_token crypto now token ≡ ok c
      → c.session_id ≡ k
      → IsRefused st (validate_access_token crypto now token st)
        × IsRefused st (refresh_token crypto repo now id token st)
  unlive-IsRefused k st repo now id token c e dead valid own = (
    unlive-unvalidated k st now token c e dead valid own,
    unlive-unrefreshed k st repo now id token c e dead valid own,
  )

  pub gone-IsRefused :
      (k : String) (st : AuthState) (repo : UserRepository) (now : ℕ) (id : String) (token : Token)
      (c : TokenClaims)
      → lookup k st.sessions ≡ none
      → validate_token crypto now token ≡ ok c
      → c.session_id ≡ k
      → IsRefused st (validate_access_token crypto now token st)
        × IsRefused st (refresh_token crypto repo now id token st)
  unfolding live_session get
  gone-IsRefused k st repo now id token c gone =
      unlive-IsRefused k st repo now id token c (invalid_token "session not found") (rw gone refl)

logged_out :
    (id : String) (st : AuthState) → IsKeyed st.sessions → IsGone id (logout id st).sessions
unfolding logout get remove
logged_out id st keyed = elim (Option-cases (lookup id st.sessions)) [
  | inl h ↦ rw (logout, get, h) (keyed, h)
  | inr (s, h) ↦ rw (logout, get, h) (remove-IsKeyed id st.sessions keyed, removed)
]
  where
    removed : lookup id (remove id st.sessions) ≡ none
    removed = ground (arith, lookup-delete id id st.sessions, eq_iff id id)

logged_out_all :
    (user_id k : String) (s : Session) (st : AuthState)
    → IsKeyed st.sessions
    → lookup k st.sessions ≡ some s
    → s.user_id ≡ user_id
    → IsGone k (logout_all user_id st).sessions
unfolding logout_all
logged_out_all user_id k s st keyed h own = (
  remove_user-IsKeyed user_id st.sessions keyed,
  rw (lookup-remove_user user_id k st.sessions keyed.0, h, own)
      (ground (arith, eq_iff user_id user_id)),
)

module _ {Token : Type 0} (crypto : Crypto Token) where
  -- Where a session has been logged out, and after any run of the service in which uuid does not draw
  -- its id again, every token of the session that still parses is refused, both as an access token and
  -- as a refresh token, and the state stays as it is.
  pub logout-IsRefused :
      (k : String) (history : List (Action Token)) (st : AuthState) (repo : UserRepository)
      (now : ℕ) (id : String) (token : Token) (c : TokenClaims)
      → IsKeyed st.sessions
      → Avoids k history
      → validate_token crypto now token ≡ ok c
      → c.session_id ≡ k
      → let after = play crypto history (logout k st) in
        IsRefused after (validate_access_token crypto now token after)
        × IsRefused after (refresh_token crypto repo now id token after)
  logout-IsRefused k history st repo now id token c keyed avoids valid own =
      let gone = play-IsGone crypto k history (logout k st) avoids (logged_out k st keyed) in
      gone-IsRefused crypto k _ repo now id token c gone.1 valid own

  -- The same of every session of a user after `LogoutAll`.
  pub logout_all-IsRefused :
      (user_id k : String) (s : Session) (history : List (Action Token)) (st : AuthState)
      (repo : UserRepository) (now : ℕ) (id : String) (token : Token) (c : TokenClaims)
      → IsKeyed st.sessions
      → lookup k st.sessions ≡ some s
      → s.user_id ≡ user_id
      → Avoids k history
      → validate_token crypto now token ≡ ok c
      → c.session_id ≡ k
      → let after = play crypto history (logout_all user_id st) in
        IsRefused after (validate_access_token crypto now token after)
        × IsRefused after (refresh_token crypto repo now id token after)
  logout_all-IsRefused user_id k s history st repo now id token c keyed h of avoids valid own =
      let gone =
        play-IsGone crypto k history (logout_all user_id st) avoids
          (logged_out_all user_id k s st keyed h of) in
      gone-IsRefused crypto k _ repo now id token c gone.1 valid own
