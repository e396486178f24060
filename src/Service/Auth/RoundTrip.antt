-- ===== src/Service/Auth/RoundTrip.antt =====
-- A login with the right password hands out tokens, and the access token opens the service.
use mathlib.Core.Path.{subst}
use yunt.Prelude.{
  ℕ, ◌+◌, ◌≤◌, ◌<◌, String, true, false, some, ◌∷◌, ◌≡◌, ◌↔◌, refl, arith, ltb, str_eq, eq_iff,
  Bool-cases, inl, inr, ◌⊎◌, sym,
}
use yunt.Prelude.Maps.{lookup-insert}
use yunt.Domain.User.{User, is_active}
use yunt.Domain.Token.{
  Session, fresh_session, fresh_pair, AuthResponse, user_info, Result, ok, error,
}
use yunt.Api.Rbac.{access, refresh}
use yunt.Service.Sessions.{Store, get, create, touch}
use yunt.Service.Auth.{
  JwtClaims, parsed, Crypto, Fetched, found, missing, broken, UserRepository, AuthState,
  live_session, claims_of, jwt_claims, paired, read_claims, generate_token_pair, validate_token,
}
use yunt.Service.Auth.Login.{
  opened, noted, logged_in, attempted, login, checked, admitted, validate_access_token,
}

get-create : (s : Session) (store : Store) → get s.id (create s store) ≡ some s
unfolding get create
get-create s store = ground (arith, lookup-insert s.id s.id s store, eq_iff s.id s.id)

live_session-ok :
    (now : ℕ) (s : Session)
    → s.is_revoked ≡ false
    → now ≤ s.expires_at
    → live_session now (some s) ≡ ok s
unfolding live_session
live_session-ok now s kept h =
    let late : ltb s.expires_at now ≡ false = ground arith in rw (kept, late) refl

module _ {Token : Type 0} (crypto : Crypto Token) where
  -- What a login leaves behind.
  abbrev stored : ℕ → String → String → String → User → Token → Session
  stored now id agent address u r =
      record (fresh_session now id u.id (crypto.hash_token r) (now + crypto.refresh_expiration)) {
        user_agent = agent;
        ip_address = address;
      }

  abbrev entered : ℕ → String → String → String → User → Token → AuthState → AuthState
  entered now id agent address u r st = record {
    sessions = create (stored now id agent address u r) st.sessions;
    last_logins = u.id ∷ st.last_logins;
  }

  abbrev answer : ℕ → User → Token → Token → AuthResponse Token
  answer now u a r = record {
    user = user_info u;
    tokens = fresh_pair a r (now + crypto.jwt_expiration) (now + crypto.refresh_expiration);
  }

  login-entered :
      (repo : UserRepository) (now : ℕ) (id username password agent address : String) (u : User)
      (a r : Token) (st : AuthState)
      → str_eq username "" ≡ false
      → str_eq password "" ≡ false
      → repo.get_by_username username ≡ found u
      → is_active u ≡ true
      → crypto.compare_hash u.password_hash password ≡ true
      → crypto.sign (jwt_claims crypto now (now + crypto.jwt_expiration) u id access) ≡ some a
      → crypto.sign (jwt_claims crypto now (now + crypto.refresh_expiration) u id refresh) ≡ some r
      → login crypto repo now id username password agent address st
        ≡ (entered now id agent address u r st, ok (answer now u a r))
  unfolding login attempted logged_in noted opened generate_token_pair paired
  login-entered repo now id username password agent address u a r st hu hp hf active right ha hr =
      rw (hu, hp, hf, active, right, ha, hr) refl

  validate-entered :
      (later : ℕ) (token : Token) (c : JwtClaims) (s : Session) (st : AuthState)
      → crypto.parse later token ≡ parsed c true
      → c.claims.token_type ≡ access
      → get c.claims.session_id st.sessions ≡ some s
      → s.is_revoked ≡ false
      → later ≤ s.expires_at
      → validate_access_token crypto later token st
        ≡ (record st { sessions = (touch later c.claims.session_id st.sessions).0 }, ok c.claims)
  unfolding validate_access_token validate_token read_claims checked admitted
  validate-entered later token c s st hp kind h kept time =
      rw (hp, kind, h, live_session-ok later s kept time) refl

  -- A user who is active logs in with the right password: tokens are handed out with the user's data,
  -- and until the access token expires it is accepted with the claims of this user and this session.
  -- jwt's signatures succeed, a signed token is parsed back within its times, the numeric date of a
  -- time is not after it, and the access token is not set to outlive the session.
  pub login-validate_access_token :
      (repo : UserRepository) (now later : ℕ) (id username password agent address : String)
      (u : User) (st : AuthState)
      → ((c : JwtClaims) → (t : Token) × (crypto.sign c ≡ some t))
      → ((c : JwtClaims) (t : Token) (time : ℕ)
          → crypto.sign c ≡ some t
          → c.registered.not_before ≤ time
          → time < c.registered.expires_at
          → crypto.parse time t ≡ parsed c true)
      → ((time : ℕ) → crypto.numeric_date time ≤ time)
      → crypto.jwt_expiration ≤ crypto.refresh_expiration
      → str_eq username "" ≡ false
      → str_eq password "" ≡ false
      → repo.get_by_username username ≡ found u
      → is_active u ≡ true
      → crypto.compare_hash u.password_hash password ≡ true
      → now ≤ later
      → later < crypto.numeric_date (now + crypto.jwt_expiration)
      → (after kept : AuthState) × (response : AuthResponse Token) × (login crypto repo now id
            username password agent address st
          ≡ (after, ok response))
        × (response.user ≡ user_info u)
        × (validate_access_token crypto later response.tokens.access_token after
            ≡ (kept, ok (claims_of crypto u id access)))
  login-validate_access_token repo now later id username password agent address u st signs reads
        dated longer hu hp hf active right hl ht =
      let a = signs (jwt_claims crypto now (now + crypto.jwt_expiration) u id access) in
      let r = signs (jwt_claims crypto now (now + crypto.refresh_expiration) u id refresh) in
      let after = entered now id agent address u r.0 st in
      (
        after,
        record after { sessions = (touch later id after.sessions).0 },
        answer now u a.0 r.0,
        login-entered repo now id username password agent address u a.0 r.0 st hu hp hf active right
            a.1 r.1,
        refl,
        validate-entered later a.0 (jwt_claims crypto now (now + crypto.jwt_expiration) u id access)
            (stored now id agent address u r.0) after
            (reads _ a.0 later a.1 (omega (arith, dated now)) ht) refl
            (get-create (stored now id agent address u r.0) st.sessions) refl
            (omega (arith, dated (now + crypto.jwt_expiration))),
      )

  -- Who may log in: an active user whose password it is, where neither input is empty.
  abbrev pub MayLogIn : UserRepository → String → String → Type 0
  MayLogIn repo username password =
      (u : User) × (str_eq username "" ≡ false)
      × (str_eq password "" ≡ false)
      × (repo.get_by_username username ≡ found u)
      × (is_active u ≡ true)
      × (crypto.compare_hash u.password_hash password ≡ true)

  -- Where tokens are handed out, `C` holds.
  abbrev OnlyIf : {A : Type 0} → Type 0 → AuthState × Result A → Type 0
  OnlyIf C (st, error e) = Unit
  OnlyIf C (st, ok r) = C

  OnlyIf-intro : {A : Type 0} (C : Type 0) (r : AuthState × Result A) → C → OnlyIf C r
  OnlyIf-intro C (st, error e) h = tt
  OnlyIf-intro C (st, ok r) h = h

  logged_in-OnlyIf :
      (repo : UserRepository) (now : ℕ) (id username password agent address : String) (f : Fetched)
      (st : AuthState)
      → str_eq username "" ≡ false
      → str_eq password "" ≡ false
      → repo.get_by_username username ≡ f
      → OnlyIf
          (MayLogIn repo username password)
          (logged_in crypto now id password agent address f st)
  unfolding logged_in
  logged_in-OnlyIf repo now id username password agent address missing st hu hp hf = tt
  logged_in-OnlyIf repo now id username password agent address broken st hu hp hf = tt
  logged_in-OnlyIf repo now id username password agent address (found u) st hu hp hf =
      elim (Bool-cases (is_active u)) [
        | inr idle ↦ rw idle tt
        | inl active ↦ elim (Bool-cases (crypto.compare_hash u.password_hash password)) [
          | inr wrong ↦ rw (active, wrong) tt
          | inl right ↦
              rw (active, right)
                (OnlyIf-intro (MayLogIn repo username password)
                  (noted crypto u.id
                    (opened crypto agent address u (generate_token_pair crypto now id u) st))
                  (u, hu, hp, hf, active, right))
        ]
      ]

  login-filled :
      (repo : UserRepository) (now : ℕ) (id username password agent address : String)
      (st : AuthState)
      → str_eq username "" ≡ false
      → str_eq password "" ≡ false
      → login crypto repo now id username password agent address st
        ≡ logged_in crypto now id password agent address (repo.get_by_username username) st
  unfolding login attempted
  login-filled repo now id username password agent address st hu hp = rw (hu, hp) refl

  login-empty :
      (C : Type 0) (repo : UserRepository) (now : ℕ) (id username password agent address : String)
      (st : AuthState)
      → (str_eq username "" ≡ true) ⊎ (str_eq password "" ≡ true)
      → OnlyIf C (login crypto repo now id username password agent address st)
  unfolding login attempted
  login-empty C repo now id username password agent address st (inl h) = rw h tt
  login-empty C repo now id username password agent address st (inr h) =
      elim (Bool-cases (str_eq username "")) [ inl hu ↦ rw hu tt | inr hu ↦ rw (hu, h) tt ]

  login-OnlyIf :
      (repo : UserRepository) (now : ℕ) (id username password agent address : String)
      (st : AuthState)
      → OnlyIf
          (MayLogIn repo username password)
          (login crypto repo now id username password agent address st)
  login-OnlyIf repo now id username password agent address st =
      let C = MayLogIn repo username password in
      elim (Bool-cases (str_eq username "")) [
        | inl h ↦ login-empty C repo now id username password agent address st (inl h)
        | inr hu ↦ elim (Bool-cases (str_eq password "")) [
          | inl h ↦ login-empty C repo now id username password agent address st (inr h)
          | inr hp ↦
              subst (λ r. OnlyIf C r)
                (sym (login-filled repo now id username password agent address st hu hp))
                (logged_in-OnlyIf repo now id username password agent address
                  (repo.get_by_username username) st hu hp refl)
        ]
      ]

  -- Where jwt's signatures succeed, a login hands out tokens exactly if neither input is empty, the
  -- name is an active user's, and the password is that user's.
  pub login_iff :
      (repo : UserRepository) (now : ℕ) (id username password agent address : String)
      (st : AuthState)
      → ((c : JwtClaims) → (t : Token) × (crypto.sign c ≡ some t))
      → ((after : AuthState) × (response : AuthResponse Token) × (login crypto repo now id username
              password agent address st
            ≡ (after, ok response)))
        ↔ MayLogIn repo username password
  login_iff repo now id username password agent address st signs = (
    λ (after, response, e).
        subst (λ r. OnlyIf (MayLogIn repo username password) r) e
          (login-OnlyIf repo now id username password agent address st),
    λ (u, hu, hp, hf, active, right).
        let a = signs (jwt_claims crypto now (now + crypto.jwt_expiration) u id access) in
        let r = signs (jwt_claims crypto now (now + crypto.refresh_expiration) u id refresh) in
        (
          entered now id agent address u r.0 st,
          answer now u a.0 r.0,
          login-entered repo now id username password agent address u a.0 r.0 st hu hp hf active
              right a.1 r.1,
        ),
  )
