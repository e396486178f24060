-- ===== src/Service/Auth/Gone.antt =====
-- A session that is not stored stays so under every operation that does not draw its id again.
use yunt.Prelude.{
  ℕ, String, Bool, not, Option, none, some, List, [], ◌∷◌, ◌≡◌, ◌≢◌, inl, inr, refl, sym, ◌∙◌,
  arith, if◌then◌else◌, str_eq, eq_iff, Option-cases, if_either,
}
use yunt.Prelude.Maps.{lookup, insert, lookup-insert, lookup-delete}
use yunt.Domain.User.{User, is_active}
use yunt.Domain.Token.{
  Session, revoked, touched, TokenPair, AuthResponse, Result, ok, error, missing_fields,
}
use yunt.Api.Rbac.{TokenClaims}
use yunt.Service.Sessions.{Store, IsKeyed, get, create, update, remove, remove_user, touch}
use yunt.Service.Sessions.Keyed.{create-IsKeyed, update-IsKeyed, remove-IsKeyed, touch-IsKeyed}
use yunt.Service.Sessions.Users.{lookup-remove_user, remove_user-IsKeyed}
use yunt.Service.Auth.{
  Crypto, Fetched, found, missing, broken, UserRepository, AuthState, is_access, logout, logout_all,
  paired, generate_token_pair, validate_token,
}
use yunt.Service.Auth.Login.{
  opened, noted, logged_in, attempted, login, renewed, rotated, refreshed, refresh_token, admitted,
  checked, validate_access_token,
}

abbrev pub IsGone : String → Store → Type 0
IsGone k store = IsKeyed store × (lookup k store ≡ none)

pub create-IsGone :
    (k : String) (s : Session) (store : Store)
    → s.id ≢ k
    → IsGone k store
    → IsGone k (create s store)
unfolding create
create-IsGone k s store d (keyed, h) =
    (create-IsKeyed s store keyed, ground (arith, lookup-insert s.id k s store, eq_iff s.id k))

pub remove-IsGone : (k id : String) (store : Store) → IsGone k store → IsGone k (remove id store)
unfolding remove
remove-IsGone k id store (keyed, h) =
    (remove-IsKeyed id store keyed, ground (arith, lookup-delete id k store))

update-IsGone :
    (k : String) (s : Session) (store : Store) → IsGone k store → IsGone k (update s store).0
unfolding update
update-IsGone k s store (keyed, h) =
    (update-IsKeyed s store keyed, ground (arith, lookup-insert s.id k s store, eq_iff s.id k))

touch-IsGone :
    (k : String) (now : ℕ) (id : String) (store : Store)
    → IsGone k store
    → IsGone k (touch now id store).0
unfolding touch
touch-IsGone k now id store (keyed, h) = elim (Option-cases (lookup id store)) [
  | inl missed ↦ rw (touch, missed) (keyed, h)
  | inr (s, hit) ↦
      let written = insert-missed hit in (touch-IsKeyed now id store keyed, rw (touch, hit) written)
]
  where
    insert-missed :
        {s : Session} → lookup id store ≡ some s → lookup k (insert id (touched now s) store) ≡ none
    insert-missed {s} hit =
        ground (arith, lookup-insert id k (touched now s) store, eq_iff id k, hit, h)

remove_user-IsGone :
    (k user_id : String) (store : Store) → IsGone k store → IsGone k (remove_user user_id store)
remove_user-IsGone k user_id store (keyed, h) = (
  remove_user-IsKeyed user_id store keyed,
  rw (lookup-remove_user user_id k store keyed.0, h) refl,
)

either :
    {A : Type 0} (k : String) (b : Bool) (x y : AuthState × A)
    → IsGone k x.0.sessions
    → IsGone k y.0.sessions
    → IsGone k (if b then x else y).0.sessions
either k b x y = if_either (λ r. IsGone k r.0.sessions) b x y

pub logout-IsGone :
    (k id : String) (st : AuthState) → IsGone k st.sessions → IsGone k (logout id st).sessions
unfolding logout
logout-IsGone k id st g = elim (Option-cases (get id st.sessions)) [
  | inl h ↦ rw (logout, h) g
  | inr (s, h) ↦ rw (logout, h) (remove-IsGone k id st.sessions g)
]

pub logout_all-IsGone :
    (k user_id : String) (st : AuthState)
    → IsGone k st.sessions
    → IsGone k (logout_all user_id st).sessions
unfolding logout_all
logout_all-IsGone k user_id st g = remove_user-IsGone k user_id st.sessions g

module _ {Token : Type 0} (crypto : Crypto Token) where
  -- The id of the session that was made.
  abbrev pub HasId : String → Option (TokenPair Token × Session) → Type 0
  HasId id none = Unit
  HasId id (some (pair, s)) = s.id ≡ id

  pub generate_token_pair-HasId :
      (now : ℕ) (id : String) (u : User) → HasId id (generate_token_pair crypto now id u)
  unfolding generate_token_pair paired
  generate_token_pair-HasId now id u = made _ _
    where
      made : (a r : Option Token) → HasId id (paired crypto now id u a r)
      made none r = tt
      made (some a) none = tt
      made (some a) (some r) = refl

  opened-IsGone :
      (k agent address id : String) (u : User) (o : Option (TokenPair Token × Session))
      (st : AuthState)
      → id ≢ k
      → HasId id o
      → IsGone k st.sessions
      → IsGone k (opened crypto agent address u o st).0.sessions
  unfolding opened
  opened-IsGone k agent address id u none st d h g = g
  opened-IsGone k agent address id u (some (pair, s)) st d h g =
      create-IsGone k _ st.sessions (λ e. d (sym h ∙ e)) g

  noted-IsGone :
      (k id : String) (r : AuthState × Result (AuthResponse Token))
      → IsGone k r.0.sessions
      → IsGone k (noted crypto id r).0.sessions
  unfolding noted
  noted-IsGone k id (st, error e) g = g
  noted-IsGone k id (st, ok r) g = g

  logged_in-IsGone :
      (k : String) (now : ℕ) (id password agent address : String) (f : Fetched) (st : AuthState)
      → id ≢ k
      → IsGone k st.sessions
      → IsGone k (logged_in crypto now id password agent address f st).0.sessions
  unfolding logged_in
  logged_in-IsGone k now id password agent address missing st d g = g
  logged_in-IsGone k now id password agent address broken st d g = g
  logged_in-IsGone k now id password agent address (found u) st d g =
      either k (not (is_active u)) _ _ g (
        either k (not (crypto.compare_hash u.password_hash password)) _ _ g (
          noted-IsGone k u.id _
            (opened-IsGone k agent address id u _ st d (generate_token_pair-HasId now id u) g)))

  pub login-IsGone :
      (repo : UserRepository) (k : String) (now : ℕ) (id username password agent address : String)
      (st : AuthState)
      → id ≢ k
      → IsGone k st.sessions
      → IsGone k (login crypto repo now id username password agent address st).0.sessions
  unfolding login attempted
  login-IsGone repo k now id username password agent address st d g =
      from (missing_fields username password)
    where
      from :
          (fields : List String)
          → IsGone k
              (attempted crypto repo now id username password agent address fields st).0.sessions
      from [] =
          logged_in-IsGone k now id password agent address (repo.get_by_username username) st d g
      from (field ∷ fields) = g

  renewed-IsGone :
      (k : String) (now : ℕ) (id : String) (s : Session) (f : Fetched) (st : AuthState)
      → id ≢ k
      → IsGone k st.sessions
      → IsGone k (renewed crypto now id s f st).0.sessions
  unfolding renewed
  renewed-IsGone k now id s missing st d g = g
  renewed-IsGone k now id s broken st d g = g
  renewed-IsGone k now id s (found u) st d g = either k (not (is_active u)) _ _ g (
      opened-IsGone k s.user_agent s.ip_address id u _ _ d (generate_token_pair-HasId now id u)
        (remove-IsGone k s.id st.sessions g))

  rotated-IsGone :
      (repo : UserRepository) (k : String) (now : ℕ) (id : String) (token : Token)
      (found_session : Result Session) (st : AuthState)
      → id ≢ k
      → IsGone k st.sessions
      → IsGone k (rotated crypto repo now id token found_session st).0.sessions
  unfolding rotated
  rotated-IsGone repo k now id token (error e) st d g = g
  rotated-IsGone repo k now id token (ok s) st d g =
      either k (not (str_eq s.refresh_token_hash (crypto.hash_token token))) _ _
        (update-IsGone k (revoked s) st.sessions g)
        (renewed-IsGone k now id s (repo.get_by_id s.user_id) st d g)

  pub refresh_token-IsGone :
      (repo : UserRepository) (k : String) (now : ℕ) (id : String) (token : Token) (st : AuthState)
      → id ≢ k
      → IsGone k st.sessions
      → IsGone k (refresh_token crypto repo now id token st).0.sessions
  unfolding refresh_token refreshed
  refresh_token-IsGone repo k now id token st d g =
      either k (crypto.is_empty token) _ _ g (from (validate_token crypto now token))
    where
      from :
          (c : Result TokenClaims) → IsGone k (refreshed crypto repo now id token c st).0.sessions
      from (error e) = g
      from (ok c) =
          either k (is_access c.token_type) _ _ g (rotated-IsGone repo k now id token _ st d g)

  pub validate_access_token-IsGone :
      (k : String) (now : ℕ) (token : Token) (st : AuthState)
      → IsGone k st.sessions
      → IsGone k (validate_access_token crypto now token st).0.sessions
  unfolding validate_access_token admitted checked
  validate_access_token-IsGone k now token st g = from (validate_token crypto now token)
    where
      admits :
          (c : TokenClaims) (found_session : Result Session)
          → IsGone k (admitted crypto now c found_session st).0.sessions
      admits c (error e) = g
      admits c (ok s) = touch-IsGone k now c.session_id st.sessions g

      from : (c : Result TokenClaims) → IsGone k (checked crypto now c st).0.sessions
      from (error e) = g
      from (ok c) = either k (not (is_access c.token_type)) _ _ g (admits c _)
