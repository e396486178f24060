-- ===== src/Service/Auth/Rotation.antt =====
-- A refresh token is good for one renewal, and one that is presented too late closes its session.
use mathlib.Core.Path.{subst}
use yunt.Prelude.{
  ℕ, String, true, false, not, Option, none, some, List, ◌≡◌, ◌≢◌, inl, inr, refl, sym, ◌∙◌, arith,
  str_eq, eq_iff, Option-cases, if_either,
}
use yunt.Prelude.Maps.{lookup, lookup-delete, lookup-insert}
use yunt.Domain.User.{User, is_active}
use yunt.Domain.Token.{
  Session, session_valid, revoked, TokenPair, AuthResponse, Result, ok, error, invalid_token,
  session_revoked,
}
use yunt.Api.Rbac.{TokenClaims}
use yunt.Service.Sessions.{Store, IsKeyed, get, remove, update}
use yunt.Service.Sessions.Keyed.{remove-IsKeyed, found_id}
use yunt.Service.Auth.{
  Crypto, Fetched, found, missing, broken, UserRepository, AuthState, is_access, live_session,
  validate_token,
}
use yunt.Service.Auth.Login.{
  opened, renewed, rotated, refreshed, refresh_token, validate_access_token,
}
use yunt.Service.Auth.Gone.{IsGone, HasId, generate_token_pair-HasId, create-IsGone}
use yunt.Service.Auth.History.{
  Action, Avoids, IsRefused, play, play-IsGone, gone-IsRefused, unlive-IsRefused,
}

-- Where tokens were handed out, the session is no longer stored.
abbrev Replaced : {A : Type 0} → String → AuthState × Result A → Type 0
Replaced k (st, error e) = Unit
Replaced k (st, ok r) = IsGone k st.sessions

-- The session that was found, under its id.
abbrev StandsAt : String → Result Session → Type 0
StandsAt k (error e) = Unit
StandsAt k (ok s) = s.id ≡ k

live_session-StandsAt :
    (now : ℕ) (k : String) (store : Store)
    → IsKeyed store
    → StandsAt k (live_session now (get k store))
unfolding live_session get
live_session-StandsAt now k store keyed = elim (Option-cases (lookup k store)) [
  | inl h ↦ rw h tt
  | inr (s, h) ↦ rw h (
      if_either (StandsAt k) (session_valid now s) _ _ (found_id k s store keyed h)
        (if_either (StandsAt k) s.is_revoked _ _ tt tt))
]

remove_own : (k : String) (store : Store) → IsKeyed store → IsGone k (remove k store)
unfolding remove
remove_own k store keyed =
    (remove-IsKeyed k store keyed, ground (arith, lookup-delete k k store, eq_iff k k))

-- A stored session is found as it was written.
update-found :
    (k : String) (new : Session) {old : Session} (store : Store)
    → new.id ≡ k
    → lookup k store ≡ some old
    → lookup k (update new store).0 ≡ some new
unfolding update
update-found k new store own h =
    rw (update, own, h) (ground (arith, lookup-insert k k new store, eq_iff k k))

module _ {Token : Type 0} (crypto : Crypto Token) where
  opened-Replaced :
      (k agent address id : String) (u : User) (o : Option (TokenPair Token × Session))
      (st : AuthState)
      → id ≢ k
      → HasId crypto id o
      → IsGone k st.sessions
      → Replaced k (opened crypto agent address u o st)
  unfolding opened
  opened-Replaced k agent address id u none st d h g = tt
  opened-Replaced k agent address id u (some (pair, s)) st d h g =
      create-IsGone k _ st.sessions (λ e. d (sym h ∙ e)) g

  renewed-Replaced :
      (now : ℕ) (id : String) (s : Session) (f : Fetched) (st : AuthState)
      → IsKeyed st.sessions
      → id ≢ s.id
      → Replaced s.id (renewed crypto now id s f st)
  unfolding renewed
  renewed-Replaced now id s missing st keyed d = tt
  renewed-Replaced now id s broken st keyed d = tt
  renewed-Replaced now id s (found u) st keyed d =
      if_either (Replaced s.id) (not (is_active u)) _ _ tt (
        opened-Replaced s.id s.user_agent s.ip_address id u _ _ d
          (generate_token_pair-HasId crypto now id u) (remove_own s.id st.sessions keyed))

  rotated-Replaced :
      (repo : UserRepository) (k : String) (now : ℕ) (id : String) (token : Token)
      (r : Result Session) (st : AuthState)
      → IsKeyed st.sessions
      → StandsAt k r
      → id ≢ k
      → Replaced k (rotated crypto repo now id token r st)
  unfolding rotated
  rotated-Replaced repo k now id token (error e) st keyed own d = tt
  rotated-Replaced repo k now id token (ok s) st keyed own d =
      if_either (Replaced k) (not (str_eq s.refresh_token_hash (crypto.hash_token token))) _ _ tt (
        subst (λ j. Replaced j (renewed crypto now id s (repo.get_by_id s.user_id) st)) own
          (renewed-Replaced now id s (repo.get_by_id s.user_id) st keyed (λ e. d (e ∙ own))))

  refresh_token-Replaced :
      (repo : UserRepository) (now : ℕ) (id : String) (token : Token) (c : TokenClaims)
      (st : AuthState)
      → IsKeyed st.sessions
      → validate_token crypto now token ≡ ok c
      → id ≢ c.session_id
      → Replaced c.session_id (refresh_token crypto repo now id token st)
  unfolding refresh_token refreshed
  refresh_token-Replaced repo now id token c st keyed valid d =
      if_either (Replaced c.session_id) (crypto.is_empty token) _ _ tt (
        rw valid (
          if_either (Replaced c.session_id) (is_access c.token_type) _ _ tt (
            rotated-Replaced repo c.session_id now id token _ st keyed
              (live_session-StandsAt now c.session_id st.sessions keyed) d)))

  -- Where a refresh token was renewed under a new id, and after any run of the service in which uuid
  -- does not draw the old session's id again, every token of the old session that still parses, the
  -- renewed one among them, is refused, both as an access token and as a refresh token.
  pub refresh_token-IsRefused :
      (repo repo' : UserRepository) (now now' : ℕ) (id id' : String) (token token' : Token)
      (c c' : TokenClaims) (history : List (Action Token)) (st st' : AuthState)
      (response : AuthResponse Token)
      → IsKeyed st.sessions
      → validate_token crypto now token ≡ ok c
      → id ≢ c.session_id
      → refresh_token crypto repo now id token st ≡ (st', ok response)
      → Avoids c.session_id history
      → validate_token crypto now' token' ≡ ok c'
      → c'.session_id ≡ c.session_id
      → let after = play crypto history st' in
        IsRefused after (validate_access_token crypto now' token' after)
        × IsRefused after (refresh_token crypto repo' now' id' token' after)
  refresh_token-IsRefused repo repo' now now' id id' token token' c c' history st st' response keyed
        valid d done avoids valid' own =
      let gone = play-IsGone crypto c.session_id history st' avoids (
        subst (λ r. Replaced c.session_id r) done
          (refresh_token-Replaced repo now id token c st keyed valid d)) in
      gone-IsRefused crypto c.session_id _ repo' now' id' token' c' gone.1 valid' own

  revoked-IsRefused :
      (k : String) (s : Session) (st : AuthState) (repo : UserRepository) (now : ℕ) (id : String)
      (token : Token) (c : TokenClaims)
      → lookup k st.sessions ≡ some (revoked s)
      → validate_token crypto now token ≡ ok c
      → c.session_id ≡ k
      → IsRefused st (validate_access_token crypto now token st)
        × IsRefused st (refresh_token crypto repo now id token st)
  unfolding live_session get
  revoked-IsRefused k s st repo now id token c h =
      unlive-IsRefused crypto k st repo now id token c (session_revoked s.id) (rw h refl)

  mismatched :
      (repo : UserRepository) (now : ℕ) (id : String) (token : Token) (c : TokenClaims)
      (s : Session) (st : AuthState)
      → crypto.is_empty token ≡ false
      → validate_token crypto now token ≡ ok c
      → is_access c.token_type ≡ false
      → lookup c.session_id st.sessions ≡ some s
      → session_valid now s ≡ true
      → str_eq s.refresh_token_hash (crypto.hash_token token) ≡ false
      → refresh_token crypto repo now id token st ≡ (
        record st { sessions = (update (revoked s) st.sessions).0 },
        error (invalid_token "token mismatch"),
      )
  unfolding refresh_token refreshed rotated live_session get
  mismatched repo now id token c s st full valid kind h live other =
      rw (full, valid, kind, h, live, other) refl

  -- A token of another pair than the session's last is presented: the session is revoked, the answer
  -- is an error, and in the state that is left every token of the session that parses is refused, at any time.
  pub reused-revokes :
      (repo repo' : UserRepository) (now now' : ℕ) (id id' : String) (token token' : Token)
      (c c' : TokenClaims) (s : Session) (st : AuthState)
      → IsKeyed st.sessions
      → crypto.is_empty token ≡ false
      → validate_token crypto now token ≡ ok c
      → is_access c.token_type ≡ false
      → lookup c.session_id st.sessions ≡ some s
      → session_valid now s ≡ true
      → str_eq s.refresh_token_hash (crypto.hash_token token) ≡ false
      → validate_token crypto now' token' ≡ ok c'
      → c'.session_id ≡ c.session_id
      → (after : AuthState) × (refresh_token crypto repo now id token st
          ≡ (after, error (invalid_token "token mismatch")))
        × IsRefused after (validate_access_token crypto now' token' after)
        × IsRefused after (refresh_token crypto repo' now' id' token' after)
  reused-revokes repo repo' now now' id id' token token' c c' s st keyed full valid kind h live
        other valid' own =
      let after : AuthState = record st { sessions = (update (revoked s) st.sessions).0 } in
      let refused =
        revoked-IsRefused c.session_id s after repo' now' id' token' c'
          (update-found c.session_id (revoked s) st.sessions
            (found_id c.session_id s st.sessions keyed h) h)
          valid' own in
      (
        after,
        mismatched repo now id token c s st full valid kind h live other,
        refused.0,
        refused.1,
      )
