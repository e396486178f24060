-- ===== src/Smtp/Connection/Limits.antt =====
-- What the life of a connection does to the rate limiter.
use yunt.Prelude.{
  ℕ, ◌+◌, ◌<◌, ◌≡◌, refl, ◌∙◌, String, true, false, none, some, List, arith, str_eq, Bool-cases,
  inl, inr,
}
use yunt.Prelude.Maps.{lookup_count}
use yunt.Smtp.Reply.{
  SmtpError, smtp_error, too_many_concurrent_connections, too_many_global_connections,
}
use yunt.Smtp.Window.{over, current, minute}
use yunt.Smtp.Window.Laws.{lookup-bump}
use yunt.Smtp.RateLimit.{
  RateLimiter, extract_ip, check_connection, on_connection_opened, record_violation,
  record_auth_failure, is_auth_blocked,
}
use yunt.Smtp.RateLimit.Connections.{Represents, open_from, on_connection_closed_uncounted}
use yunt.Smtp.Session.{Env, Session, new_session}
use yunt.Smtp.Connection.{open_session, logout, login, refused}

failure_apart :
    (rl : RateLimiter) (now later : ℕ) (k b : String)
    → str_eq k b ≡ false
    → is_auth_blocked later b (record_auth_failure now k rl) ≡ is_auth_blocked later b rl
unfolding is_auth_blocked record_auth_failure current
failure_apart rl now later k b other = ground (arith, lookup-bump minute now k b rl.auth_failures)

module _ (env : Env) where
  check_full :
      (rl : RateLimiter) (os : List String) (now : ℕ) (a : String)
      → Represents env.host_of rl os
      → rl.config.enabled ≡ true
      → 0 < rl.config.max_concurrent_connections
      → open_from env.host_of (extract_ip env.host_of a) os ≡ rl.config.max_concurrent_connections
      → (e : SmtpError) × (check_connection env.host_of now a rl ≡ (rl, some e))
  unfolding check_connection
  check_full rl os now a v on lim full =
      elim (Bool-cases (over rl.config.max_global_connections rl.global_connections)) [
        | inl h ↦ (smtp_error 421 4 7 0 too_many_global_connections, ground arith)
        | inr h ↦ (
          smtp_error 421 4 7 0 (too_many_concurrent_connections (extract_ip env.host_of a)),
          ground (arith, v.per_address (extract_ip env.host_of a)),
        )
      ]

  record_violation-Represents :
      (rl : RateLimiter) (os : List String) (now : ℕ) (ip : String)
      → Represents env.host_of rl os
      → Represents env.host_of (record_violation now ip rl) os
  unfolding record_violation
  record_violation-Represents rl os now ip v = record {
    per_address = v.per_address;
    in_all = v.in_all;
  }

  -- With the limiter on and the open connections counted, a connection from an address that is at
  -- its limit is turned away and nothing is counted when it opens; closing it takes one away all
  -- the same. So after it the limiter counts one connection less of its address than are open.
  turned_away_undercounts :
      (rl : RateLimiter) (os : List String) (now : ℕ) (a : String)
      → Represents env.host_of rl os
      → rl.config.enabled ≡ true
      → 0 < rl.config.max_concurrent_connections
      → open_from env.host_of (extract_ip env.host_of a) os ≡ rl.config.max_concurrent_connections
      → let (rl', s) = open_session env now a rl in
        (s.rate_limit_exceeded ≡ true)
        × (lookup_count (extract_ip env.host_of a) (logout env s rl').concurrent_connections + 1
            ≡ open_from env.host_of (extract_ip env.host_of a) os)
  unfolding open_session logout
  turned_away_undercounts rl os now a v on lim full =
      let (e, h) = check_full rl os now a v on lim full in
      let w = record_violation-Represents rl os now (extract_ip env.host_of a) v in
      let on' : (record_violation now (extract_ip env.host_of a) rl).config.enabled ≡ true =
        unfold record_violation in on in
      rw (h, open_session)
        (refl, on_connection_closed_uncounted env.host_of _ os a w on' (omega arith))

  pub check-keeps :
      (rl : RateLimiter) (now : ℕ) (a : String)
      → let rl' = (check_connection env.host_of now a rl).0 in
        (rl'.concurrent_connections ≡ rl.concurrent_connections)
        × (rl'.global_connections ≡ rl.global_connections)
        × (rl'.config ≡ rl.config)
  unfolding check_connection
  check-keeps rl now a = ground arith

  pub Represents-same :
      (rl rl' : RateLimiter) (os : List String)
      → rl'.concurrent_connections ≡ rl.concurrent_connections
      → rl'.global_connections ≡ rl.global_connections
      → Represents env.host_of rl os
      → Represents env.host_of rl' os
  Represents-same rl rl' os c g v = record {
    per_address = λ ip. rw c (v.per_address ip);
    in_all = g ∙ v.in_all;
  }

  pub open_session_let_in :
      (rl : RateLimiter) (now : ℕ) (a : String)
      → (check_connection env.host_of now a rl).1 ≡ none
      → open_session env now a rl ≡ (
        on_connection_opened env.host_of a (check_connection env.host_of now a rl).0,
        new_session a,
      )
  unfolding open_session
  open_session_let_in rl now a ok = ground arith

  pub config-opened :
      (rl : RateLimiter) (a : String) → (on_connection_opened env.host_of a rl).config ≡ rl.config
  unfolding on_connection_opened
  config-opened rl a = ground arith

  -- Failed logins are counted under the address with its port: on a connection that is not blocked,
  -- a failure leaves the blocking of every other remote address as it was, those of the same host
  -- among them.
  login_failures_apart :
      (rl : RateLimiter) (s : Session) (now later : ℕ) (username password b : String)
      → is_auth_blocked now s.remote_addr rl ≡ false
      → env.authenticate username password ≡ none
      → str_eq s.remote_addr b ≡ false
      → ((login env now username password (rl, s)).2 ≡ refused)
        × (is_auth_blocked later b (login env now username password (rl, s)).0
            ≡ is_auth_blocked later b rl)
  unfolding login
  login_failures_apart rl s now later username password b free bad other =
      ground (arith, failure_apart rl now later s.remote_addr b)
