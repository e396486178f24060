-- ===== src/Smtp/Connection/Life.antt =====
-- The connections of a server from their opening to their end.
use yunt.Prelude.{ℕ, ◌≡◌, refl, ap, String, Bool, true, none, List, [], ◌∷◌, ◌++◌, arith}
use yunt.Smtp.RateLimit.{
  RateLimiter, cleanup, check_connection, on_connection_closed, record_violation,
  record_auth_failure, on_message_sent, on_user_message_sent,
}
use yunt.Smtp.RateLimit.Connections.{
  Represents, on_connection_opened-Represents, on_connection_closed-Represents,
}
use yunt.Smtp.Session.{Env, Session, new_session}
use yunt.Smtp.Session.Commands.{Command, session_after, session_after-remote_addr}
use yunt.Smtp.Connection.{Body, open_session, logout, login, receive}
use yunt.Smtp.Connection.Limits.{check-keeps, Represents-same, open_session_let_in, config-opened}

-- The remote addresses of the sessions
abbrev pub addresses : List Session → List String
addresses [] = []
addresses (s ∷ ss) = s.remote_addr ∷ addresses ss

addresses-append : (ss ts : List Session) → addresses (ss ++ ts) ≡ addresses ss ++ addresses ts
addresses-append [] ts = refl
addresses-append (s ∷ ss) ts = ap (λ t. s.remote_addr ∷ t) (addresses-append ss ts)

addresses-replace :
    (ss ts : List Session) (s s' : Session)
    → s'.remote_addr ≡ s.remote_addr
    → addresses (ss ++ s' ∷ ts) ≡ addresses (ss ++ s ∷ ts)
addresses-replace [] ts s s' e = ap (λ a. a ∷ addresses ts) e
addresses-replace (t ∷ ss) ts s s' e =
    ap (λ as'. t.remote_addr ∷ as') (addresses-replace ss ts s s' e)

-- The counts of connections and the configuration are the same.
Kept : RateLimiter → RateLimiter → Type 0
Kept rl rl' =
    (rl'.concurrent_connections ≡ rl.concurrent_connections)
    × (rl'.global_connections ≡ rl.global_connections)
    × (rl'.config ≡ rl.config)

module _ (env : Env) where
  -- What may happen to the limiter and the sessions that are open. A connection that the limiter
  -- turns away does not occur.
  pub data Life (start : RateLimiter) : RateLimiter → List Session → Type 0 where
    starts : Life start start []
    opens :
        {rl : RateLimiter} {ss : List Session} (now : ℕ) (a : String)
        → (check_connection env.host_of now a rl).1 ≡ none
        → Life start rl ss
        → Life start (open_session env now a rl).0 ((open_session env now a rl).1 ∷ ss)
    commands :
        {rl : RateLimiter} (ss ts : List Session) (s : Session) (cs : List Command)
        → Life start rl (ss ++ s ∷ ts)
        → Life start rl (ss ++ session_after env s cs ∷ ts)
    logs_in_as :
        {rl : RateLimiter} (ss ts : List Session) (s : Session) (now : ℕ) (user password : String)
        → Life start rl (ss ++ s ∷ ts)
        → Life start
            (login env now user password (rl, s)).0
            (ss ++ (login env now user password (rl, s)).1 ∷ ts)
    receives :
        {rl : RateLimiter} (ss ts : List Session) (s : Session) (relay_enabled : Bool) (now : ℕ)
        (body : Body)
        → Life start rl (ss ++ s ∷ ts)
        → Life start (receive env relay_enabled now body s rl).0 (ss ++ s ∷ ts)
    cleans :
        {rl : RateLimiter} {ss : List Session} (now : ℕ)
        → Life start rl ss
        → Life start (cleanup now rl) ss
    closes :
        {rl : RateLimiter} (ss ts : List Session) (s : Session)
        → Life start rl (ss ++ s ∷ ts)
        → Life start (logout env s rl) (ss ++ ts)

  keeps_login :
      (rl : RateLimiter) (s : Session) (now : ℕ) (user password : String)
      → let (rl', s', reply) = login env now user password (rl, s) in
        Kept rl rl' × (s'.remote_addr ≡ s.remote_addr)
  unfolding Kept login record_auth_failure record_violation
  keeps_login rl s now user password = ground arith

  keeps_receive :
      (rl : RateLimiter) (s : Session) (relay_enabled : Bool) (now : ℕ) (body : Body)
      → Kept rl (receive env relay_enabled now body s rl).0
  unfolding Kept receive record_violation on_message_sent on_user_message_sent
  keeps_receive rl s relay_enabled now body = ground arith

  keeps_cleanup : (rl : RateLimiter) (now : ℕ) → Kept rl (cleanup now rl)
  unfolding Kept cleanup
  keeps_cleanup rl now = (refl, refl, refl)

  -- The limiter is on and counts these connections.
  Counts : RateLimiter → List String → Type 0
  Counts rl os = (rl.config.enabled ≡ true) × Represents env.host_of rl os

  Kept-Counts :
      (rl rl' : RateLimiter) {os os' : List String}
      → Kept rl rl'
      → os' ≡ os
      → Counts rl os
      → Counts rl' os'
  unfolding Kept Counts
  Kept-Counts rl rl' {os} {os'} (c, g, f) e (on, v) =
      (rw f on, rw e (Represents-same env rl rl' os c g v))

  Counts-opened :
      (rl : RateLimiter) (os : List String) (now : ℕ) (a : String)
      → (check_connection env.host_of now a rl).1 ≡ none
      → Counts rl os
      → Counts (open_session env now a rl).0 (a ∷ os)
        × ((open_session env now a rl).1.remote_addr ≡ a)
  unfolding Counts
  Counts-opened rl os now a ok (on, v) =
      let rl1 = (check_connection env.host_of now a rl).0 in
      let (c, g, f) = check-keeps env rl now a in
      let on1 : rl1.config.enabled ≡ true = rw f on in
      rw (open_session_let_in env rl now a ok) (
        (
          rw (config-opened env rl1 a) on1,
          on_connection_opened-Represents env.host_of rl1 os a on1
              (Represents-same env rl rl1 os c g v),
        ),
        unfold new_session in refl,
      )

  Counts-closed :
      (rl : RateLimiter) (os ps : List String) (s : Session)
      → Counts rl (os ++ s.remote_addr ∷ ps)
      → Counts (logout env s rl) (os ++ ps)
  unfolding Counts logout
  Counts-closed rl os ps s (on, v) = (
    unfold on_connection_closed in ground arith,
    on_connection_closed-Represents env.host_of rl os ps s.remote_addr on v,
  )

  Life-Counts :
      {start rl : RateLimiter} {ss : List Session}
      → Counts start []
      → Life start rl ss
      → Counts rl (addresses ss)
  Life-Counts v starts = v
  Life-Counts begun (opens {rl = rl} {ss = ss} now a ok l) =
      let (v, e) = Counts-opened rl (addresses ss) now a ok (Life-Counts begun l) in rw e v
  Life-Counts begun (commands {rl = rl} ss ts s cs l) =
      Kept-Counts rl rl (unfold Kept in (refl, refl, refl))
        (addresses-replace ss ts s _ (session_after-remote_addr env s cs)) (Life-Counts begun l)
  Life-Counts begun (logs_in_as {rl = rl} ss ts s now user password l) =
      let (kept, same) = keeps_login rl s now user password in
      Kept-Counts rl _ kept (addresses-replace ss ts s _ same) (Life-Counts begun l)
  Life-Counts begun (receives {rl = rl} ss ts s relay_enabled now body l) =
      Kept-Counts rl _ (keeps_receive rl s relay_enabled now body) refl (Life-Counts begun l)
  Life-Counts begun (cleans {rl = rl} now l) =
      Kept-Counts rl _ (keeps_cleanup rl now) refl (Life-Counts begun l)
  Life-Counts begun (closes {rl = rl} ss ts s l) = rw (addresses-append ss ts) (
      Counts-closed rl (addresses ss) (addresses ts) s
        (rw (← addresses-append ss (s ∷ ts)) (Life-Counts begun l)))

  -- From a limiter that is on and counts no connection, as long as it turns no connection away:
  -- whatever the clients send, whichever logins fail and messages come, in whatever order the
  -- connections open and close, the limiter counts exactly the connections that are open, of each
  -- address and in all.
  pub Life-Represents :
      {start rl : RateLimiter} {ss : List Session}
      → start.config.enabled ≡ true
      → Represents env.host_of start []
      → Life start rl ss
      → Represents env.host_of rl (addresses ss)
  Life-Represents on v l = unfold Counts in (Life-Counts (on, v) l).1
