-- ===== src/Smtp/RateLimit/Blocking.antt =====
-- The limits on failed logins and on the messages of a user, and what the cleanup leaves alone.
use yunt.Prelude.{
  ℕ, ◌+◌, ◌≤◌, ◌≡◌, refl, String, true, false, ◌&&◌, Option, none, some, List, [], ◌∷◌, arith, leb,
  if◌then◌else◌, str_eq, length,
}
use yunt.Prelude.Maps.{lookup, UniqueKeys}
use yunt.Smtp.Reply.{smtp_error, user_message_rate_exceeded}
use yunt.Smtp.Window.{minute, hour, in_window, over}
use yunt.Smtp.Window.Laws.{bumps, AllBy, current-bumps, current-expire}
use yunt.Smtp.RateLimit.{
  RateLimiter, extract_ip, cleanup, check_connection, check_message, record_auth_failure,
  is_auth_blocked, check_user_message, on_user_message_sent,
}

pub auth_fails : String → RateLimiter → List ℕ → RateLimiter
auth_fails ip rl [] = rl
auth_fails ip rl (t ∷ ts) = auth_fails ip (record_auth_failure t ip rl) ts

auth_fails-bumps :
    (ip : String) (rl : RateLimiter) (ts : List ℕ)
    → ((auth_fails ip rl ts).auth_failures ≡ bumps minute ip ts rl.auth_failures)
      × ((auth_fails ip rl ts).config ≡ rl.config)
unfolding auth_fails bumps record_auth_failure
auth_fails-bumps ip rl [] = (refl, refl)
auth_fails-bumps ip rl (t ∷ ts) = auth_fails-bumps ip (record_auth_failure t ip rl) ts

-- After a number of failures under one key within the minute that the first one opens, the key is
-- blocked exactly if they reach the limit and the minute is not over.
is_auth_blocked-auth_fails :
    (ip : String) (rl : RateLimiter) (now t : ℕ) (ts : List ℕ)
    → in_window t (lookup ip rl.auth_failures) ≡ none
    → AllBy (t + minute) ts
    → is_auth_blocked now ip (auth_fails ip rl (t ∷ ts))
      ≡ over rl.config.auth_failures_per_minute (length (t ∷ ts)) && leb now (t + minute)
unfolding is_auth_blocked
is_auth_blocked-auth_fails ip rl now t ts h b =
    ground (
      arith,
      auth_fails-bumps ip rl (t ∷ ts),
      current-bumps minute now t ip ts rl.auth_failures h b,
    )

pub user_sends : String → RateLimiter → List ℕ → RateLimiter
user_sends u rl [] = rl
user_sends u rl (t ∷ ts) = user_sends u (on_user_message_sent t u rl) ts

user_sends-bumps :
    (u : String) (rl : RateLimiter) (ts : List ℕ)
    → rl.config.enabled ≡ true
    → str_eq u "" ≡ false
    → ((user_sends u rl ts).user_message_count ≡ bumps hour u ts rl.user_message_count)
      × ((user_sends u rl ts).config ≡ rl.config)
unfolding user_sends bumps on_user_message_sent
user_sends-bumps u rl [] on named = (refl, refl)
user_sends-bumps u rl (t ∷ ts) on named =
    ground (arith, user_sends-bumps u (on_user_message_sent t u rl) ts)

-- With the limiter on: after a number of messages of a named user within the hour that the first
-- one opens, the next one is refused exactly if they reach the user's limit and the hour is not
-- over.
check_user_message-user_sends :
    (u : String) (rl : RateLimiter) (now t : ℕ) (ts : List ℕ)
    → rl.config.enabled ≡ true
    → str_eq u "" ≡ false
    → in_window t (lookup u rl.user_message_count) ≡ none
    → AllBy (t + hour) ts
    → check_user_message now u (user_sends u rl (t ∷ ts)) ≡ (
        if over rl.config.user_messages_per_hour (length (t ∷ ts)) && leb now (t + hour)
        then some (smtp_error 452 4 7 1 user_message_rate_exceeded)
        else none)
unfolding check_user_message
check_user_message-user_sends u rl now t ts on named h b = ground (
  arith,
  user_sends-bumps u rl (t ∷ ts) on named,
  current-bumps hour now t u ts rl.user_message_count h b,
)

-- On maps with each key once, the cleanup changes no answer of the checks of connections and of
-- messages from then on.
cleanup-checks :
    (host_of : String → Option String) (rl : RateLimiter) (now later : ℕ) (a : String)
    → UniqueKeys rl.connection_rate
    → UniqueKeys rl.message_count
    → now ≤ later
    → ((check_connection host_of later a (cleanup now rl)).1
        ≡ (check_connection host_of later a rl).1)
      × (check_message host_of later a (cleanup now rl) ≡ check_message host_of later a rl)
unfolding cleanup check_connection check_message
cleanup-checks host_of rl now later a uc um h = ground (
  arith,
  current-expire now later (extract_ip host_of a) rl.connection_rate uc h,
  current-expire now later (extract_ip host_of a) rl.message_count um h,
)
