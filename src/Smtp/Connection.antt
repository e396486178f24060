-- ===== src/Smtp/Connection.antt =====
-- A connection from NewSession to Logout (internal/smtp/backend.go and internal/smtp/session.go):
-- what it does to the server's rate limiter, if there is one, the login, and the message data.
pub mod Receipt
pub mod Limits
pub mod Life
use yunt.Prelude.{
  ℕ, zero, suc, ◌+◌, String, Bool, true, false, not, ◌&&◌, ◌||◌, Option, none, some, List, [], ◌∷◌,
  ◌++◌, ltb, leb, ◌==◌, if◌then◌else◌, str_eq, length, map,
}
use yunt.Smtp.Reply.{
  SmtpError, smtp_error, too_many_auth_failures, message_too_large, need_mail_command,
  no_valid_recipients, read_error,
}
use yunt.Smtp.Address.{Text}
use yunt.Smtp.RateLimit.{
  RateLimiter, extract_ip, check_connection, on_connection_opened, on_connection_closed,
  check_message, on_message_sent, check_user_message, on_user_message_sent, record_auth_failure,
  is_auth_blocked, record_violation,
}
use yunt.Smtp.Session.{Env, RecipientInfo, Session, new_session}

-- The state of `applyBackoff`; how long it sleeps is `RateLimit.apply_backoff`.
abbrev pub backed_off : (String → Option String) → ℕ → String → RateLimiter → RateLimiter
backed_off host_of now remote_addr rl = record_violation now (extract_ip host_of remote_addr) rl

opened : Env → ℕ → String → RateLimiter × Option SmtpError → RateLimiter × Session
opened env now remote_addr (rl, none) =
    (on_connection_opened env.host_of remote_addr rl, new_session remote_addr)
opened env now remote_addr (rl, some e) = (
  backed_off env.host_of now remote_addr rl,
  record (new_session remote_addr) { rate_limit_exceeded = true },
)

-- `Backend.NewSession` with a rate limiter. The connection that is over a limit gets a session too.
unfoldable pub open_session : Env → ℕ → String → RateLimiter → RateLimiter × Session
unfolding opened new_session
open_session env now remote_addr rl =
    opened env now remote_addr (check_connection env.host_of now remote_addr rl)

-- `Session.Logout`
unfoldable pub logout : Env → Session → RateLimiter → RateLimiter
logout env s rl = on_connection_closed env.host_of s.remote_addr rl

pub data LoginReply : Type 0 where
  blocked : SmtpError → LoginReply
  refused : LoginReply
  welcome : LoginReply

logged_in : Option String → ℕ → RateLimiter × Session → RateLimiter × Session × LoginReply
logged_in none now (rl, s) = (record_auth_failure now s.remote_addr rl, s, refused)
logged_in (some user) now (rl, s) =
    (rl, record s { authenticated = true; auth_user = some user }, welcome)

-- The callbacks of `createPlainServer` and `createLoginServer`, with a rate limiter.
unfoldable pub login :
    Env → ℕ → String → String → RateLimiter × Session → RateLimiter × Session × LoginReply
unfolding logged_in
login env now username password (rl, s) =
    if is_auth_blocked now s.remote_addr rl
    then (
      backed_off env.host_of now s.remote_addr rl,
      s,
      blocked (smtp_error 421 4 7 0 too_many_auth_failures),
    )
    else logged_in (env.authenticate username password) now (rl, s)

-- What the reader of DATA delivers: the sizes of its reads, and whether it ends with an error.
pub record Body : Type 0 where
  pub chunks : List ℕ
  pub broken : Bool

-- `io.ReadAll` over a `limitedReader`: the bytes read and whether the limit was exceeded.
unfoldable pub read_limited : ℕ → ℕ → List ℕ → ℕ × Bool
read_limited max_size read_size [] = (read_size, false)
read_limited max_size read_size (n ∷ rest) =
    let more = read_limited max_size (read_size + n) rest in
    if ltb max_size (read_size + n) then (read_size + n, true) else more

unfoldable pub total : List ℕ → ℕ
total [] = 0
total (n ∷ ns) = n + total ns

after_read : ℕ × Bool → Bool → Option SmtpError
after_read (size, true) broken = some (smtp_error 552 5 3 4 message_too_large)
after_read (size, false) true = some (smtp_error 451 4 0 0 read_error)
after_read (size, false) false = none

unfoldable pub read_data : Env → Body → Option SmtpError
unfolding read_limited after_read total
read_data env body =
    if ltb 0 env.max_message_size
    then after_read (read_limited env.max_message_size 0 body.chunks) body.broken
    else after_read (total body.chunks, false) body.broken

seen : String → List String → Bool
seen m [] = false
seen m (k ∷ ks) = str_eq k m || seen m ks

-- The mailboxes for which the loop calls `storeMessage`, one after the other; `stored` is
-- `mailboxesSeen`. An error of that call is only logged, so the loop goes on either way.
unfoldable pub targets : List String → List RecipientInfo → List String
unfolding seen
targets stored [] = []
targets stored (r ∷ rs) = elim r.mailbox [
  | none ↦ targets stored rs
  | some m ↦
      let again = targets stored rs in
      let first = m ∷ targets (m ∷ stored) rs in if seen m stored then again else first
]

-- What DATA does beyond its reply: the mailboxes it calls `storeMessage` for, and the envelope that it
-- hands to the relay.
pub record Delivery : Type 0 where
  pub stored : List String
  pub relayed : Option (Text × List Text)

abbrev pub nothing : Delivery
nothing = record { stored = []; relayed = none }

abbrev user_checked : ℕ → Session → RateLimiter → Option SmtpError
user_checked now s rl =
    if s.authenticated
    then elim s.auth_user [ none ↦ none | some u ↦ check_user_message now u rl ]
    else none

abbrev user_counted : ℕ → Session → RateLimiter → RateLimiter
user_counted now s rl =
    if s.authenticated
    then elim s.auth_user [ none ↦ rl | some u ↦ on_user_message_sent now u rl ]
    else rl

received : Env → Bool → ℕ → Session → RateLimiter → RateLimiter × Delivery × Option SmtpError
received env relay_enabled now s rl = (
  user_counted now s (on_message_sent env.host_of now s.remote_addr rl),
  record {
    stored = targets [] s.recipients;
    relayed = if relay_enabled then some (s.sender, map (λ r. r.address) s.recipients) else none;
  },
  none,
)

checked : Env → Bool → ℕ → Body → Session → RateLimiter → RateLimiter × Delivery × Option SmtpError
unfolding received
checked env relay_enabled now body s rl = elim (check_message env.host_of now s.remote_addr rl) [
  | some e ↦ (backed_off env.host_of now s.remote_addr rl, nothing, some e)
  | none ↦ elim (user_checked now s rl) [
    | some e ↦ (rl, nothing, some e)
    | none ↦ elim (read_data env body) [
      | some e ↦ (rl, nothing, some e)
      | none ↦ received env relay_enabled now s rl
    ]
  ]
]

-- `Session.Data` with a rate limiter. It leaves the session as it is.
unfoldable pub receive :
    Env → Bool → ℕ → Body → Session → RateLimiter → RateLimiter × Delivery × Option SmtpError
unfolding checked received
receive env relay_enabled now body s rl =
    if not s.mail_from_received
    then (rl, nothing, some (smtp_error 503 5 5 1 need_mail_command))
    else if length s.recipients == 0
    then (rl, nothing, some (smtp_error 503 5 5 1 no_valid_recipients))
    else checked env relay_enabled now body s rl
