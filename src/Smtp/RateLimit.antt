-- ===== src/Smtp/RateLimit.antt =====
-- internal/smtp/ratelimit.go: the limits per address, per connection and per user. Every method
-- holds the mutex, so it is one step of the state; the time that it reads is its argument `now`, in
-- nanoseconds. A limit that is zero or negative is switched off, which 0 stands for.
pub mod Windows
pub mod Blocking
pub mod Connections
pub mod Backoff
use yunt.Prelude.{
  ℕ, ◌+◌, ◌-◌, ◌*◌, ◌%◌, ◌^◌, String, Bool, true, not, ◌&&◌, ◌||◌, Option, none, some, [], ◌∷◌, ltb,
  leb, ◌==◌, if◌then◌else◌, str_eq, length,
}
use yunt.Prelude.Maps.{GoMap, lookup, insert, delete, lookup_count}
use yunt.Smtp.Window.{RateLimitEntry, second, minute, hour, in_window, bump, current, over, expire}
use yunt.Smtp.Reply.{
  SmtpError, smtp_error, too_many_global_connections, too_many_concurrent_connections,
  connection_rate_exceeded, too_many_messages_in_connection, message_rate_exceeded,
  too_many_recipients, user_message_rate_exceeded,
}

pub record RateLimitConfig : Type 0 where
  pub enabled : Bool
  pub messages_per_hour : ℕ
  pub connections_per_minute : ℕ
  pub max_concurrent_connections : ℕ
  pub max_global_connections : ℕ
  pub recipients_per_message : ℕ
  pub messages_in_connection : ℕ
  pub user_messages_per_hour : ℕ
  pub auth_failures_per_minute : ℕ

abbrev pub default_rate_limit_config : RateLimitConfig
default_rate_limit_config = record {
  enabled = true;
  messages_per_hour = 100;
  connections_per_minute = 20;
  max_concurrent_connections = 10;
  max_global_connections = 1000;
  recipients_per_message = 100;
  messages_in_connection = 50;
  user_messages_per_hour = 50;
  auth_failures_per_minute = 5;
}

pub record RateLimiter : Type 0 where
  pub config : RateLimitConfig
  pub message_count : GoMap RateLimitEntry
  pub connection_rate : GoMap RateLimitEntry
  pub concurrent_connections : GoMap ℕ
  pub global_connections : ℕ
  pub messages_per_connection : GoMap ℕ
  pub user_message_count : GoMap RateLimitEntry
  pub auth_failures : GoMap RateLimitEntry
  pub violations : GoMap RateLimitEntry

unfoldable pub new_rate_limiter : Option RateLimitConfig → RateLimiter
new_rate_limiter config = record {
  config = elim config [ none ↦ default_rate_limit_config | some c ↦ c ];
  message_count = [];
  connection_rate = [];
  concurrent_connections = [];
  global_connections = 0;
  messages_per_connection = [];
  user_message_count = [];
  auth_failures = [];
  violations = [];
}

unfoldable pub cleanup : ℕ → RateLimiter → RateLimiter
cleanup now rl = record rl {
  message_count = expire now rl.message_count;
  connection_rate = expire now rl.connection_rate;
  violations = expire now rl.violations;
}

-- The part of `CheckConnection` that counts the attempt.
check_connection_rate : ℕ → String → RateLimiter → RateLimiter × Option SmtpError
check_connection_rate now ip rl =
    if ltb 0 rl.config.connections_per_minute
    then if leb rl.config.connections_per_minute (current now ip rl.connection_rate)
      then (rl, some (smtp_error 421 4 7 0 connection_rate_exceeded))
      else (record rl { connection_rate = bump minute now ip rl.connection_rate }, none)
    else (rl, none)

closed_count : String → GoMap ℕ → GoMap ℕ
closed_count ip m = elim (lookup ip m) [
  | none ↦ m
  | some count ↦ if leb count 1 then delete ip m else insert ip (count - 1) m
]

-- `host_of` is `net.SplitHostPort`, `none` where it fails.
module _ (host_of : String → Option String) where
  unfoldable pub extract_ip : String → String
  extract_ip remote_addr = elim (host_of remote_addr) [ none ↦ remote_addr | some host ↦ host ]

  unfoldable pub check_connection : ℕ → String → RateLimiter → RateLimiter × Option SmtpError
  unfolding check_connection_rate
  check_connection now remote_addr rl =
      let ip = extract_ip remote_addr in
      if not rl.config.enabled
      then (rl, none)
      else if over rl.config.max_global_connections rl.global_connections
      then (rl, some (smtp_error 421 4 7 0 too_many_global_connections))
      else if over rl.config.max_concurrent_connections (lookup_count ip rl.concurrent_connections)
      then (rl, some (smtp_error 421 4 7 0 (too_many_concurrent_connections ip)))
      else check_connection_rate now ip rl

  unfoldable pub on_connection_opened : String → RateLimiter → RateLimiter
  on_connection_opened remote_addr rl =
      let ip = extract_ip remote_addr in
      if not rl.config.enabled then rl else record rl {
        global_connections = rl.global_connections + 1;
        concurrent_connections =
            insert ip (lookup_count ip rl.concurrent_connections + 1) rl.concurrent_connections;
      }

  unfoldable pub on_connection_closed : String → RateLimiter → RateLimiter
  unfolding closed_count
  on_connection_closed remote_addr rl = if not rl.config.enabled then rl else record rl {
    global_connections = rl.global_connections - 1;
    concurrent_connections = closed_count (extract_ip remote_addr) rl.concurrent_connections;
    messages_per_connection = delete remote_addr rl.messages_per_connection;
  }

  unfoldable pub check_message : ℕ → String → RateLimiter → Option SmtpError
  check_message now remote_addr rl =
      if not rl.config.enabled
      then none
      else if over rl.config.messages_in_connection
          (lookup_count remote_addr rl.messages_per_connection)
      then some (smtp_error 452 4 7 1 too_many_messages_in_connection)
      else if over rl.config.messages_per_hour
          (current now (extract_ip remote_addr) rl.message_count)
      then some (smtp_error 452 4 7 1 message_rate_exceeded)
      else none

  unfoldable pub on_message_sent : ℕ → String → RateLimiter → RateLimiter
  on_message_sent now remote_addr rl = if not rl.config.enabled then rl else record rl {
    messages_per_connection =
        insert remote_addr (lookup_count remote_addr rl.messages_per_connection + 1)
          rl.messages_per_connection;
    message_count = bump hour now (extract_ip remote_addr) rl.message_count;
  }

unfoldable pub check_recipients : ℕ → RateLimiter → Option SmtpError
check_recipients recipient_count rl =
    if not rl.config.enabled
    then none
    else if ltb 0 rl.config.recipients_per_message
        && ltb rl.config.recipients_per_message recipient_count
    then some (smtp_error 452 4 5 3 (too_many_recipients rl.config.recipients_per_message))
    else none

unfoldable pub record_auth_failure : ℕ → String → RateLimiter → RateLimiter
record_auth_failure now ip rl = record rl { auth_failures = bump minute now ip rl.auth_failures }

unfoldable pub is_auth_blocked : ℕ → String → RateLimiter → Bool
is_auth_blocked now ip rl =
    over rl.config.auth_failures_per_minute (current now ip rl.auth_failures)

unfoldable pub check_user_message : ℕ → String → RateLimiter → Option SmtpError
check_user_message now username rl =
    if not rl.config.enabled || rl.config.user_messages_per_hour == 0 || str_eq username ""
    then none
    else if leb rl.config.user_messages_per_hour (current now username rl.user_message_count)
    then some (smtp_error 452 4 7 1 user_message_rate_exceeded)
    else none

unfoldable pub on_user_message_sent : ℕ → String → RateLimiter → RateLimiter
on_user_message_sent now username rl =
    if not rl.config.enabled || str_eq username ""
    then rl
    else record rl { user_message_count = bump hour now username rl.user_message_count }

unfoldable pub record_violation : ℕ → String → RateLimiter → RateLimiter
record_violation now ip rl = record rl { violations = bump (10 * minute) now ip rl.violations }

-- `time.Duration(1<<uint(count-1)) * time.Second` as a 64-bit word; it reads as negative from 2 ^ 63.
unfoldable pub backoff_word : ℕ → ℕ
backoff_word count = if ltb (count - 1) 64 then (2 ^ (count - 1) * second) % 2 ^ 64 else 0

-- `GetBackoff`, as a 64-bit word.
unfoldable pub get_backoff : ℕ → String → RateLimiter → ℕ
get_backoff now ip rl = elim (in_window now (lookup ip rl.violations)) [
  | none ↦ 0
  | some e ↦
      let delay = backoff_word e.count in
      if ltb (30 * second) delay && ltb delay (2 ^ 63) then 30 * second else delay
]

-- How long `applyBackoff` sleeps: the second reading of the clock is at `later`.
unfoldable pub apply_backoff : ℕ → ℕ → String → RateLimiter → RateLimiter × ℕ
unfolding record_violation get_backoff
apply_backoff now later ip rl =
    let rl' = record_violation now ip rl in
    let backoff = get_backoff later ip rl' in
    (rl', if ltb 0 backoff && ltb backoff (2 ^ 63) then backoff else 0)

pub record RateLimitStats : Type 0 where
  pub global_connections : ℕ
  pub unique_ips_with_messages : ℕ
  pub unique_ips_connected : ℕ

unfoldable pub get_stats : RateLimiter → RateLimitStats
get_stats rl = record {
  global_connections = rl.global_connections;
  unique_ips_with_messages = length rl.message_count;
  unique_ips_connected = length rl.concurrent_connections;
}
