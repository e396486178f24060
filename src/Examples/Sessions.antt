-- ===== src/Examples/Sessions.antt =====
-- The sessions of internal/smtp.
use Prim.Native.Char.{code}
use yunt.Prelude.{
  ◌<◌, ◌≡◌, ◌↔◌, refl, String, Bool, true, false, none, some, [], ◌∷◌, arith, ◌==◌, length,
  if◌then◌else◌,
}
use yunt.Prelude.Maps.{lookup, lookup_count}
use yunt.Smtp.Reply.{smtp_error, need_mail_command}
use yunt.Smtp.Address.{Text, extract_address, is_valid_email_format}
use yunt.Smtp.Address.Laws.{IsAddress, is_valid_email_format_iff}
use yunt.Smtp.RateLimit.{
  RateLimiter, extract_ip, check_connection, check_message, default_rate_limit_config,
}
use yunt.Smtp.RateLimit.Connections.{Represents, open_from}
use yunt.Smtp.Session.{Env, Found, found, not_found, Session, new_session, rcpt, known}
use yunt.Smtp.Window.{current}
use yunt.Smtp.Session.Commands.{IsSound, mails, rcpts, session_after, new_session-IsSound}
use yunt.Smtp.Connection.{Body, nothing, read_data, receive, open_session, logout, login}
use yunt.Smtp.Connection.Receipt.{occurrences, receive_refused, receive_accepted}
use yunt.Smtp.Connection.Life.{Life, starts, opens, logs_in_as, closes, Life-Represents}

abbrev codes : String → Text
codes String.[] = []
codes (String.◌∷◌ c s) = code c ∷ codes s

is_valid_email_format_iff_example :
    (is_valid_email_format (codes "ann@here") ≡ true) ↔ IsAddress (codes "ann@here")
is_valid_email_format_iff_example = is_valid_email_format_iff (codes "ann@here")

two_ats : is_valid_email_format (codes "a@b@c") ≡ false
unfolding is_valid_email_format
two_ats = refl

same_text : Text → Text → Bool
same_text [] [] = true
same_text [] (c ∷ t) = false
same_text (c ∷ s) [] = false
same_text (c ∷ s) (d ∷ t) = if c == d then same_text s t else false

repo : Text → Found
unfolding same_text
repo to = if same_text to (codes "ann@here") then found "inbox" else not_found

abbrev server : Env
server = record {
  auth_required = false;
  max_message_size = 10;
  max_recipients = 2;
  domain = codes "here";
  local_domains = [];
  mailbox_repo = some repo;
  equal_fold = same_text;
  authenticate = λ u p. none;
  host_of = λ a. some "host";
}

abbrev limiter : RateLimiter
limiter = record {
  config = record default_rate_limit_config { max_concurrent_connections = 1 };
  message_count = [];
  connection_rate = [];
  concurrent_connections = [];
  global_connections = 0;
  messages_per_connection = [];
  user_message_count = [];
  auth_failures = [];
  violations = [];
}

abbrev anonymous : Session
anonymous = record {
  remote_addr = "host:1";
  sender = [];
  recipients = [];
  message_size = 0;
  mail_from_received = false;
  rate_limit_exceeded = false;
  authenticated = false;
  auth_user = none;
}

abbrev ready : Session
ready = record anonymous {
  mail_from_received = true;
  recipients = record { address = codes "ann@here"; mailbox = some "inbox" } ∷ [];
}

abbrev body : Body
body = record { chunks = 4 ∷ 3 ∷ []; broken = false }

new_session-IsSound_example : IsSound server (
    session_after server
      (new_session "host:1")
      (mails (codes "bob@there") 5 ∷ rcpts (codes "ann@here") ∷ []))
new_session-IsSound_example =
    new_session-IsSound server "host:1"
      (mails (codes "bob@there") 5 ∷ rcpts (codes "ann@here") ∷ [])

receive_refused_example : (receive server false 0 body anonymous limiter).1 ≡ nothing
receive_refused_example =
    receive_refused server false 0 body anonymous limiter (smtp_error 503 5 5 1 need_mail_command)
      (unfold receive in refl)

receive-ready : (receive server false 0 body ready limiter).2 ≡ none
unfolding receive check_message read_data lookup_count lookup current
receive-ready = refl

receive_accepted_example :
    (true ≡ true)
    × (0 < 1)
    × (check_message server.host_of 0 "host:1" limiter ≡ none)
    × (read_data server body ≡ none)
    × (occurrences "inbox" (receive server false 0 body ready limiter).1.stored ≡ 1)
    × ((receive server false 0 body ready limiter).1.relayed ≡ none)
receive_accepted_example = receive_accepted server false 0 body ready limiter "inbox" receive-ready

rcpt_ann : length (rcpt server (codes "ann@here") anonymous).0.recipients ≡ 1
unfolding rcpt repo same_text extract_address is_valid_email_format known
rcpt_ann = refl

empty_of :
    (ip : String) → lookup_count ip limiter.concurrent_connections ≡ open_from server.host_of ip []
unfolding lookup_count lookup
empty_of ip = refl

-- A connection opens, fails to log in, and closes after another one has opened.
abbrev two_allowed : RateLimiter
two_allowed = record limiter {
  config = record default_rate_limit_config { max_concurrent_connections = 2 };
}

abbrev opened_once : RateLimiter
opened_once = (open_session server 0 "host:1" two_allowed).0

abbrev visitor : Session
visitor = new_session "host:1"

abbrev tried_once : RateLimiter
tried_once = (login server 1 "ann" "wrong" (opened_once, visitor)).0

abbrev opened_twice : RateLimiter
opened_twice = (open_session server 2 "host:2" tried_once).0

lives : Life server two_allowed (logout server visitor opened_twice) (new_session "host:2" ∷ [])
unfolding open_session login new_session check_connection lookup_count lookup current
    yunt.Smtp.RateLimit.is_auth_blocked yunt.Smtp.RateLimit.on_connection_opened
    yunt.Smtp.RateLimit.record_auth_failure yunt.Prelude.Maps.insert extract_ip
    yunt.Smtp.Window.bump
lives = closes (new_session "host:2" ∷ []) [] visitor (
    opens 2 "host:2" refl (logs_in_as [] [] visitor 1 "ann" "wrong" (opens 0 "host:1" refl starts)))

Life-Represents_example :
    Represents server.host_of (logout server visitor opened_twice) ("host:2" ∷ [])
unfolding new_session
Life-Represents_example =
    Life-Represents server refl (record { per_address = empty_of; in_all = refl }) lives

abbrev full : RateLimiter
full = record limiter { concurrent_connections = ("host", 1) ∷ []; global_connections = 1 }

open_host :
    (ip : String)
    → lookup_count ip full.concurrent_connections ≡ open_from server.host_of ip ("host:1" ∷ [])
unfolding lookup_count lookup extract_ip
open_host ip = ground arith
