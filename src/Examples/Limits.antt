-- ===== src/Examples/Limits.antt =====
-- The limits of internal/smtp/ratelimit.go.
use yunt.Prelude.{ℕ, ◌≤◌, ◌≡◌, refl, String, Option, some, [], ◌∷◌, arith}
use yunt.Prelude.Maps.{lookup, lookup_count}
use yunt.Smtp.Window.{current}
use yunt.Smtp.RateLimit.{
  RateLimiter, default_rate_limit_config, extract_ip, check_connection, get_backoff,
}
use yunt.Smtp.RateLimit.Windows.{accepted, connections_per_minute_bound}
use yunt.Smtp.RateLimit.Connections.{Represents, open_from}
use yunt.Smtp.RateLimit.Backoff.{get_backoff_wears_off}

-- Every remote address stands for itself.
abbrev whole : String → Option String
whole a = some a

abbrev limiter : RateLimiter
limiter = record {
  config = record default_rate_limit_config {
    connections_per_minute = 2;
    messages_per_hour = 3;
    messages_in_connection = 2;
    max_concurrent_connections = 1;
  };
  message_count = [];
  connection_rate = [];
  concurrent_connections = [];
  global_connections = 0;
  messages_per_connection = [];
  user_message_count = [];
  auth_failures = [];
  violations = [];
}

connections_per_minute_bound_example :
    accepted whole "a" limiter ((0, "a") ∷ (1, "b") ∷ (2, "a") ∷ (3, "a") ∷ []) ≤ 2
unfolding extract_ip
connections_per_minute_bound_example =
    connections_per_minute_bound whole "a" limiter 0 ((1, "b") ∷ (2, "a") ∷ (3, "a") ∷ []) refl
      (omega arith) (unfold extract_ip lookup in refl) (omega arith)
      (unfold check_connection current lookup_count lookup in refl)

abbrev crowded : RateLimiter
crowded = record limiter { concurrent_connections = ("a", 1) ∷ []; global_connections = 1 }

open_a :
    (ip : String) → lookup_count ip crowded.concurrent_connections ≡ open_from whole ip ("a" ∷ [])
unfolding lookup_count lookup extract_ip
open_a ip = ground arith

crowded-Represents : Represents whole crowded ("a" ∷ [])
crowded-Represents = record { per_address = open_a; in_all = refl }

abbrev violator : ℕ → RateLimiter
violator n = record limiter { violations = ("a", record { count = n; window_end = 100 }) ∷ [] }

get_backoff_wears_off_example : get_backoff 50 "a" (violator 60) ≡ 0
get_backoff_wears_off_example =
    get_backoff_wears_off (violator 60) "a" 50 4 100 (unfold lookup in refl)
