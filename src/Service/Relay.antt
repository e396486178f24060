-- ===== src/Service/Relay.antt =====
-- internal/service/relay.go: forwarding a message to another server. A text is the list of its code
-- points; `to_lower` is `strings.ToLower`. What `doRelay` returns at each attempt, and whether the
-- context is done after it, are arguments. The `break` on a done context inside the `select` leaves the
-- `select` alone, so the wait between two attempts changes nothing but the time.
pub mod Tries
pub mod Recipients
use yunt.Prelude.{
  ℕ, zero, suc, ◌+◌, ◌-◌, ◌*◌, ◌^◌, String, Bool, true, false, not, ◌&&◌, ◌||◌, Option, none, some,
  List, [], ◌∷◌, ltb, ◌==◌, if◌then◌else◌, str_eq,
}
use yunt.Prelude.Int.{ℤ, pos, negsuc, positive_or}
use yunt.Smtp.Address.{Text, trim_space}
use yunt.Smtp.Window.{second}
use yunt.Imap.Listing.{text_eq}

pub record RelayConfig : Type 0 where
  pub enabled : Bool
  pub host : String
  pub port : ℤ
  pub username : String
  pub password : String
  pub use_tls : Bool
  pub use_starttls : Bool
  pub allowed_domains : List Text
  pub timeout : ℤ
  pub retry_count : ℤ
  pub retry_delay : ℤ
  pub insecure_skip_verify : Bool

pub data RelayError : Type 0 where
  host_required not_enabled no_recipients_allowed : RelayError
  invalid_port : ℤ → RelayError
  send_failed : String → RelayError

is_port : ℤ → Bool
is_port (pos n) = ltb 0 n && ltb n 65536
is_port (negsuc n) = false

at_least_zero : ℤ → ℤ
at_least_zero (pos n) = pos n
at_least_zero (negsuc n) = pos 0

-- `Validate`: the configuration with its defaults, or the error.
unfoldable pub validate : RelayConfig → RelayConfig × Option RelayError
unfolding is_port at_least_zero positive_or
validate c =
    if not c.enabled
    then (c, none)
    else if str_eq c.host ""
    then (c, some host_required)
    else if not (is_port c.port)
    then (c, some (invalid_port c.port))
    else (
      record c {
        timeout = pos (positive_or c.timeout (30 * second));
        retry_count = at_least_zero c.retry_count;
        retry_delay = pos (positive_or c.retry_delay (5 * second));
      },
      none,
    )

abbrev pub default_relay_config : RelayConfig
default_relay_config = record {
  enabled = false;
  host = "";
  port = pos 587;
  username = "";
  password = "";
  use_tls = false;
  use_starttls = true;
  allowed_domains = [];
  timeout = pos (30 * second);
  retry_count = pos 3;
  retry_delay = pos (5 * second);
  insecure_skip_verify = false;
}

pub record RelayService : Type 0 where
  pub config : RelayConfig
  pub total_attempts : ℕ
  pub total_successes : ℕ
  pub total_failures : ℕ

service_of : RelayConfig × Option RelayError → Option RelayService
service_of (config, some e) = none
service_of (config, none) =
    some (record { config = config; total_attempts = 0; total_successes = 0; total_failures = 0 })

unfoldable pub new_relay_service : Option RelayConfig → Option RelayService
unfolding validate service_of
new_relay_service none = service_of (validate default_relay_config)
new_relay_service (some config) = service_of (validate config)

-- `strings.Split` at one character
first_longer : ℕ → List Text → List Text
first_longer c [] = (c ∷ []) ∷ []
first_longer c (part ∷ parts) = (c ∷ part) ∷ parts

unfoldable pub split : ℕ → Text → List Text
unfolding first_longer
split c [] = [] ∷ []
split c (d ∷ s) = let rest = split c s in if d == c then [] ∷ rest else first_longer d rest

abbrev pub is_nil {ℓ} : {A : Type ℓ} → List A → Bool
is_nil [] = true
is_nil (x ∷ xs) = false

module _ (to_lower : Text → Text) where
  -- The loop of `IsDomainAllowed`.
  unfoldable pub domain_listed : Text → List Text → Bool
  unfolding text_eq
  domain_listed domain [] = false
  domain_listed domain (allowed_domain ∷ domains) =
      text_eq (to_lower (trim_space allowed_domain)) domain || domain_listed domain domains

  unfoldable pub is_domain_allowed : RelayConfig → Text → Bool
  unfolding domain_listed
  is_domain_allowed c domain =
      if not c.enabled
      then false
      else if is_nil c.allowed_domains
      then true
      else domain_listed (to_lower (trim_space domain)) c.allowed_domains

  unfoldable pub parts_allowed : RelayConfig → List Text → Bool
  unfolding is_domain_allowed
  parts_allowed c [] = false
  parts_allowed c (local_part ∷ []) = false
  parts_allowed c (local_part ∷ domain ∷ []) =
      if is_nil local_part || is_nil domain then false else is_domain_allowed c domain
  parts_allowed c (local_part ∷ domain ∷ part ∷ parts) = false

  unfoldable pub is_recipient_allowed : RelayConfig → Text → Bool
  unfolding parts_allowed split
  is_recipient_allowed c email = parts_allowed c (split b'@' email)

  -- The loop of `FilterAllowedRecipients`.
  unfoldable pub allowed_of : RelayConfig → List Text → List Text
  unfolding is_recipient_allowed
  allowed_of c [] = []
  allowed_of c (r ∷ recipients) =
      let rest = allowed_of c recipients in if is_recipient_allowed c r then r ∷ rest else rest

  unfoldable pub filter_allowed_recipients : RelayConfig → List Text → List Text
  unfolding allowed_of
  filter_allowed_recipients c recipients = if not c.enabled then [] else allowed_of c recipients

pub record RelayResult : Type 0 where
  pub success : Bool
  pub error : Option RelayError
  pub attempts : ℕ
  pub recipients : List Text
  pub failed_recipients : List Text

-- How the loop of `Relay` ends: with an attempt that succeeded, or with the last error.
pub record LoopEnd : Type 0 where
  pub sent : Bool
  pub attempts : ℕ
  pub last_err : Option RelayError

-- The loop, with the rounds that are left, from attempt `attempt` on.
unfoldable pub relay_loop : (ℕ → Option String) → (ℕ → Bool) → ℕ → ℕ → Option RelayError → LoopEnd
relay_loop do_relay done zero attempt last = record {
  sent = false;
  attempts = attempt - 1;
  last_err = last;
}
relay_loop do_relay done (suc left) attempt last = elim (do_relay attempt) [
  | none ↦ record { sent = true; attempts = attempt; last_err = none }
  | some err ↦
      let rest = relay_loop do_relay done left (attempt + 1) (some (send_failed err)) in
      if done attempt
      then record { sent = false; attempts = attempt; last_err = some (send_failed err) }
      else rest
]

-- How often `attempt <= RetryCount+1` holds from 1 on.
abbrev pub rounds : ℤ → ℕ
rounds (pos n) = suc n
rounds (negsuc n) = 0

unfoldable pub finished : List Text → RelayService → LoopEnd → RelayService × RelayResult
finished allowed s e =
    if e.sent
    then (
      record s { total_successes = s.total_successes + 1 },
      record {
        success = true;
        error = none;
        attempts = e.attempts;
        recipients = allowed;
        failed_recipients = [];
      },
    )
    else (
      record s { total_failures = s.total_failures + 1 },
      record {
        success = false;
        error = e.last_err;
        attempts = e.attempts;
        recipients = [];
        failed_recipients = allowed;
      },
    )

abbrev pub skipped : RelayError → RelayResult
skipped e = record {
  success = false;
  error = some e;
  attempts = 0;
  recipients = [];
  failed_recipients = [];
}

-- `Relay` from the filtered recipients on.
unfoldable pub relay_allowed :
    (List Text → ℕ → Option String)
    → (ℕ → Bool)
    → RelayService
    → List Text
    → RelayService × RelayResult
unfolding relay_loop finished
relay_allowed do_relay done s [] = (s, skipped no_recipients_allowed)
relay_allowed do_relay done s (r ∷ allowed) =
    finished (r ∷ allowed) s
      (relay_loop (do_relay (r ∷ allowed)) done (rounds s.config.retry_count) 1 none)

-- `do_relay` gets the recipients that it is called with.
unfoldable pub relay :
    (Text → Text)
    → (List Text → ℕ → Option String)
    → (ℕ → Bool)
    → List Text
    → RelayService
    → RelayService × RelayResult
unfolding filter_allowed_recipients relay_allowed
relay to_lower do_relay done recipients service =
    let s = record service { total_attempts = service.total_attempts + 1 } in
    if not s.config.enabled
    then (s, skipped not_enabled)
    else relay_allowed do_relay done s (filter_allowed_recipients to_lower s.config recipients)
