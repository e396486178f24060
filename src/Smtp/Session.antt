-- ===== src/Smtp/Session.antt =====
-- internal/smtp/session.go and the parts of internal/smtp/backend.go that its commands call. The
-- repository, the authenticator and the comparison of texts without regard to case are the
-- environment, an `Env`. The clock is read where the source reads it, as an argument. Logging and
-- the counters of the statistics are left out, and so is what a stored message looks like.
pub mod Commands
pub mod Relay
use yunt.Prelude.{
  ℕ, zero, suc, ◌+◌, String, Bool, true, false, not, ◌&&◌, ◌||◌, Option, none, some, List, [], ◌∷◌,
  ◌++◌, ltb, leb, ◌==◌, if◌then◌else◌, str_eq, length, drop, map,
}
use yunt.Smtp.Reply.{
  SmtpError, smtp_error, too_many_auth_failures, too_many_connections, authentication_required,
  invalid_sender, invalid_recipient, message_too_large, too_many_recipients, relaying_denied,
  mailbox_unavailable, temporary_failure, need_mail_command, no_valid_recipients, read_error,
}
use yunt.Smtp.Address.{Text, extract_address, is_valid_email_format, index}
use yunt.Smtp.RateLimit.{
  RateLimiter, extract_ip, check_connection, on_connection_opened, on_connection_closed,
  check_message, on_message_sent, check_user_message, on_user_message_sent, record_auth_failure,
  is_auth_blocked, record_violation,
}

-- The answer of `FindMatchingMailbox`
pub data Found : Type 0 where
  found : String → Found
  not_found : Found
  failed : Found

pub record Env : Type 0 where
  pub auth_required : Bool
  pub max_message_size : ℕ
  pub max_recipients : ℕ
  pub domain : Text
  pub local_domains : List Text
  pub mailbox_repo : Option (Text → Found)
  pub equal_fold : Text → Text → Bool
  pub authenticate : String → String → Option String
  pub host_of : String → Option String

pub record RecipientInfo : Type 0 where
  pub address : Text
  pub mailbox : Option String

pub record Session : Type 0 where
  pub remote_addr : String
  pub sender : Text
  pub recipients : List RecipientInfo
  pub message_size : ℕ
  pub mail_from_received : Bool
  pub rate_limit_exceeded : Bool
  pub authenticated : Bool
  pub auth_user : Option String

unfoldable pub new_session : String → Session
new_session remote_addr = record {
  remote_addr = remote_addr;
  sender = [];
  recipients = [];
  message_size = 0;
  mail_from_received = false;
  rate_limit_exceeded = false;
  authenticated = false;
  auth_user = none;
}

unfoldable pub reset : Session → Session
reset s = record s { sender = []; recipients = []; message_size = 0; mail_from_received = false }

-- `strings.LastIndex(to, "@")` and what follows it
unfoldable pub after_at : Text → Option Text
after_at [] = none
after_at (c ∷ s) = elim (after_at s) [ none ↦ if c == b'@' then some s else none | some d ↦ some d ]

any_fold : (Text → Text → Bool) → Text → List Text → Bool
any_fold eq d [] = false
any_fold eq d (e ∷ es) = eq e d || any_fold eq d es

-- `extractAddress`, which is total
abbrev pub address_of : Text → Text
address_of addr = elim (extract_address addr) [ none ↦ [] | some a ↦ a ]

module _ (env : Env) where
  unfoldable pub is_local_domain : Text → Bool
  unfolding any_fold
  is_local_domain d = any_fold env.equal_fold d env.local_domains || env.equal_fold env.domain d

  -- `opts.Size`, 0 if it is not given
  mail_size : ℕ → Session → Session × Option SmtpError
  mail_size size s =
      if ltb 0 size
      then if ltb 0 env.max_message_size && ltb env.max_message_size size
        then (s, some (smtp_error 552 5 3 4 message_too_large))
        else (record s { message_size = size }, none)
      else (s, none)

  mail_from : Text → ℕ → Session → Session × Option SmtpError
  mail_from [] size s = mail_size size (record s { sender = [] })
  mail_from (c ∷ rest) size s =
      let a = address_of (c ∷ rest) in
      if not (is_valid_email_format a)
      then (s, some (smtp_error 553 5 1 3 invalid_sender))
      else mail_size size (record s { sender = a })

  unfoldable pub mail : Text → ℕ → Session → Session × Option SmtpError
  unfolding reset mail_from mail_size
  mail from size s =
      if s.rate_limit_exceeded
      then (s, some (smtp_error 421 4 4 5 too_many_connections))
      else if env.auth_required && not s.authenticated
      then (s, some (smtp_error 530 5 7 0 authentication_required))
      else mail_from from size (record (reset s) { mail_from_received = true })

  unfoldable pub known : Text → List RecipientInfo → Bool
  known to [] = false
  known to (r ∷ rs) = env.equal_fold r.address to || known to rs

  find : Text → Option Found
  find to = elim env.mailbox_repo [ none ↦ none | some repo ↦ some (repo to) ]

  denied : Text → Session → SmtpError → SmtpError
  unfolding after_at
  denied to s err = if s.authenticated then err else elim (after_at to) [
    | none ↦ err
    | some d ↦ if is_local_domain d then err else smtp_error 550 5 7 1 relaying_denied
  ]

  accept : Text → Option String → Session → Session × Option SmtpError
  accept to mailbox s = (
    record s { recipients = s.recipients ++ record { address = to; mailbox = mailbox } ∷ [] },
    none,
  )

  -- `validateRecipient` and what `Rcpt` does with its answer
  looked_up : Text → Option Found → Session → Session × Option SmtpError
  unfolding denied accept
  looked_up to none s = accept to none s
  looked_up to (some (found m)) s = accept to (some m) s
  looked_up to (some not_found) s =
      (s, some (denied to s (smtp_error 550 5 1 1 mailbox_unavailable)))
  looked_up to (some failed) s = (s, some (denied to s (smtp_error 451 4 0 0 temporary_failure)))

  unfoldable pub rcpt : Text → Session → Session × Option SmtpError
  unfolding looked_up known find
  rcpt to s =
      let a = address_of to in
      if ltb 0 env.max_recipients && leb env.max_recipients (length s.recipients)
      then (s, some (smtp_error 452 4 5 3 (too_many_recipients env.max_recipients)))
      else if not (is_valid_email_format a)
      then (s, some (smtp_error 553 5 1 3 invalid_recipient))
      else if known a s.recipients
      then (s, none)
      else looked_up a (find a) s
