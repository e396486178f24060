-- ===== src/Smtp/Reply.antt =====
-- The SMTP errors (`smtp.SMTPError`) that the handlers of internal/smtp return. The text of a reply
-- is a rendering of its reason, so the reason stands for it.
use yunt.Prelude.{ℕ, String}

pub data Reason : Type 0 where
  too_many_global_connections : Reason
  too_many_concurrent_connections : String → Reason
  connection_rate_exceeded : Reason
  too_many_messages_in_connection : Reason
  message_rate_exceeded : Reason
  too_many_recipients : ℕ → Reason
  user_message_rate_exceeded : Reason
  too_many_auth_failures : Reason
  too_many_connections : Reason
  authentication_required : Reason
  invalid_sender : Reason
  invalid_recipient : Reason
  message_too_large : Reason
  relaying_denied : Reason
  mailbox_unavailable : Reason
  temporary_failure : Reason
  need_mail_command : Reason
  no_valid_recipients : Reason
  read_error : Reason

-- `Code` and `EnhancedCode`
pub record SmtpError : Type 0 where
  pub code : ℕ
  pub enhanced_code : ℕ × ℕ × ℕ
  pub message : Reason

abbrev pub smtp_error : ℕ → ℕ → ℕ → ℕ → Reason → SmtpError
smtp_error c x y z m = record { code = c; enhanced_code = (x, y, z); message = m }
