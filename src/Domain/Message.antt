-- ===== src/Domain/Message.antt =====
-- internal/domain/message.go: a message and the changes of its marks. Times are numbers on one
-- clock; the methods that stamp a change take the reading as `now`.
use yunt.Prelude.{ℕ, String, Bool, true, false, Option, none, List, []}
use yunt.Prelude.Maps.{GoMap}

pub data MessageStatus : Type 0 where
  message_unread message_read : MessageStatus

pub record EmailAddress : Type 0 where
  pub name : String
  pub address : String

pub record Message : Type 0 where
  pub id : String
  pub mailbox_id : String
  pub message_id : String
  pub sender : EmailAddress
  pub to : List EmailAddress
  pub cc : List EmailAddress
  pub bcc : List EmailAddress
  pub reply_to : Option EmailAddress
  pub subject : String
  pub text_body : String
  pub html_body : String
  pub raw_body : List ℕ
  pub headers : GoMap String
  pub content_type : String
  pub size : ℕ
  pub attachment_count : ℕ
  pub status : MessageStatus
  pub is_starred : Bool
  pub is_spam : Bool
  pub is_deleted : Bool
  pub is_draft : Bool
  pub is_answered : Bool
  pub imap_uid : ℕ
  pub in_reply_to : String
  pub references : List String
  pub received_at : ℕ
  pub sent_at : Option ℕ
  pub thread_id : String
  pub blob_id : String
  pub all_headers : GoMap (List String)
  pub created_at : ℕ
  pub updated_at : ℕ

unfoldable pub new_message : ℕ → String → String → Message
new_message now id mailbox_id = record {
  id = id;
  mailbox_id = mailbox_id;
  message_id = "";
  sender = record { name = ""; address = "" };
  to = [];
  cc = [];
  bcc = [];
  reply_to = none;
  subject = "";
  text_body = "";
  html_body = "";
  raw_body = [];
  headers = [];
  content_type = "text/plain";
  size = 0;
  attachment_count = 0;
  status = message_unread;
  is_starred = false;
  is_spam = false;
  is_deleted = false;
  is_draft = false;
  is_answered = false;
  imap_uid = 0;
  in_reply_to = "";
  references = [];
  received_at = now;
  sent_at = none;
  thread_id = "";
  blob_id = "";
  all_headers = [];
  created_at = now;
  updated_at = now;
}

abbrev pub is_read : Message → Bool
is_read m = elim m.status [ message_read ↦ true | message_unread ↦ false ]
