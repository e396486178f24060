-- ===== src/Domain/Mailbox.antt =====
-- internal/domain/mailbox.go: a mailbox and its counters. An `int64` is a word of 64 bits, negative
-- from 2 ^ 63 on; the readings of the clock are arguments.
pub mod Contents
use yunt.Prelude.{ℕ, ◌+◌, ◌-◌, ◌%◌, ◌^◌, String, Bool, false, ◌&&◌, ltb, leb, if◌then◌else◌}
use yunt.Prelude.Int.{ℤ, pos}

pub data MailboxType : Type 0 where
  mailbox_type_system mailbox_type_custom : MailboxType

pub record Mailbox : Type 0 where
  pub id : String
  pub user_id : String
  pub name : String
  pub address : String
  pub description : String
  pub is_catch_all : Bool
  pub is_default : Bool
  pub mailbox_type : MailboxType
  pub uid_next : ℕ
  pub message_count : ℕ
  pub unread_count : ℕ
  pub total_size : ℕ
  pub retention_days : ℤ
  pub role : String
  pub sort_order : ℤ
  pub created_at : ℕ
  pub updated_at : ℕ

unfoldable pub new_mailbox : ℕ → String → String → String → String → Mailbox
new_mailbox now id user_id name address = record {
  id = id;
  user_id = user_id;
  name = name;
  address = address;
  description = "";
  is_catch_all = false;
  is_default = false;
  mailbox_type = mailbox_type_custom;
  uid_next = 1;
  message_count = 0;
  unread_count = 0;
  total_size = 0;
  retention_days = pos 0;
  role = "";
  sort_order = pos 0;
  created_at = now;
  updated_at = now;
}

-- `n > 0` on a word
abbrev is_positive : ℕ → Bool
is_positive n = ltb 0 n && ltb n (2 ^ 63)

-- `a < b` on words
abbrev word_lt : ℕ → ℕ → Bool
word_lt a b = ltb ((a + 2 ^ 63) % 2 ^ 64) ((b + 2 ^ 63) % 2 ^ 64)

-- `n++` and `n--`
abbrev incremented : ℕ → ℕ
incremented n = (n + 1) % 2 ^ 64

abbrev decremented : ℕ → ℕ
decremented n = (n + (2 ^ 64 - 1)) % 2 ^ 64

unfoldable pub increment_message_count : ℕ → ℕ → Bool → Mailbox → Mailbox
increment_message_count now size is_unread m = record m {
  message_count = incremented m.message_count;
  unread_count = if is_unread then incremented m.unread_count else m.unread_count;
  total_size = (m.total_size + size) % 2 ^ 64;
  uid_next = (m.uid_next + 1) % 2 ^ 32;
  updated_at = now;
}

unfoldable pub decrement_message_count : ℕ → ℕ → Bool → Mailbox → Mailbox
decrement_message_count now size was_unread m =
    let left = (m.total_size + (2 ^ 64 - size)) % 2 ^ 64 in
    record m {
      message_count =
          if is_positive m.message_count then decremented m.message_count else m.message_count;
      unread_count =
          if was_unread && is_positive m.unread_count
          then decremented m.unread_count
          else m.unread_count;
      total_size = if leb (2 ^ 63) left then 0 else left;
      updated_at = now;
    }

unfoldable pub mark_message_read : ℕ → Mailbox → Mailbox
mark_message_read now m = record m {
  unread_count = if is_positive m.unread_count then decremented m.unread_count else m.unread_count;
  updated_at = now;
}

unfoldable pub mark_message_unread : ℕ → Mailbox → Mailbox
mark_message_unread now m = record m {
  unread_count =
      if word_lt m.unread_count m.message_count then incremented m.unread_count else m.unread_count;
  updated_at = now;
}

unfoldable pub has_messages : Mailbox → Bool
has_messages m = is_positive m.message_count

unfoldable pub has_unread : Mailbox → Bool
has_unread m = is_positive m.unread_count
