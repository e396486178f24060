-- ===== src/Service/Notify/Notices.antt =====
-- The kinds of notification that internal/service/notify.go sends.
use yunt.Prelude.{ℕ, String, List}
use yunt.Prelude.Maps.{GoMap}
use yunt.Service.Notify.{
  NotifyService, new_message, flags_changed, message_expunged, mailbox_updated, new_notification,
  notify,
}

unfoldable pub notify_new_message :
    ℕ → String → String → String → ℕ → ℕ → ℕ → NotifyService → NotifyService × GoMap String
unfolding notify new_notification
notify_new_message now mailbox_id user_id message_id seq_num uid message_count ns =
    notify now
      (record (new_notification now new_message mailbox_id user_id) {
        message_id = message_id;
        seq_num = seq_num;
        uid = uid;
        message_count = message_count;
      })
      "" ns

unfoldable pub notify_flags_changed :
    ℕ
    → String
    → String
    → String
    → ℕ
    → ℕ
    → List String
    → String
    → NotifyService
    → NotifyService × GoMap String
unfolding notify new_notification
notify_flags_changed now mailbox_id user_id message_id seq_num uid flags exclude ns =
    notify now
      (record (new_notification now flags_changed mailbox_id user_id) {
        message_id = message_id;
        seq_num = seq_num;
        uid = uid;
        flags = flags;
      })
      exclude ns

unfoldable pub notify_message_expunged :
    ℕ → String → String → String → ℕ → NotifyService → NotifyService × GoMap String
unfolding notify new_notification
notify_message_expunged now mailbox_id user_id message_id seq_num ns =
    notify now
      (record (new_notification now message_expunged mailbox_id user_id) {
        message_id = message_id;
        seq_num = seq_num;
      })
      "" ns

unfoldable pub notify_mailbox_updated :
    ℕ → String → String → ℕ → NotifyService → NotifyService × GoMap String
unfolding notify new_notification
notify_mailbox_updated now mailbox_id user_id message_count ns =
    notify now
      (record (new_notification now mailbox_updated mailbox_id user_id) {
        message_count = message_count;
      })
      "" ns
