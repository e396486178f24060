-- ===== src/Repository/Webhooks.antt =====
-- internal/repository/sqlite/webhook.go: the rows of the webhooks and of their deliveries, and the
-- queries that the dispatch of an event makes.
use yunt.Prelude.{ℕ, ◌+◌, String, ◌&&◌, some, List, [], ◌∷◌, ◌++◌, if◌then◌else◌, str_eq}
use yunt.Domain.Webhook.{Webhook, WebhookDelivery, WebhookEvent, is_active, subscribes_to_event}

pub record WebhookStore : Type 0 where
  pub webhooks : List Webhook
  pub deliveries : List WebhookDelivery

-- `INSERT INTO webhook_deliveries`
unfoldable pub create_delivery : WebhookDelivery → WebhookStore → WebhookStore
create_delivery d store = record store { deliveries = store.deliveries ++ d ∷ [] }

-- The columns that `RecordSuccess` sets.
unfoldable pub succeeded : ℕ → Webhook → Webhook
succeeded now w = record w {
  success_count = w.success_count + 1;
  last_triggered_at = some now;
  last_success_at = some now;
  retry_count = 0;
  last_error = "";
  updated_at = now;
}

-- The columns that `RecordFailure` sets.
unfoldable pub failed : ℕ → String → Webhook → Webhook
failed now error_msg w = record w {
  failure_count = w.failure_count + 1;
  retry_count = w.retry_count + 1;
  last_triggered_at = some now;
  last_failure_at = some now;
  last_error = error_msg;
  updated_at = now;
}

-- `UPDATE webhooks SET … WHERE id = …`: it changes no row where none has the id.
unfoldable pub update_webhook : String → (Webhook → Webhook) → List Webhook → List Webhook
update_webhook id f [] = []
update_webhook id f (w ∷ webhooks) =
    (if str_eq w.id id then f w else w) ∷ update_webhook id f webhooks

unfoldable pub record_success_row : ℕ → String → WebhookStore → WebhookStore
unfolding succeeded update_webhook
record_success_row now id store = record store {
  webhooks = update_webhook id (succeeded now) store.webhooks;
}

unfoldable pub record_failure_row : ℕ → String → String → WebhookStore → WebhookStore
unfolding failed update_webhook
record_failure_row now id error_msg store = record store {
  webhooks = update_webhook id (failed now error_msg) store.webhooks;
}

-- The rows that are active and subscribed to the event.
unfoldable pub list_active_by_event : WebhookEvent → List Webhook → List Webhook
unfolding subscribes_to_event
list_active_by_event event [] = []
list_active_by_event event (w ∷ webhooks) =
    let rest = list_active_by_event event webhooks in
    if is_active w && subscribes_to_event event w then w ∷ rest else rest
