-- ===== src/Domain/Webhook.antt =====
-- internal/domain/webhook.go: a webhook, and one delivery of an event to it. Times are numbers on
-- one clock; the methods that stamp a change take the reading as `now`. The limits of `Validate`
-- leave no negative setting; the counts are as far from the end of their words as they start.
pub mod Retries
pub mod Events
use yunt.Prelude.{
  ℕ, ◌+◌, String, Bool, true, false, not, ◌&&◌, ◌||◌, Option, none, some, List, [], ◌∷◌, ◌++◌, ltb,
  leb, if◌then◌else◌, str_eq,
}
use yunt.Prelude.Maps.{GoMap, insert, delete}

pub data WebhookEvent : Type 0 where
  message_received message_deleted mailbox_created mailbox_deleted user_created : WebhookEvent

pub data WebhookStatus : Type 0 where
  status_active status_inactive status_failed : WebhookStatus

pub record Webhook : Type 0 where
  pub id : String
  pub user_id : String
  pub name : String
  pub url : String
  pub secret : String
  pub events : List WebhookEvent
  pub status : WebhookStatus
  pub headers : GoMap String
  pub retry_count : ℕ
  pub max_retries : ℕ
  pub timeout_seconds : ℕ
  pub last_triggered_at : Option ℕ
  pub last_success_at : Option ℕ
  pub last_failure_at : Option ℕ
  pub last_error : String
  pub success_count : ℕ
  pub failure_count : ℕ
  pub created_at : ℕ
  pub updated_at : ℕ

unfoldable pub new_webhook : ℕ → String → String → String → String → List WebhookEvent → Webhook
new_webhook now id user_id name webhook_url events = record {
  id = id;
  user_id = user_id;
  name = name;
  url = webhook_url;
  secret = "";
  events = events;
  status = status_active;
  headers = [];
  retry_count = 0;
  max_retries = 3;
  timeout_seconds = 30;
  last_triggered_at = none;
  last_success_at = none;
  last_failure_at = none;
  last_error = "";
  success_count = 0;
  failure_count = 0;
  created_at = now;
  updated_at = now;
}

unfoldable pub activate : ℕ → Webhook → Webhook
activate now w = record w { status = status_active; updated_at = now }

unfoldable pub deactivate : ℕ → Webhook → Webhook
deactivate now w = record w { status = status_inactive; updated_at = now }

unfoldable pub mark_as_failed : ℕ → String → Webhook → Webhook
mark_as_failed now error_msg w = record w {
  status = status_failed;
  last_error = error_msg;
  last_failure_at = some now;
  updated_at = now;
}

abbrev pub is_active_status : WebhookStatus → Bool
is_active_status status_active = true
is_active_status status_inactive = false
is_active_status status_failed = false

abbrev pub is_failed_status : WebhookStatus → Bool
is_failed_status status_active = false
is_failed_status status_inactive = false
is_failed_status status_failed = true

abbrev pub is_active : Webhook → Bool
is_active w = is_active_status w.status

-- `==` on events, which are these texts in the code.
unfoldable pub event_text : WebhookEvent → String
event_text message_received = "message.received"
event_text message_deleted = "message.deleted"
event_text mailbox_created = "mailbox.created"
event_text mailbox_deleted = "mailbox.deleted"
event_text user_created = "user.created"

unfoldable pub same_event : WebhookEvent → WebhookEvent → Bool
unfolding event_text
same_event d e = str_eq (event_text d) (event_text e)

-- The loop of `SubscribesToEvent`.
unfoldable pub listed : WebhookEvent → List WebhookEvent → Bool
unfolding same_event
listed event [] = false
listed event (e ∷ events) = same_event e event || listed event events

unfoldable pub subscribes_to_event : WebhookEvent → Webhook → Bool
unfolding listed
subscribes_to_event event w = listed event w.events

unfoldable pub add_event : ℕ → WebhookEvent → Webhook → Webhook × Bool
unfolding subscribes_to_event
add_event now event w =
    if subscribes_to_event event w
    then (w, false)
    else (record w { events = w.events ++ event ∷ []; updated_at = now }, true)

-- The loop of `RemoveEvent`: the events without the first that is equal, `none` where none is.
unfoldable pub without : WebhookEvent → List WebhookEvent → Option (List WebhookEvent)
unfolding same_event
without event [] = none
without event (e ∷ events) =
    let rest = without event events in
    if same_event e event then some events else elim rest [ none ↦ none | some es ↦ some (e ∷ es) ]

unfoldable pub remove_event : ℕ → WebhookEvent → Webhook → Webhook × Bool
unfolding without
remove_event now event w = elim (without event w.events) [
  | none ↦ (w, false)
  | some events ↦ (record w { events = events; updated_at = now }, true)
]

unfoldable pub record_success : ℕ → Webhook → Webhook
record_success now w = record w {
  last_triggered_at = some now;
  last_success_at = some now;
  success_count = w.success_count + 1;
  retry_count = 0;
  last_error = "";
  updated_at = now;
}

unfoldable pub record_failure : ℕ → String → Webhook → Webhook
record_failure now error_msg w = record w {
  last_triggered_at = some now;
  last_failure_at = some now;
  last_error = error_msg;
  failure_count = w.failure_count + 1;
  retry_count = w.retry_count + 1;
  updated_at = now;
  status = if ltb w.max_retries (w.retry_count + 1) then status_failed else w.status;
}

unfoldable pub should_retry : Webhook → Bool
should_retry w = leb w.retry_count w.max_retries && not (is_failed_status w.status)

unfoldable pub reset_retry_count : ℕ → Webhook → Webhook
reset_retry_count now w = record w { retry_count = 0; updated_at = now }

unfoldable pub set_header : ℕ → String → String → Webhook → Webhook
set_header now name value w = record w { headers = insert name value w.headers; updated_at = now }

unfoldable pub remove_header : ℕ → String → Webhook → Webhook
remove_header now name w = record w { headers = delete name w.headers; updated_at = now }

pub record WebhookDelivery : Type 0 where
  pub id : String
  pub webhook_id : String
  pub event : WebhookEvent
  pub payload : String
  pub status_code : ℕ
  pub response : String
  pub error : String
  pub success : Bool
  pub duration : ℕ
  pub attempt_number : ℕ
  pub created_at : ℕ

unfoldable pub new_webhook_delivery :
    ℕ → String → String → WebhookEvent → String → ℕ → WebhookDelivery
new_webhook_delivery now id webhook_id event payload attempt_number = record {
  id = id;
  webhook_id = webhook_id;
  event = event;
  payload = payload;
  status_code = 0;
  response = "";
  error = "";
  success = false;
  duration = 0;
  attempt_number = attempt_number;
  created_at = now;
}

-- The error is `none` where it is nil, and its text otherwise.
unfoldable pub record_result : ℕ → String → Option String → ℕ → WebhookDelivery → WebhookDelivery
record_result status_code response none duration_ms d = record d {
  status_code = status_code;
  response = response;
  duration = duration_ms;
  success = leb 200 status_code && ltb status_code 300;
}
record_result status_code response (some err) duration_ms d = record d {
  status_code = status_code;
  response = response;
  duration = duration_ms;
  error = err;
  success = false;
}
