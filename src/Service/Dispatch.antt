-- ===== src/Service/Dispatch.antt =====
-- internal/service/webhook.go: the dispatch of an event to the webhooks that are subscribed to it,
-- with its retries. What the outside does at each attempt is a `World`: the clock, the id that is
-- generated, whether the wait before a retry ends before the context does, what the HTTP client
-- returns, and whether the two writes of the repository go through; their errors are only logged.
-- The dispatches to several webhooks run at once in the code; here they come one after the other.
pub mod Steps
pub mod Attempts
pub mod Tallies
pub mod Exhausted
use yunt.Prelude.{
  ℕ, zero, suc, ◌+◌, ◌-◌, ◌*◌, ◌%◌, ◌^◌, String, Bool, true, false, ◌&&◌, Option, none, some, List,
  [], ◌∷◌, ltb, leb, if◌then◌else◌,
}
use yunt.Smtp.Window.{second}
use yunt.Domain.Webhook.{
  Webhook, WebhookDelivery, WebhookEvent, new_webhook_delivery, record_result,
}
use yunt.Repository.Webhooks.{
  WebhookStore, create_delivery, record_success_row, record_failure_row, list_active_by_event,
}

-- What becomes of one request: it cannot be built, it gets no answer, or it gets one. The text of a
-- status is the one of the error that the dispatch makes of it.
pub data Exchange : Type 0 where
  unbuilt : String → Exchange
  unanswered : (err : String) (duration_ms : ℕ) → Exchange
  answered : (status_code : ℕ) (body : String) (status_text : String) (duration_ms : ℕ) → Exchange

pub record World : Type 0 where
  pub clock : ℕ → ℕ
  pub generate : ℕ → String
  pub waits : ℕ → Bool
  pub exchange : ℕ → Exchange
  pub saves : ℕ → Bool
  pub records : ℕ → Bool

-- `1 << attempt` seconds in a 64-bit word, read as signed by the comparison.
unfoldable pub retry_backoff : ℕ → ℕ
retry_backoff attempt =
    let delay = if ltb attempt 64 then (2 ^ attempt * second) % 2 ^ 64 else 0 in
    if ltb (30 * second) delay && ltb delay (2 ^ 63) then 30 * second else delay

-- `recordDeliverySuccess`
unfoldable pub record_delivery_success :
    World → ℕ → String → WebhookDelivery → ℕ → String → ℕ → WebhookStore → WebhookStore
unfolding record_result create_delivery record_success_row
record_delivery_success world attempt id d status_code response duration_ms store =
    let d' = record_result status_code response none duration_ms d in
    let saved = if world.saves attempt then create_delivery d' store else store in
    if world.records attempt then record_success_row (world.clock attempt) id saved else saved

-- `recordDeliveryFailure`
unfoldable pub record_delivery_failure :
    World → ℕ → String → WebhookDelivery → ℕ → String → String → ℕ → WebhookStore → WebhookStore
unfolding record_result create_delivery record_failure_row
record_delivery_failure world attempt id d status_code response err duration_ms store =
    let d' = record_result status_code response (some err) duration_ms d in
    let saved = if world.saves attempt then create_delivery d' store else store in
    if world.records attempt then record_failure_row (world.clock attempt) id err saved else saved

abbrev pub is_success : ℕ → Bool
is_success status_code = leb 200 status_code && ltb status_code 300

abbrev pub is_client_error : ℕ → Bool
is_client_error status_code = leb 400 status_code && ltb status_code 500

-- One round of the loop from the request on: the store after it, and whether the loop goes on.
unfoldable pub attempted :
    World → Webhook → WebhookDelivery → ℕ → Exchange → WebhookStore → WebhookStore × Bool
unfolding record_delivery_success record_delivery_failure
attempted world w d attempt (unbuilt err) store =
    (record_delivery_failure world attempt w.id d 0 "" err 0 store, false)
attempted world w d attempt (unanswered err ms) store =
    (record_delivery_failure world attempt w.id d 0 "" err ms store, true)
attempted world w d attempt (answered status body status_text ms) store =
    if is_success status
    then (record_delivery_success world attempt w.id d status body ms store, false)
    else (
      record_delivery_failure world attempt w.id d status body status_text ms store,
      if is_client_error status then false else true,
    )

-- The loop: `left` rounds are left, and the next is number `attempt`. It waits before every round
-- but the first.
unfoldable pub dispatch_from :
    World → Webhook → WebhookEvent → String → ℕ → ℕ → WebhookStore → WebhookStore
unfolding attempted new_webhook_delivery
dispatch_from world w event payload zero attempt store = store
dispatch_from world w event payload (suc left) attempt store =
    let d =
      new_webhook_delivery (world.clock attempt) (world.generate attempt) w.id event payload
        attempt in
    let (store', again) = attempted world w d attempt (world.exchange attempt) store in
    let rest = dispatch_from world w event payload left (attempt + 1) store' in
    if ltb 1 attempt
    then if world.waits attempt then if again then rest else store' else store
    else if again
    then rest
    else store'

-- `dispatchWebhook`; the payload is `inr` its JSON, or `inl` the error of `json.Marshal`.
unfoldable pub dispatch_webhook :
    World → WebhookEvent → Option String → String → Webhook → WebhookStore → WebhookStore
unfolding dispatch_from record_delivery_failure new_webhook_delivery
dispatch_webhook world event (some payload) err w store =
    dispatch_from world w event payload (w.max_retries + 1) 1 store
dispatch_webhook world event none err w store =
    record_delivery_failure world 1 w.id
      (new_webhook_delivery (world.clock 1) (world.generate 1) w.id event "" 1) 0 "" err 0 store

unfoldable pub dispatch_all :
    (String → World)
    → WebhookEvent
    → Option String
    → String
    → List Webhook
    → WebhookStore
    → WebhookStore
unfolding dispatch_webhook
dispatch_all worlds event payload err [] store = store
dispatch_all worlds event payload err (w ∷ webhooks) store =
    dispatch_all worlds event payload err webhooks
      (dispatch_webhook (worlds w.id) event payload err w store)

-- `TriggerEvent` where the query succeeds.
unfoldable pub trigger_event :
    (String → World) → WebhookEvent → Option String → String → WebhookStore → WebhookStore
unfolding dispatch_all list_active_by_event
trigger_event worlds event payload err store =
    dispatch_all worlds event payload err (list_active_by_event event store.webhooks) store
