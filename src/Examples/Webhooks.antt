-- ===== src/Examples/Webhooks.antt =====
-- Webhooks: internal/domain, internal/service and internal/repository.
use yunt.Prelude.{zero, suc, ◌≡◌, refl, ◌+◌, ◌≤◌, true, false, some, List, [], ◌∷◌, ◌++◌, length}
use yunt.Domain.Webhook.{
  Webhook, WebhookDelivery, message_received, new_webhook, is_active, should_retry,
  subscribes_to_event,
}
use yunt.Repository.Webhooks.{list_active_by_event, WebhookStore}
use yunt.Service.Dispatch.{World, unanswered, answered, dispatch_webhook, trigger_event}
use yunt.Service.Dispatch.Attempts.{Run, dispatch_webhook-Run}
use yunt.Service.Dispatch.Tallies.{IsTallied, trigger_event-IsTallied}
use yunt.Service.Dispatch.Exhausted.{row_of, exhausted-stays_active}

abbrev hook : Webhook
hook = new_webhook 0 "w1" "u1" "chat" "https://chat" (message_received ∷ [])

-- The first attempt gets no answer, the second one is turned down by the server, the third succeeds.
abbrev world : World
world = record {
  clock = λ a. a;
  generate = λ a. "delivery";
  waits = λ a. true;
  exchange = λ a. elim a [
    | zero ↦ answered 200 "" "OK" 5
    | suc zero ↦ unanswered "refused" 3
    | suc (suc n) ↦ answered 204 "" "" 7
  ];
  saves = λ a. true;
  records = λ a. true;
}

abbrev down : World
down = record world { exchange = λ a. unanswered "refused" 3 }

abbrev store : WebhookStore
store = record { webhooks = hook ∷ []; deliveries = [] }

dispatch_webhook-Run_example :
    (ds : List WebhookDelivery) × ((dispatch_webhook world message_received
        (some "{}")
        ""
        hook
        store).deliveries
      ≡ [] ++ ds)
    × Run world "w1" 4 1 ds
    × (length ds ≤ 4)
unfolding new_webhook
dispatch_webhook-Run_example =
    dispatch_webhook-Run world message_received "{}" "" hook store (λ a. refl)

trigger_event-IsTallied_example :
    IsTallied (trigger_event (λ id. world) message_received (some "{}") "" store)
unfolding new_webhook
trigger_event-IsTallied_example =
    trigger_event-IsTallied (λ id. world) (λ id a. (refl, refl)) message_received (some "{}") ""
      store ((refl, refl), tt)

exhausted-stays_active_example :
    let webhooks = (dispatch_webhook down message_received (some "{}") "" hook store).webhooks in
    (w' : Webhook) × (row_of "w1" webhooks ≡ some w')
    × (w'.failure_count ≡ 0 + 4)
    × (should_retry w' ≡ false)
    × (is_active w' ≡ true)
    × (row_of "w1" (list_active_by_event message_received webhooks) ≡ some w')
unfolding new_webhook row_of
exhausted-stays_active_example =
    exhausted-stays_active down (λ a. "refused") (λ a. 3) (λ a. refl) (λ a. refl) (λ a. refl) hook
      message_received "{}" message_received "" store refl refl refl
      (unfold subscribes_to_event in refl)
