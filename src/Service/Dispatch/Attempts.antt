-- ===== src/Service/Dispatch/Attempts.antt =====
-- The attempts that a dispatch makes, and when it makes no more.
use mathlib.Core.List.{append-nil, append_assoc}
use yunt.Prelude.{
  ℕ, zero, suc, ◌≡◌, refl, sym, ap, ◌∙◌, inl, inr, ◌+◌, ◌≤◌, String, Bool, true, false, none, some,
  List, [], ◌∷◌, ◌++◌, arith, ltb, if◌then◌else◌, length, Bool-cases,
}
use yunt.Domain.Webhook.{
  Webhook, WebhookDelivery, WebhookEvent, new_webhook_delivery, record_result,
}
use yunt.Repository.Webhooks.{WebhookStore, create_delivery, record_success_row, record_failure_row}
use yunt.Service.Dispatch.{
  World, Exchange, unbuilt, unanswered, answered, is_success, is_client_error,
  record_delivery_success, record_delivery_failure, attempted, dispatch_from, dispatch_webhook,
}
use yunt.Service.Dispatch.Steps.{
  attempted-success, attempted-refused, attempted-failed, first_of, dispatch_from-cut,
  dispatch_from-goes,
}

module _ (world : World) (id : String) where
  -- A delivery that stands for the attempt.
  abbrev pub IsAttempt : ℕ → WebhookDelivery → Type 0
  IsAttempt a d = (d.attempt_number ≡ a) × (d.webhook_id ≡ id)

  -- How a delivery of attempt `a` ends the loop.
  pub data Ends (a : ℕ) (d : WebhookDelivery) : Type 0 where
    delivered : d.success ≡ true → is_success d.status_code ≡ true → Ends a d
    refused : d.success ≡ false → is_client_error d.status_code ≡ true → Ends a d
    not_sent : (err : String) → world.exchange a ≡ unbuilt err → d.success ≡ false → Ends a d

  -- The deliveries of a loop that has so many rounds left and makes attempt `a` next.
  pub data Run : ℕ → ℕ → List WebhookDelivery → Type 0 where
    exhausted : {a : ℕ} → Run 0 a []
    cut_off : {n a : ℕ} → ltb 1 a ≡ true → world.waits a ≡ false → Run (suc n) a []
    ended : {n a : ℕ} {d : WebhookDelivery} → IsAttempt a d → Ends a d → Run (suc n) a (d ∷ [])
    retried :
        {n a : ℕ} {d : WebhookDelivery} {ds : List WebhookDelivery}
        → IsAttempt a d
        → d.success ≡ false
        → is_client_error d.status_code ≡ false
        → Run n (a + 1) ds
        → Run (suc n) a (d ∷ ds)

  pub length-Run : {n a : ℕ} {ds : List WebhookDelivery} → Run n a ds → length ds ≤ n
  length-Run exhausted = omega arith
  length-Run (cut_off l w) = omega arith
  length-Run (ended i e) = omega arith
  length-Run (retried i s c r) = omega (arith, length-Run r)

-- One attempt leaves one delivery, and goes on exactly where it neither succeeded nor was refused.
data Attempted (world : World) (id : String) (a : ℕ) (store : WebhookStore)
    : WebhookStore × Bool → Type 0 where
  stops :
      {store' : WebhookStore} (d : WebhookDelivery)
      → store'.deliveries ≡ store.deliveries ++ d ∷ []
      → IsAttempt world id a d
      → Ends world id a d
      → Attempted world id a store (store', false)
  goes_on :
      {store' : WebhookStore} (d : WebhookDelivery)
      → store'.deliveries ≡ store.deliveries ++ d ∷ []
      → IsAttempt world id a d
      → d.success ≡ false
      → is_client_error d.status_code ≡ false
      → Attempted world id a store (store', true)

module _ (world : World) (saves : (a : ℕ) → world.saves a ≡ true) where
  success-deliveries :
      (a : ℕ) (id : String) (d : WebhookDelivery) (status : ℕ) (body : String) (ms : ℕ)
      (store : WebhookStore)
      → (record_delivery_success world a id d status body ms store).deliveries
        ≡ store.deliveries ++ record_result status body none ms d ∷ []
  unfolding record_delivery_success create_delivery record_success_row
  success-deliveries a id d status body ms store = elim (Bool-cases (world.records a)) [
    | inl h ↦ rw (h, saves a) refl
    | inr h ↦ rw (h, saves a) refl
  ]

  failure-deliveries :
      (a : ℕ) (id : String) (d : WebhookDelivery) (status : ℕ) (body err : String) (ms : ℕ)
      (store : WebhookStore)
      → (record_delivery_failure world a id d status body err ms store).deliveries
        ≡ store.deliveries ++ record_result status body (some err) ms d ∷ []
  unfolding record_delivery_failure create_delivery record_failure_row
  failure-deliveries a id d status body err ms store = elim (Bool-cases (world.records a)) [
    | inl h ↦ rw (h, saves a) refl
    | inr h ↦ rw (h, saves a) refl
  ]

  attempted-Attempted :
      (w : Webhook) (event : WebhookEvent) (payload : String) (a : ℕ) (x : Exchange)
      (store : WebhookStore)
      → world.exchange a ≡ x
      → let d = new_webhook_delivery (world.clock a) (world.generate a) w.id event payload a in
        Attempted world w.id a store (attempted world w d a x store)
  unfolding new_webhook_delivery record_result
  attempted-Attempted w event payload a (unbuilt err) store e =
      let d = new_webhook_delivery (world.clock a) (world.generate a) w.id event payload a in
      unfold attempted in
      stops (record_result 0 "" (some err) 0 d) (failure-deliveries a w.id d 0 "" err 0 store)
        (refl, refl) (not_sent err e refl)
  attempted-Attempted w event payload a (unanswered err ms) store e =
      let d = new_webhook_delivery (world.clock a) (world.generate a) w.id event payload a in
      unfold attempted in
      goes_on (record_result 0 "" (some err) ms d) (failure-deliveries a w.id d 0 "" err ms store)
        (refl, refl) refl refl
  attempted-Attempted w event payload a (answered status body text ms) store e =
      let d = new_webhook_delivery (world.clock a) (world.generate a) w.id event payload a in
      let f = failure-deliveries a w.id d status body text ms store in
      elim (Bool-cases (is_success status)) [
        | inl h ↦ rw (attempted-success world w d a status body text ms store h) (
            stops (record_result status body none ms d)
              (success-deliveries a w.id d status body ms store) (refl, refl) (delivered h h))
        | inr h ↦ elim (Bool-cases (is_client_error status)) [
          | inl k ↦
              rw (attempted-refused world w d a status body text ms store h k)
                (stops (record_result status body (some text) ms d) f (refl, refl) (refused refl k))
          | inr k ↦
              rw (attempted-failed world w d a status body text ms store h k)
                (goes_on (record_result status body (some text) ms d) f (refl, refl) refl k)
        ]
      ]

-- What a loop added to the deliveries of the store that it began with.
abbrev Added : World → String → ℕ → ℕ → WebhookStore → WebhookStore → Type 0
Added world id n a store store' =
    (ds : List WebhookDelivery) × (store'.deliveries ≡ store.deliveries ++ ds) × Run world id n a ds

Attempted-Added :
    (world : World) (id : String) (n a : ℕ) (store rest : WebhookStore) (r : WebhookStore × Bool)
    → Attempted world id a store r
    → Added world id n (a + 1) r.0 rest
    → Added world id (suc n) a store (if r.1 then rest else r.0)
Attempted-Added world id n a store rest r (stops {store' = s} d e i k) added =
    (d ∷ [], e, ended i k)
Attempted-Added world id n a store rest r (goes_on {store' = s} d e i k c) (ds, f, run) =
    (d ∷ ds, f ∙ ap (λ x. x ++ ds) e ∙ append_assoc store.deliveries (d ∷ []) ds, retried i k c run)

module _ (world : World) (w : Webhook) (event : WebhookEvent) (payload : String) where
  dispatch_from-Run :
      ((a : ℕ) → world.saves a ≡ true)
      → (n a : ℕ) (store : WebhookStore)
      → Added world w.id n a store (dispatch_from world w event payload n a store)
  dispatch_from-Run saves zero a store =
      ([], unfold dispatch_from in sym (append-nil store.deliveries), exhausted)
  dispatch_from-Run saves (suc n) a store =
      let first = first_of world w event payload a store in
      let one : Attempted world w.id a store first =
        unfold first_of in
        attempted-Attempted world saves w event payload a (world.exchange a) store refl in
      let more : Added world w.id (suc n) a store
          (if first.1 then dispatch_from world w event payload n (a + 1) first.0 else first.0) =
        Attempted-Added world w.id n a store (dispatch_from world w event payload n (a + 1) first.0)
          first one (dispatch_from-Run saves n (a + 1) first.0) in
      elim (Bool-cases (ltb 1 a)) [
        | inr h ↦ rw (dispatch_from-goes world w event payload n a store (inl h)) more
        | inl h ↦ elim (Bool-cases (world.waits a)) [
          | inl k ↦ rw (dispatch_from-goes world w event payload n a store (inr k)) more
          | inr k ↦
              rw (dispatch_from-cut world w event payload n a store h k)
                ([], sym (append-nil store.deliveries), cut_off h k)
        ]
      ]

-- Where the deliveries are saved, dispatching a payload adds one delivery for each attempt, numbered
-- from one, each with the webhook's id: at most one more than the webhook has retries. Every attempt
-- but the last failed without a client error, so that it may be made again. The dispatch ends after
-- an attempt that succeeded, one that was refused with a client error, or one whose request could
-- not be built; or where the wait before a retry is cut off, or the attempts are used up.
pub dispatch_webhook-Run :
    (world : World) (event : WebhookEvent) (payload err : String) (w : Webhook)
    (store : WebhookStore)
    → ((a : ℕ) → world.saves a ≡ true)
    → (ds : List WebhookDelivery) × ((dispatch_webhook world event
          (some payload)
          err
          w
          store).deliveries
        ≡ store.deliveries ++ ds)
      × Run world w.id (w.max_retries + 1) 1 ds
      × (length ds ≤ w.max_retries + 1)
unfolding dispatch_webhook
dispatch_webhook-Run world event payload err w store saves =
    let (ds, e, run) = dispatch_from-Run world w event payload saves (w.max_retries + 1) 1 store in
    (ds, e, run, length-Run world w.id run)
