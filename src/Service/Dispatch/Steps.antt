-- ===== src/Service/Dispatch/Steps.antt =====
-- What one attempt of a dispatch does, and one round of its loop, branch by branch.
use yunt.Prelude.{
  ℕ, suc, ◌≡◌, refl, inl, inr, ◌+◌, String, Bool, true, false, ◌⊎◌, ltb, if◌then◌else◌, Bool-cases,
}
use yunt.Domain.Webhook.{Webhook, WebhookDelivery, WebhookEvent, new_webhook_delivery}
use yunt.Repository.Webhooks.{WebhookStore}
use yunt.Service.Dispatch.{
  World, answered, is_success, is_client_error, record_delivery_success, record_delivery_failure,
  attempted, dispatch_from,
}

module _ (world : World) (w : Webhook) (d : WebhookDelivery) (a status : ℕ) (body text : String)
    (ms : ℕ) (store : WebhookStore) where
  pub attempted-success :
      is_success status ≡ true
      → attempted world w d a (answered status body text ms) store
        ≡ (record_delivery_success world a w.id d status body ms store, false)
  unfolding attempted
  attempted-success h = rw (h, attempted) refl

  pub attempted-refused :
      is_success status ≡ false
      → is_client_error status ≡ true
      → attempted world w d a (answered status body text ms) store
        ≡ (record_delivery_failure world a w.id d status body text ms store, false)
  unfolding attempted
  attempted-refused h k = rw (h, k, attempted) refl

  pub attempted-failed :
      is_success status ≡ false
      → is_client_error status ≡ false
      → attempted world w d a (answered status body text ms) store
        ≡ (record_delivery_failure world a w.id d status body text ms store, true)
  unfolding attempted
  attempted-failed h k = rw (h, k, attempted) refl

module _ (world : World) (w : Webhook) (event : WebhookEvent) (payload : String) where
  unfoldable pub first_of : ℕ → WebhookStore → WebhookStore × Bool
  unfolding new_webhook_delivery attempted
  first_of a store =
      attempted world w
        (new_webhook_delivery (world.clock a) (world.generate a) w.id event payload a) a
        (world.exchange a) store

  pub dispatch_from-cut :
      (n a : ℕ) (store : WebhookStore)
      → ltb 1 a ≡ true
      → world.waits a ≡ false
      → dispatch_from world w event payload (suc n) a store ≡ store
  unfolding dispatch_from
  dispatch_from-cut n a store h k = rw (h, k) refl

  pub dispatch_from-goes :
      (n a : ℕ) (store : WebhookStore)
      → (ltb 1 a ≡ false) ⊎ (world.waits a ≡ true)
      → dispatch_from world w event payload (suc n) a store ≡ (
          if (first_of a store).1
          then dispatch_from world w event payload n (a + 1) (first_of a store).0
          else (first_of a store).0)
  unfolding dispatch_from first_of
  dispatch_from-goes n a store (inl h) = rw h refl
  dispatch_from-goes n a store (inr h) = elim (Bool-cases (ltb 1 a)) [
    | inl k ↦ rw (k, h) refl
    | inr k ↦ rw k refl
  ]
