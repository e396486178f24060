-- ===== src/Service/Dispatch/Tallies.antt =====
-- The counts in the rows of the webhooks, against the deliveries that are stored.
use yunt.Prelude.{
  ℕ, zero, suc, ◌≡◌, refl, inl, inr, ◌+◌, String, Bool, true, false, ◌&&◌, not, Option, none, some,
  List, [], ◌∷◌, ◌++◌, arith, ltb, if◌then◌else◌, str_eq, eq_iff, Bool-cases,
}
use yunt.Domain.Webhook.{
  Webhook, WebhookDelivery, WebhookEvent, new_webhook_delivery, record_result,
}
use yunt.Repository.Webhooks.{
  WebhookStore, create_delivery, succeeded, failed, update_webhook, record_success_row,
  record_failure_row, list_active_by_event,
}
use yunt.Service.Dispatch.{
  World, Exchange, unbuilt, unanswered, answered, is_success, is_client_error,
  record_delivery_success, record_delivery_failure, attempted, dispatch_from, dispatch_webhook,
  dispatch_all, trigger_event,
}
use yunt.Service.Dispatch.Steps.{
  attempted-success, attempted-refused, attempted-failed, first_of, dispatch_from-cut,
  dispatch_from-goes,
}

-- The deliveries of a webhook that succeeded, or that failed.
abbrev pub tally : Bool → String → List WebhookDelivery → ℕ
tally s id [] = 0
tally s id (d ∷ ds) =
    (if str_eq d.webhook_id id && (if s then d.success else not d.success) then 1 else 0)
    + tally s id ds

abbrev CountedRow : List WebhookDelivery → Webhook → Type 0
CountedRow ds w = (w.success_count ≡ tally true w.id ds) × (w.failure_count ≡ tally false w.id ds)

abbrev pub Counted : List WebhookDelivery → List Webhook → Type 0
Counted ds [] = Unit
Counted ds (w ∷ webhooks) = CountedRow ds w × Counted ds webhooks

-- Every webhook counts the stored deliveries of its id.
abbrev pub IsTallied : WebhookStore → Type 0
IsTallied store = Counted store.deliveries store.webhooks

tally-append :
    (s : Bool) (id : String) (ds : List WebhookDelivery) (d : WebhookDelivery)
    → tally s id (ds ++ d ∷ []) ≡ tally s id ds + tally s id (d ∷ [])
tally-append s id [] d = omega arith
tally-append s id (e ∷ ds) d = omega (arith, tally-append s id ds d)

-- What the update does to a row, for a delivery that succeeded or not.
abbrev Counts : Bool → Webhook → Webhook → Type 0
Counts s w v =
    (v.id ≡ w.id)
    × (v.success_count ≡ (if s then w.success_count + 1 else w.success_count))
    × (v.failure_count ≡ (if s then w.failure_count else w.failure_count + 1))

CountedRow-hit :
    (ds : List WebhookDelivery) (d : WebhookDelivery) (w v : Webhook)
    → str_eq d.webhook_id w.id ≡ true
    → Counts d.success w v
    → CountedRow ds w
    → CountedRow (ds ++ d ∷ []) v
CountedRow-hit ds d w v e (i, s, f) (cs, cf) =
    rw (i, tally-append true w.id ds d, tally-append false w.id ds d) (ground arith, ground arith)

CountedRow-miss :
    (ds : List WebhookDelivery) (d : WebhookDelivery) (w : Webhook)
    → str_eq d.webhook_id w.id ≡ false
    → CountedRow ds w
    → CountedRow (ds ++ d ∷ []) w
CountedRow-miss ds d w e (cs, cf) =
    rw (tally-append true w.id ds d, tally-append false w.id ds d) (ground arith, ground arith)

-- A delivery that is stored and counted in the rows of its webhook keeps the tallies.
Counted-delivery :
    (ds : List WebhookDelivery) (d : WebhookDelivery) (f : Webhook → Webhook)
    (webhooks : List Webhook)
    → ((w : Webhook) → Counts d.success w (f w))
    → Counted ds webhooks
    → Counted (ds ++ d ∷ []) (update_webhook d.webhook_id f webhooks)
unfolding update_webhook
Counted-delivery ds d f [] h c = tt
Counted-delivery ds d f (w ∷ webhooks) h (k, c) = (
  elim (Bool-cases (str_eq w.id d.webhook_id)) [
    | inl e ↦ rw e (
        CountedRow-hit ds d w (f w)
          (ground (arith, eq_iff w.id d.webhook_id, eq_iff d.webhook_id w.id)) (h w) k)
    | inr e ↦ rw e (
        CountedRow-miss ds d w (ground (arith, eq_iff w.id d.webhook_id, eq_iff d.webhook_id w.id))
          k)
  ],
  Counted-delivery ds d f webhooks h c,
)

-- Both writes of an attempt go through.
abbrev pub IsWritten : World → Type 0
IsWritten world = (a : ℕ) → (world.saves a ≡ true) × (world.records a ≡ true)

module _ (world : World) (written : IsWritten world) where
  success-IsTallied :
      (a : ℕ) (d : WebhookDelivery) (status : ℕ) (body : String) (ms : ℕ) (store : WebhookStore)
      → is_success status ≡ true
      → IsTallied store
      → IsTallied (record_delivery_success world a d.webhook_id d status body ms store)
  unfolding record_delivery_success create_delivery record_success_row record_result
  success-IsTallied a d status body ms store s t =
      rw ((written a).0, (written a).1)
        (Counted-delivery store.deliveries (record_result status body none ms d)
          (succeeded (world.clock a)) store.webhooks
          (λ w. unfold succeeded in (refl, ground arith, ground arith)) t)

  failure-IsTallied :
      (a : ℕ) (d : WebhookDelivery) (status : ℕ) (body err : String) (ms : ℕ) (store : WebhookStore)
      → IsTallied store
      → IsTallied (record_delivery_failure world a d.webhook_id d status body err ms store)
  unfolding record_delivery_failure create_delivery record_failure_row record_result
  failure-IsTallied a d status body err ms store t =
      rw ((written a).0, (written a).1)
        (Counted-delivery store.deliveries (record_result status body (some err) ms d)
          (failed (world.clock a) err) store.webhooks (λ w. unfold failed in (refl, refl, refl)) t)

  attempted-IsTallied :
      (w : Webhook) (d : WebhookDelivery) (a : ℕ) (x : Exchange) (store : WebhookStore)
      → d.webhook_id ≡ w.id
      → IsTallied store
      → IsTallied (attempted world w d a x store).0
  attempted-IsTallied w d a (unbuilt err) store e t =
      unfold attempted in rw (← e) (failure-IsTallied a d 0 "" err 0 store t)
  attempted-IsTallied w d a (unanswered err ms) store e t =
      unfold attempted in rw (← e) (failure-IsTallied a d 0 "" err ms store t)
  attempted-IsTallied w d a (answered status body text ms) store e t =
      let f : IsTallied (record_delivery_failure world a w.id d status body text ms store) =
        rw (← e) (failure-IsTallied a d status body text ms store t) in
      elim (Bool-cases (is_success status)) [
        | inl h ↦
            rw (attempted-success world w d a status body text ms store h, ← e)
              (success-IsTallied a d status body ms store h t)
        | inr h ↦ elim (Bool-cases (is_client_error status)) [
          | inl k ↦ rw (attempted-refused world w d a status body text ms store h k) f
          | inr k ↦ rw (attempted-failed world w d a status body text ms store h k) f
        ]
      ]

  module _ (w : Webhook) (event : WebhookEvent) (payload : String) where
    first_of-IsTallied :
        (a : ℕ) (store : WebhookStore)
        → IsTallied store
        → IsTallied (first_of world w event payload a store).0
    unfolding first_of new_webhook_delivery
    first_of-IsTallied a store t =
        attempted-IsTallied w
          (new_webhook_delivery (world.clock a) (world.generate a) w.id event payload a) a
          (world.exchange a) store refl t

    goes-IsTallied :
        (r : WebhookStore × Bool) (rest : WebhookStore)
        → IsTallied r.0
        → IsTallied rest
        → IsTallied (if r.1 then rest else r.0)
    goes-IsTallied (s, true) rest t u = u
    goes-IsTallied (s, false) rest t u = t

    dispatch_from-IsTallied :
        (n a : ℕ) (store : WebhookStore)
        → IsTallied store
        → IsTallied (dispatch_from world w event payload n a store)
    dispatch_from-IsTallied zero a store t = unfold dispatch_from in t
    dispatch_from-IsTallied (suc n) a store t =
        let first = first_of world w event payload a store in
        let one : IsTallied first.0 = first_of-IsTallied a store t in
        let more =
          goes-IsTallied first (dispatch_from world w event payload n (a + 1) first.0) one
            (dispatch_from-IsTallied n (a + 1) first.0 one) in
        elim (Bool-cases (ltb 1 a)) [
          | inr h ↦ rw (dispatch_from-goes world w event payload n a store (inl h)) more
          | inl h ↦ elim (Bool-cases (world.waits a)) [
            | inl k ↦ rw (dispatch_from-goes world w event payload n a store (inr k)) more
            | inr k ↦ rw (dispatch_from-cut world w event payload n a store h k) t
          ]
        ]

  dispatch_webhook-IsTallied :
      (event : WebhookEvent) (payload : Option String) (err : String) (w : Webhook)
      (store : WebhookStore)
      → IsTallied store
      → IsTallied (dispatch_webhook world event payload err w store)
  unfolding dispatch_webhook new_webhook_delivery
  dispatch_webhook-IsTallied event none err w store t =
      failure-IsTallied 1 (new_webhook_delivery (world.clock 1) (world.generate 1) w.id event "" 1)
        0 "" err 0 store t
  dispatch_webhook-IsTallied event (some payload) err w store t =
      dispatch_from-IsTallied w event payload (w.max_retries + 1) 1 store t

module _ (worlds : String → World) (written : (id : String) → IsWritten (worlds id)) where
  dispatch_all-IsTallied :
      (event : WebhookEvent) (payload : Option String) (err : String) (webhooks : List Webhook)
      (store : WebhookStore)
      → IsTallied store
      → IsTallied (dispatch_all worlds event payload err webhooks store)
  unfolding dispatch_all
  dispatch_all-IsTallied event payload err [] store t = t
  dispatch_all-IsTallied event payload err (w ∷ webhooks) store t =
      dispatch_all-IsTallied event payload err webhooks
        (dispatch_webhook (worlds w.id) event payload err w store)
        (dispatch_webhook-IsTallied (worlds w.id) (written w.id) event payload err w store t)

  -- As long as the writes of the repository go through, triggering an event keeps the rows and the
  -- deliveries in step: the successes and the failures that each webhook counts are the stored
  -- deliveries of its id that succeeded and that failed.
  pub trigger_event-IsTallied :
      (event : WebhookEvent) (payload : Option String) (err : String) (store : WebhookStore)
      → IsTallied store
      → IsTallied (trigger_event worlds event payload err store)
  unfolding trigger_event
  trigger_event-IsTallied event payload err store t =
      dispatch_all-IsTallied event payload err (list_active_by_event event store.webhooks) store t
