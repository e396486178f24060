-- ===== src/Service/Dispatch/Exhausted.antt =====
-- What becomes of a webhook whose deliveries all fail.
use mathlib.Core.Path.{subst}
use yunt.Prelude.{
  sym, Option, none, ◌&&◌, ap, if◌then◌else◌, str_eq, ℕ, zero, suc, ◌≡◌, refl, ◌∙◌, inl, inr, ◌+◌,
  String, true, false, some, List, [], ◌∷◌, arith, Bool-cases,
}
use yunt.Domain.Webhook.{
  Webhook, WebhookEvent, status_active, is_active, should_retry, subscribes_to_event,
}
use yunt.Repository.Webhooks.{
  WebhookStore, create_delivery, failed, update_webhook, record_failure_row, list_active_by_event,
}
use yunt.Service.Dispatch.{
  World, unanswered, record_delivery_failure, attempted, dispatch_from, dispatch_webhook,
}
use yunt.Service.Dispatch.Steps.{first_of, dispatch_from-goes}

-- The row of the id
unfoldable pub row_of : String → List Webhook → Option Webhook
row_of id [] = none
row_of id (w ∷ webhooks) = let rest = row_of id webhooks in if str_eq w.id id then some w else rest

-- Its state after `n` more failures than `v`
abbrev After : String → ℕ → Webhook → List Webhook → Type 0
After id n v webhooks =
    (v' : Webhook) × (row_of id webhooks ≡ some v')
    × ((v'.status ≡ v.status) × (v'.max_retries ≡ v.max_retries) × (v'.events ≡ v.events))
    × (v'.retry_count ≡ v.retry_count + n)
    × (v'.failure_count ≡ v.failure_count + n)

After-failed :
    (id : String) (n now : ℕ) (err : String) (v : Webhook) (webhooks : List Webhook)
    → After id n (failed now err v) webhooks
    → After id (suc n) v webhooks
unfolding failed
After-failed id n now err v webhooks (v', e, kept, r, c) =
    (v', e, kept, omega (arith, r), omega (arith, c))

row_of-update_webhook :
    (id err : String) (now : ℕ) (v : Webhook) (webhooks : List Webhook)
    → row_of id webhooks ≡ some v
    → row_of id (update_webhook id (failed now err) webhooks) ≡ some (failed now err v)
unfolding row_of update_webhook failed
row_of-update_webhook id err now v [] h = absurd (ground arith)
row_of-update_webhook id err now v (w ∷ webhooks) h = elim (Bool-cases (str_eq w.id id)) [
  | inl k ↦
      let same : w ≡ v = ground (arith, h, k) in rw (k, k) (ap (λ x. some (failed now err x)) same)
  | inr k ↦ rw (k, k) (row_of-update_webhook id err now v webhooks (ground (arith, h, k)))
]

row_of-list_active :
    (id : String) (event : WebhookEvent) (v : Webhook) (webhooks : List Webhook)
    → row_of id webhooks ≡ some v
    → is_active v && subscribes_to_event event v ≡ true
    → row_of id (list_active_by_event event webhooks) ≡ some v
unfolding row_of list_active_by_event
row_of-list_active id event v [] h k = absurd (ground arith)
row_of-list_active id event v (w ∷ webhooks) h k = elim (Bool-cases (str_eq w.id id)) [
  | inl hit ↦
      let same : w ≡ v = ground (arith, h, hit) in
      let picked : is_active w && subscribes_to_event event w ≡ true =
        subst (λ x. is_active x && subscribes_to_event event x ≡ true) (sym same) k in
      rw (picked, hit) (ap some same)
  | inr miss ↦
      let later : row_of id (list_active_by_event event webhooks) ≡ some v =
        row_of-list_active id event v webhooks (ground (arith, h, miss)) k in
      elim (Bool-cases (is_active w && subscribes_to_event event w)) [
        | inl picked ↦ rw (picked, miss) later
        | inr passed ↦ rw passed later
      ]
]

module _ (world : World) (err : ℕ → String) (ms : ℕ → ℕ)
    (down : (a : ℕ) → world.exchange a ≡ unanswered (err a) (ms a))
    (waits : (a : ℕ) → world.waits a ≡ true) (records : (a : ℕ) → world.records a ≡ true)
    (w : Webhook) (event : WebhookEvent) (payload : String) where
  first_of-webhooks :
      (a : ℕ) (store : WebhookStore)
      → ((first_of world w event payload a store).1 ≡ true)
        × ((first_of world w event payload a store).0.webhooks
            ≡ update_webhook w.id (failed (world.clock a) (err a)) store.webhooks)
  unfolding first_of attempted record_delivery_failure record_failure_row create_delivery
  first_of-webhooks a store = elim (Bool-cases (world.saves a)) [
    | inl h ↦ rw (down a) (refl, rw (records a, h) refl)
    | inr h ↦ rw (down a) (refl, rw (records a, h) refl)
  ]

  dispatch_from-After :
      (n a : ℕ) (v : Webhook) (store : WebhookStore)
      → row_of w.id store.webhooks ≡ some v
      → After w.id n v (dispatch_from world w event payload n a store).webhooks
  dispatch_from-After zero a v store e =
      unfold dispatch_from in (v, e, (refl, refl, refl), omega arith, omega arith)
  dispatch_from-After (suc n) a v store e =
      let first = first_of world w event payload a store in
      let (goes, rows) = first_of-webhooks a store in
      rw (dispatch_from-goes world w event payload n a store (inr (waits a)), goes)
        (After-failed w.id n (world.clock a) (err a) v _ (
          dispatch_from-After n (a + 1) (failed (world.clock a) (err a) v) first.0 (
            ap (row_of w.id) rows
            ∙ row_of-update_webhook w.id (err a) (world.clock a) v store.webhooks e)))

  -- A webhook whose endpoint answers no attempt uses up all of them. Its row then counts more
  -- failures in a row than it has retries, and is not to be retried by its own methods; but it is
  -- still active, and so it is among the rows that the next event it is subscribed to is dispatched
  -- to. This is for a payload that was made, waits that are not cut off, failures that are recorded,
  -- and a webhook that starts active, with no failure in a row, and stands in the table as it was
  -- read, whatever other rows there are.
  pub exhausted-stays_active :
      (next : WebhookEvent) (error : String) (store : WebhookStore)
      → row_of w.id store.webhooks ≡ some w
      → w.status ≡ status_active
      → w.retry_count ≡ 0
      → subscribes_to_event next w ≡ true
      → let webhooks = (dispatch_webhook world event (some payload) error w store).webhooks in
        (w' : Webhook) × (row_of w.id webhooks ≡ some w')
        × (w'.failure_count ≡ w.failure_count + (w.max_retries + 1))
        × (should_retry w' ≡ false)
        × (is_active w' ≡ true)
        × (row_of w.id (list_active_by_event next webhooks) ≡ some w')
  unfolding dispatch_webhook should_retry
  exhausted-stays_active next error store stands active zero_retries subscribed =
      let (w', e, (s, m, v), r, c) = dispatch_from-After (w.max_retries + 1) 1 w store stands in
      let still : is_active w' ≡ true = rw (s, active) refl in
      let heard : subscribes_to_event next w' ≡ true =
        unfold subscribes_to_event in (rw v subscribed) in
      (
        w',
        e,
        c,
        rw (r, m, zero_retries) (ground arith),
        still,
        row_of-list_active w.id next w' _ e (rw (still, heard) refl),
      )
