-- ===== src/Domain/Webhook/Events.antt =====
-- The events that a webhook is subscribed to, through `AddEvent` and `RemoveEvent`.
use yunt.Prelude.{
  ℕ, ◌≡◌, refl, sym, ◌∙◌, ap, inl, inr, String, true, false, ◌||◌, ◌&&◌, not, Option, none, some,
  List, [], ◌∷◌, ◌++◌, arith, if◌then◌else◌, str_eq, eq_iff, Bool-cases, Option-cases,
}
use yunt.Domain.Webhook.{
  WebhookEvent, message_received, message_deleted, mailbox_created, mailbox_deleted, user_created,
  Webhook, event_text, same_event, listed, subscribes_to_event, add_event, without, remove_event,
}

event_of : String → WebhookEvent
event_of t =
    if str_eq t "message.received"
    then message_received
    else if str_eq t "message.deleted"
    then message_deleted
    else if str_eq t "mailbox.created"
    then mailbox_created
    else if str_eq t "mailbox.deleted"
    then mailbox_deleted
    else user_created

event_of-event_text : (e : WebhookEvent) → event_of (event_text e) ≡ e
unfolding event_of event_text
event_of-event_text message_received = refl
event_of-event_text message_deleted = refl
event_of-event_text mailbox_created = refl
event_of-event_text mailbox_deleted = refl
event_of-event_text user_created = refl

same_event-eq : (d e : WebhookEvent) → same_event d e ≡ true → d ≡ e
unfolding same_event
same_event-eq d e h =
    sym (event_of-event_text d)
    ∙ ap event_of ((eq_iff (event_text d) (event_text e)).0 h)
    ∙ event_of-event_text e

same_event_refl : (e : WebhookEvent) → same_event e e ≡ true
unfolding same_event
same_event_refl e = (eq_iff (event_text e) (event_text e)).1 refl

same-sym : (d e : WebhookEvent) → same_event d e ≡ same_event e d
unfolding same_event
same-sym d e =
    ground (arith, eq_iff (event_text d) (event_text e), eq_iff (event_text e) (event_text d))

same-join :
    (d e x : WebhookEvent) → same_event d x ≡ true → same_event e x ≡ true → same_event d e ≡ true
same-join d e x h k = rw (same_event-eq d x h, same_event-eq e x k) (same_event_refl x)

-- No event stands twice.
abbrev pub UniqueEvents : List WebhookEvent → Type 0
UniqueEvents [] = Unit
UniqueEvents (e ∷ events) = (listed e events ≡ false) × UniqueEvents events

listed-append :
    (d e : WebhookEvent) (events : List WebhookEvent)
    → listed d (events ++ e ∷ []) ≡ listed d events || same_event e d
unfolding listed
listed-append d e [] = ground arith
listed-append d e (f ∷ events) = ground (arith, listed-append d e events)

UniqueEvents-append :
    (e : WebhookEvent) (events : List WebhookEvent)
    → UniqueEvents events
    → listed e events ≡ false
    → UniqueEvents (events ++ e ∷ [])
unfolding listed
UniqueEvents-append e [] u h = (refl, tt)
UniqueEvents-append e (f ∷ events) u h = (
  ground (arith, listed-append f e events, same-sym e f, u.0),
  UniqueEvents-append e events u.1 (ground arith),
)

without-append :
    (e : WebhookEvent) (events : List WebhookEvent)
    → listed e events ≡ false
    → without e (events ++ e ∷ []) ≡ some events
unfolding without listed
without-append e [] h = ground (arith, same_event_refl e)
without-append e (d ∷ events) h =
    let k : same_event d e ≡ false = ground arith in
    rw (k, without-append e events (ground arith)) refl

-- What is left after the removal, by what was there.
data Without (e : WebhookEvent) (events : List WebhookEvent)
    : Option (List WebhookEvent) → Type 0 where
  absent : listed e events ≡ false → Without e events none
  removed :
      (left : List WebhookEvent)
      → UniqueEvents left
      → ((d : WebhookEvent) → listed d left ≡ listed d events && not (same_event e d))
      → Without e events (some left)

Without-keep :
    (e d : WebhookEvent) (events : List WebhookEvent) {o : Option (List WebhookEvent)}
    → UniqueEvents (d ∷ events)
    → same_event d e ≡ false
    → Without e events o
    → Without e (d ∷ events) (elim o [ none ↦ none | some es ↦ some (d ∷ es) ])
Without-keep e d events u k (absent h) = absent (unfold listed in ground arith)
Without-keep e d events u k (removed left v h) =
    removed (d ∷ left) (ground (arith, h d), v)
      (λ x. unfold listed in ground (arith, h x, same-join d e x))

Without-first :
    (e d : WebhookEvent) (events : List WebhookEvent)
    → UniqueEvents (d ∷ events)
    → same_event d e ≡ true
    → Without e (d ∷ events) (some events)
Without-first e d events u k =
    let d≡e : d ≡ e = same_event-eq d e k in
    removed events u.1 (λ x.
      unfold listed in
      elim (Bool-cases (same_event e x)) [
        | inl h ↦
            let d≡x : d ≡ x = d≡e ∙ same_event-eq e x h in
            let n : listed x events ≡ false = rw (← d≡x) u.0 in ground arith
        | inr h ↦ let k' : same_event d x ≡ false = rw d≡e h in ground arith
      ])

without-hit :
    (e d : WebhookEvent) (events : List WebhookEvent)
    → same_event d e ≡ true
    → without e (d ∷ events) ≡ some events
unfolding without
without-hit e d events k = rw k refl

without-miss :
    (e d : WebhookEvent) (events : List WebhookEvent)
    → same_event d e ≡ false
    → without e (d ∷ events) ≡ elim (without e events) [ none ↦ none | some es ↦ some (d ∷ es) ]
unfolding without
without-miss e d events k = rw k refl

without_lem :
    (e : WebhookEvent) (events : List WebhookEvent)
    → UniqueEvents events
    → Without e events (without e events)
without_lem e [] u = unfold without in absent (unfold listed in refl)
without_lem e (d ∷ events) u = elim (Bool-cases (same_event d e)) [
  | inl k ↦ rw (without-hit e d events k) (Without-first e d events u k)
  | inr k ↦ rw (without-miss e d events k) (Without-keep e d events u k (without_lem e events u.1))
]

add_event-fresh :
    (now : ℕ) (event : WebhookEvent) (w : Webhook)
    → subscribes_to_event event w ≡ false
    → add_event now event w ≡ (record w { events = w.events ++ event ∷ []; updated_at = now }, true)
unfolding add_event
add_event-fresh now event w h = rw h refl

remove_event-present :
    (now : ℕ) (event : WebhookEvent) (w : Webhook) (es : List WebhookEvent)
    → without event w.events ≡ some es
    → remove_event now event w ≡ (record w { events = es; updated_at = now }, true)
unfolding remove_event
remove_event-present now event w es h = rw (h, remove_event) refl

-- Taking an event away again that was added, and that the webhook was not subscribed to, restores
-- its events, and both calls report the change: all that stays of them is the later time stamp.
add_event-remove_event :
    (now later : ℕ) (event : WebhookEvent) (w : Webhook)
    → subscribes_to_event event w ≡ false
    → ((add_event now event w).1 ≡ true)
      × (remove_event later event (add_event now event w).0
          ≡ (record w { updated_at = later }, true))
unfolding subscribes_to_event
add_event-remove_event now later event w h =
    let added : Webhook = record w { events = w.events ++ event ∷ []; updated_at = now } in
    rw (add_event-fresh now event w h)
      (refl, remove_event-present later event added w.events (without-append event w.events h))

left_of : List WebhookEvent → Option (List WebhookEvent) → List WebhookEvent
left_of events none = events
left_of events (some es) = es

remove_event-left :
    (now : ℕ) (event : WebhookEvent) (w : Webhook)
    → (remove_event now event w).0.events ≡ left_of w.events (without event w.events)
unfolding remove_event left_of
remove_event-left now event w = elim (Option-cases (without event w.events)) [
  | inl h ↦ rw (h, remove_event, left_of) refl
  | inr (es, h) ↦ rw (h, remove_event, left_of) refl
]

Without-left :
    (e : WebhookEvent) (events : List WebhookEvent) (o : Option (List WebhookEvent))
    → UniqueEvents events
    → Without e events o
    → UniqueEvents (left_of events o)
      × ((d : WebhookEvent) → listed d (left_of events o) ≡ listed d events && not (same_event e d))
unfolding left_of
Without-left e events none u (absent h) = (
  u,
  λ d. elim (Bool-cases (same_event e d)) [
    | inl k ↦
        let e≡d : e ≡ d = same_event-eq e d k in
        let n : listed d events ≡ false = rw (← e≡d) h in ground arith
    | inr k ↦ ground arith
  ],
)
Without-left e events (some es) u (removed left v h) = (v, h)

add_event-events :
    (now : ℕ) (event : WebhookEvent) (w : Webhook)
    → UniqueEvents w.events
    → UniqueEvents (add_event now event w).0.events
      × ((d : WebhookEvent)
          → subscribes_to_event d (add_event now event w).0
            ≡ subscribes_to_event d w || same_event event d)
unfolding add_event subscribes_to_event
add_event-events now event w u = elim (Bool-cases (listed event w.events)) [
  | inl h ↦
      rw (h, add_event)
        (
          u,
          λ d. elim (Bool-cases (same_event event d)) [
            | inl k ↦
                let e≡d : event ≡ d = same_event-eq event d k in
                let n : listed d w.events ≡ true = rw (← e≡d) h in ground arith
            | inr k ↦ ground arith
          ],
        )
  | inr h ↦
      rw (h, add_event)
        (UniqueEvents-append event w.events u h, λ d. listed-append d event w.events)
]

-- As long as no event stands twice in a webhook, as when it starts with different ones, adding and
-- removing events keeps it so, and the webhook is then subscribed to what it was and the added
-- event, or to what it was but the removed event.
events-Unique :
    (now : ℕ) (event : WebhookEvent) (w : Webhook)
    → UniqueEvents w.events
    → let added = (add_event now event w).0 in
      let left = (remove_event now event w).0 in
      (UniqueEvents added.events × UniqueEvents left.events)
      × ((d : WebhookEvent)
          → (subscribes_to_event d added ≡ subscribes_to_event d w || same_event event d)
            × (subscribes_to_event d left ≡ subscribes_to_event d w && not (same_event event d)))
unfolding subscribes_to_event
events-Unique now event w u =
    let a = add_event-events now event w u in
    let r = Without-left event w.events (without event w.events) u (without_lem event w.events u) in
    (
      (a.0, rw (remove_event-left now event w) r.0),
      λ d. (a.1 d, rw (remove_event-left now event w) (r.1 d)),
    )
