-- ===== src/Examples/Subscriptions.antt =====
-- The notifications of internal/service.
use yunt.Prelude.{◌≡◌, refl, true, false, none, some, str_eq, if◌then◌else◌}
use yunt.Domain.Message.{Message, new_message}
use yunt.Smtp.Storage.{Backend}
use yunt.Prelude.Maps.{lookup, insert}
use yunt.Service.Notify.{
  NotifyService, Notification, new_message as arrived, new_notification, new_notify_service,
  mailbox_subs, subscribe, unsubscribe, unsubscribe_by_id, notify, close,
}
use yunt.Service.Notify.Queries.{count_all, get_total_subscriptions}
use yunt.Service.Notify.Subscribers.{subscriber, subscriber-after}
use yunt.Service.Notify.Invariant.{IsWellFormed}
use yunt.Service.Notify.Counts.{IsAhead, active_subscriptions-IsAhead}
use yunt.Service.Notify.Delivery.{handler_of, notify_reaches}

-- One session watches the inbox.
abbrev watched : NotifyService
watched = (subscribe 1 "s1" "inbox" "ann" (some "idle") new_notify_service).0

abbrev arrival : Notification
arrival = new_notification 2 arrived "inbox" "ann"

watched-IsWellFormed : IsWellFormed watched
unfolding subscribe new_notify_service mailbox_subs insert lookup
watched-IsWellFormed = ((refl, tt), ((refl, ((refl, tt), ((refl, refl, refl), tt))), tt))

watched-IsAhead : IsAhead 0 watched
unfolding subscribe new_notify_service mailbox_subs insert lookup get_total_subscriptions count_all
watched-IsAhead = refl

subscriber-after_example :
    let subscribed = subscribe 2 "s2" "inbox" "ann" none watched in
    (subscriber "s2" "inbox" subscribed.0 ≡ some subscribed.1)
    × (subscriber "s2" "inbox" (unsubscribe "s2" "inbox" watched).0 ≡ none)
    × (subscriber "s2" "inbox" (unsubscribe_by_id "s2" watched).0 ≡ none)
    × (subscriber "s2" "inbox" (close watched).0 ≡ none)
subscriber-after_example =
    subscriber-after "s2" "inbox" watched watched-IsWellFormed.0 2 "s2" "inbox" "ann" none

-- The session subscribes a second time.
active_subscriptions-IsAhead_example :
    IsAhead 1 (subscribe 2 "s1" "inbox" "ann" none watched).0
    × IsAhead 0 (unsubscribe "s1" "inbox" watched).0
    × IsAhead 0 (unsubscribe_by_id "s1" watched).0
    × IsAhead 0 (close watched).0
unfolding subscriber subscribe new_notify_service mailbox_subs insert lookup
active_subscriptions-IsAhead_example =
    active_subscriptions-IsAhead 0 2 "s1" "inbox" "ann" none watched watched-IsWellFormed
      watched-IsAhead

notify_reaches_example :
    (lookup "s1" (notify 2 arrival "" watched).1
      ≡ (if str_eq "s1" "" then none else handler_of (subscriber "s1" arrival.mailbox_id watched)))
    × ((notify 2 arrival "" watched).0.subscriptions ≡ watched.subscriptions)
notify_reaches_example = notify_reaches 2 arrival "" "s1" watched watched-IsWellFormed

abbrev backend : Backend
backend = record {
  has_repo = true;
  has_notify = true;
  parse = λ m. none;
  create_fails = λ m. false;
  count_by_mailbox = λ mailbox_id messages. some 7;
}

abbrev mail : Message
mail = new_message 3 "m1" "inbox"
