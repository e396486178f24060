-- ===== src/Service/Notify.antt =====
-- internal/service/notify.go: who is told of the changes of a mailbox. Every method holds the mutex,
-- so it is one step of the state. A handler is a name, `none` where it is nil; the calls that
-- `Notify` starts are its result, by the id of the subscription. A method that closes
-- subscriptions returns them closed, as the holders of the pointers see them.
pub mod Queries
pub mod Notices
pub mod Everywhere
pub mod Subscribers
pub mod Invariant
pub mod Counts
pub mod Delivery
use yunt.Prelude.{
  ℕ, ◌+◌, ◌-◌, String, Bool, true, false, not, ◌&&◌, Option, none, some, List, [], ◌∷◌, ◌++◌, ltb,
  ◌==◌, if◌then◌else◌, str_eq, length, map,
}
use yunt.Prelude.Maps.{GoMap, lookup, insert, delete}

pub data NotificationType : Type 0 where
  new_message flags_changed message_expunged mailbox_updated : NotificationType

pub record Notification : Type 0 where
  pub notif_type : NotificationType
  pub mailbox_id : String
  pub user_id : String
  pub message_id : String
  pub seq_num : ℕ
  pub uid : ℕ
  pub flags : List String
  pub message_count : ℕ
  pub timestamp : ℕ

unfoldable pub new_notification : ℕ → NotificationType → String → String → Notification
new_notification now notif_type mailbox_id user_id = record {
  notif_type = notif_type;
  mailbox_id = mailbox_id;
  user_id = user_id;
  message_id = "";
  seq_num = 0;
  uid = 0;
  flags = [];
  message_count = 0;
  timestamp = now;
}

pub record Subscription : Type 0 where
  pub id : String
  pub mailbox_id : String
  pub user_id : String
  pub handler : Option String
  pub created : ℕ
  pub closed : Bool

unfoldable pub close_subscription : Subscription → Subscription
close_subscription sub = record sub { closed = true }

pub record NotifyStats : Type 0 where
  pub total_subscriptions : ℕ
  pub active_subscriptions : ℕ
  pub total_notifications : ℕ
  pub last_notification_at : Option ℕ

abbrev pub Subscriptions : Type 0
Subscriptions = GoMap (GoMap Subscription)

pub record NotifyService : Type 0 where
  pub subscriptions : Subscriptions
  pub stats : NotifyStats

unfoldable pub new_notify_service : NotifyService
new_notify_service = record {
  subscriptions = [];
  stats = record {
    total_subscriptions = 0;
    active_subscriptions = 0;
    total_notifications = 0;
    last_notification_at = none;
  };
}

abbrev pub or_nil : Option (GoMap Subscription) → GoMap Subscription
or_nil none = []
or_nil (some subs) = subs

-- `ns.subscriptions[mailboxID]`, where a missing mailbox reads as nil.
unfoldable pub mailbox_subs : String → Subscriptions → GoMap Subscription
mailbox_subs mailbox_id m = or_nil (lookup mailbox_id m)

unfoldable pub subscribe :
    ℕ → String → String → String → Option String → NotifyService → NotifyService × Subscription
unfolding mailbox_subs
subscribe now subscription_id mailbox_id user_id handler ns =
    let sub : Subscription = record {
      id = subscription_id;
      mailbox_id = mailbox_id;
      user_id = user_id;
      handler = handler;
      created = now;
      closed = false;
    } in
    (
      record ns {
        subscriptions =
            insert mailbox_id
              (insert subscription_id sub (mailbox_subs mailbox_id ns.subscriptions))
              ns.subscriptions;
        stats = record ns.stats {
          total_subscriptions = ns.stats.total_subscriptions + 1;
          active_subscriptions = ns.stats.active_subscriptions + 1;
        };
      },
      sub,
    )

abbrev pub is_none_left : GoMap Subscription → Bool
is_none_left [] = true
is_none_left (s ∷ subs) = false

-- The mailbox without the subscription, and without itself where none is left.
unfoldable pub drop_sub : String → String → GoMap Subscription → Subscriptions → Subscriptions
drop_sub subscription_id mailbox_id subs m =
    let subs' = delete subscription_id subs in
    if is_none_left subs' then delete mailbox_id m else insert mailbox_id subs' m

unfoldable pub unsubscribe : String → String → NotifyService → NotifyService × List Subscription
unfolding mailbox_subs drop_sub close_subscription
unsubscribe subscription_id mailbox_id ns =
    let subs = mailbox_subs mailbox_id ns.subscriptions in
    elim (lookup subscription_id subs) [
      | none ↦ (ns, [])
      | some sub ↦ (
        record ns {
          subscriptions = drop_sub subscription_id mailbox_id subs ns.subscriptions;
          stats = record ns.stats { active_subscriptions = ns.stats.active_subscriptions - 1 };
        },
        close_subscription sub ∷ [],
      )
    ]

-- The loop of `UnsubscribeByID` over the mailboxes.
unfoldable pub drop_everywhere : String → Subscriptions → Subscriptions × List Subscription
unfolding close_subscription
drop_everywhere subscription_id [] = ([], [])
drop_everywhere subscription_id ((mailbox_id, subs) ∷ m) =
    let (rest, closed) = drop_everywhere subscription_id m in
    elim (lookup subscription_id subs) [
      | none ↦ ((mailbox_id, subs) ∷ rest, closed)
      | some sub ↦
          let subs' = delete subscription_id subs in
          (
            if is_none_left subs' then rest else (mailbox_id, subs') ∷ rest,
            close_subscription sub ∷ closed,
          )
    ]

unfoldable pub unsubscribe_by_id : String → NotifyService → NotifyService × List Subscription
unfolding drop_everywhere
unsubscribe_by_id subscription_id ns =
    let (left, closed) = drop_everywhere subscription_id ns.subscriptions in
    (
      record ns {
        subscriptions = left;
        stats = record ns.stats {
          active_subscriptions = ns.stats.active_subscriptions - length closed;
        };
      },
      closed,
    )

-- The loop of `Notify`: the handlers that are called, by subscription.
unfoldable pub called : String → GoMap Subscription → GoMap String
called exclude [] = []
called exclude ((sub_id, sub) ∷ subs) =
    let rest = called exclude subs in
    if str_eq sub_id exclude
    then rest
    else if sub.closed
    then rest
    else elim sub.handler [ none ↦ rest | some h ↦ (sub_id, h) ∷ rest ]

unfoldable pub notify : ℕ → Notification → String → NotifyService → NotifyService × GoMap String
unfolding called
notify now notification exclude ns = elim (lookup notification.mailbox_id ns.subscriptions) [
  | none ↦ (ns, [])
  | some subs ↦ (
    record ns {
      stats = record ns.stats {
        total_notifications = ns.stats.total_notifications + 1;
        last_notification_at = some now;
      };
    },
    called exclude subs,
  )
]

unfoldable pub closed_subs : GoMap Subscription → List Subscription
unfolding close_subscription
closed_subs [] = []
closed_subs ((sub_id, sub) ∷ subs) = close_subscription sub ∷ closed_subs subs

unfoldable pub closed_all : Subscriptions → List Subscription
unfolding closed_subs
closed_all [] = []
closed_all ((mailbox_id, subs) ∷ m) = closed_subs subs ++ closed_all m

unfoldable pub close : NotifyService → NotifyService × List Subscription
unfolding closed_all
close ns = (
  record ns { subscriptions = []; stats = record ns.stats { active_subscriptions = 0 } },
  closed_all ns.subscriptions,
)
