-- ===== src/Service/Notify/Invariant.antt =====
-- The state of the service: every mailbox stands once and has a subscription, and every subscription
-- stands once, open, under its own id and mailbox.
use yunt.Prelude.{
  ℕ, ◌≡◌, refl, inl, inr, String, false, Option, none, some, [], ◌∷◌, arith, str_eq, Bool-cases,
  Option-cases,
}
use yunt.Prelude.Maps.{
  GoMap, lookup, insert, delete, UniqueKeys, insert-UniqueKeys, delete-UniqueKeys, AllEntries,
  HoldsAt, insert-AllEntries, delete-AllEntries, lookup-AllEntries,
}
use yunt.Service.Notify.{
  Subscription, Subscriptions, NotifyService, or_nil, mailbox_subs, subscribe, is_none_left,
  drop_sub, unsubscribe, drop_everywhere, unsubscribe_by_id, close, notify, Notification,
  new_notify_service,
}
use yunt.Service.Notify.Everywhere.{
  drop_everywhere-keeps, drop_everywhere-empties, drop_everywhere-leaves,
}
use yunt.Service.Notify.Subscribers.{unsubscribe-absent, unsubscribe-present}

abbrev pub IsAtHome : String → String → Subscription → Type 0
IsAtHome mailbox_id id sub = (sub.id ≡ id) × (sub.mailbox_id ≡ mailbox_id) × (sub.closed ≡ false)

abbrev pub IsMailbox : String → GoMap Subscription → Type 0
IsMailbox mailbox_id subs = UniqueKeys subs × AllEntries (IsAtHome mailbox_id) subs

abbrev IsNonempty : String → GoMap Subscription → Type 0
IsNonempty mailbox_id subs = (is_none_left subs ≡ false) × IsMailbox mailbox_id subs

abbrev pub IsValid : Subscriptions → Type 0
IsValid m = UniqueKeys m × AllEntries IsNonempty m

abbrev pub IsWellFormed : NotifyService → Type 0
IsWellFormed ns = IsValid ns.subscriptions

IsMailbox-or_nil :
    (mailbox_id : String) (o : Option (GoMap Subscription))
    → HoldsAt IsNonempty mailbox_id o
    → IsMailbox mailbox_id (or_nil o)
IsMailbox-or_nil mailbox_id none h = (tt, tt)
IsMailbox-or_nil mailbox_id (some subs) h = h.1

pub mailbox_subs-IsMailbox :
    (mailbox_id : String) (m : Subscriptions)
    → IsValid m
    → IsMailbox mailbox_id (mailbox_subs mailbox_id m)
unfolding mailbox_subs
mailbox_subs-IsMailbox mailbox_id m v =
    IsMailbox-or_nil mailbox_id (lookup mailbox_id m)
      (lookup-AllEntries IsNonempty mailbox_id m v.1)

insert-is_none_left :
    (id : String) (sub : Subscription) (subs : GoMap Subscription)
    → is_none_left (insert id sub subs) ≡ false
unfolding insert
insert-is_none_left id sub [] = refl
insert-is_none_left id sub ((j, s) ∷ subs) = ground arith

delete-IsMailbox :
    (mailbox_id id : String) (subs : GoMap Subscription)
    → IsMailbox mailbox_id subs
    → IsMailbox mailbox_id (delete id subs)
delete-IsMailbox mailbox_id id subs (u, a) =
    (delete-UniqueKeys id subs u, delete-AllEntries (IsAtHome mailbox_id) id subs a)

drop_sub-IsValid :
    (id mailbox_id : String) (subs : GoMap Subscription) (m : Subscriptions)
    → IsMailbox mailbox_id subs
    → IsValid m
    → IsValid (drop_sub id mailbox_id subs m)
unfolding drop_sub
drop_sub-IsValid id mailbox_id subs m h (u, a) = elim (Bool-cases (is_none_left (delete id subs))) [
  | inl e ↦ rw e (delete-UniqueKeys mailbox_id m u, delete-AllEntries IsNonempty mailbox_id m a)
  | inr e ↦ rw e (
    insert-UniqueKeys mailbox_id (delete id subs) m u,
    insert-AllEntries IsNonempty mailbox_id (delete id subs) m
        (e, delete-IsMailbox mailbox_id id subs h) a,
  )
]

subscribe-IsWellFormed :
    (now : ℕ) (id mailbox_id user_id : String) (handler : Option String) (ns : NotifyService)
    → IsWellFormed ns
    → IsWellFormed (subscribe now id mailbox_id user_id handler ns).0
unfolding subscribe
subscribe-IsWellFormed now id mailbox_id user_id handler ns (u, a) =
    let m = ns.subscriptions in
    let subs = mailbox_subs mailbox_id m in
    let sub = (subscribe now id mailbox_id user_id handler ns).1 in
    let (v, h) = mailbox_subs-IsMailbox mailbox_id m (u, a) in
    (
      insert-UniqueKeys mailbox_id (insert id sub subs) m u,
      insert-AllEntries IsNonempty mailbox_id (insert id sub subs) m
          (
            insert-is_none_left id sub subs,
            (
              insert-UniqueKeys id sub subs v,
              insert-AllEntries (IsAtHome mailbox_id) id sub subs (refl, refl, refl) h,
            ),
          )
          a,
    )

unsubscribe-IsWellFormed :
    (id mailbox_id : String) (ns : NotifyService)
    → IsWellFormed ns
    → IsWellFormed (unsubscribe id mailbox_id ns).0
unsubscribe-IsWellFormed id mailbox_id ns w =
    let subs = mailbox_subs mailbox_id ns.subscriptions in
    elim (Option-cases (lookup id subs)) [
      | inl h ↦ rw (unsubscribe-absent id mailbox_id ns h) w
      | inr (sub, h) ↦ rw (unsubscribe-present id mailbox_id ns sub h) (
          drop_sub-IsValid id mailbox_id subs ns.subscriptions
            (mailbox_subs-IsMailbox mailbox_id ns.subscriptions w) w)
    ]

absent-tail :
    (j k : String) (subs : GoMap Subscription) (m : Subscriptions)
    → lookup j ((k, subs) ∷ m) ≡ none
    → (str_eq k j ≡ false) × (lookup j m ≡ none)
unfolding lookup
absent-tail j k subs m h = ground arith

absent-cons :
    (j k : String) (subs : GoMap Subscription) (m : Subscriptions)
    → str_eq k j ≡ false
    → lookup j m ≡ none
    → lookup j ((k, subs) ∷ m) ≡ none
unfolding lookup
absent-cons j k subs m e h = rw e h

drop_everywhere-absent :
    (id j : String) (m : Subscriptions)
    → lookup j m ≡ none
    → lookup j (drop_everywhere id m).0 ≡ none
drop_everywhere-absent id j [] h = unfold drop_everywhere in h
drop_everywhere-absent id j ((k, subs) ∷ m) h =
    let (ne, t) = absent-tail j k subs m h in
    let rest = drop_everywhere-absent id j m t in
    elim (Option-cases (lookup id subs)) [
      | inl l ↦
          rw (drop_everywhere-keeps k subs m id l)
            (absent-cons j k subs (drop_everywhere id m).0 ne rest)
      | inr (sub, l) ↦ elim (Bool-cases (is_none_left (delete id subs))) [
        | inl e ↦ rw (drop_everywhere-empties k subs m id sub l e) rest
        | inr e ↦
            rw (drop_everywhere-leaves k subs m id sub l e)
              (absent-cons j k (delete id subs) (drop_everywhere id m).0 ne rest)
      ]
    ]

drop_everywhere-IsValid :
    (id : String) (m : Subscriptions) → IsValid m → IsValid (drop_everywhere id m).0
drop_everywhere-IsValid id [] v = unfold drop_everywhere in v
drop_everywhere-IsValid id ((k, subs) ∷ m) (u, a) =
    let absent = drop_everywhere-absent id k m u.0 in
    let (v, b) = drop_everywhere-IsValid id m (u.1, a.1) in
    elim (Option-cases (lookup id subs)) [
      | inl l ↦ rw (drop_everywhere-keeps k subs m id l) ((absent, v), (a.0, b))
      | inr (sub, l) ↦ elim (Bool-cases (is_none_left (delete id subs))) [
        | inl e ↦ rw (drop_everywhere-empties k subs m id sub l e) (v, b)
        | inr e ↦
            rw (drop_everywhere-leaves k subs m id sub l e)
              ((absent, v), ((e, delete-IsMailbox k id subs a.0.1), b))
      ]
    ]

pub notify-subscriptions :
    (now : ℕ) (notification : Notification) (exclude : String) (ns : NotifyService)
    → (notify now notification exclude ns).0.subscriptions ≡ ns.subscriptions
unfolding notify
notify-subscriptions now notification exclude ns =
    elim (Option-cases (lookup notification.mailbox_id ns.subscriptions)) [
      | inl h ↦ rw (notify, h) refl
      | inr (subs, h) ↦ rw (notify, h) refl
    ]

-- The service starts, and after every operation stays, in a state where each mailbox stands once and
-- has a subscription, and each subscription of a mailbox stands once, open, under its own id and
-- mailbox.
operations-IsWellFormed :
    (ns : NotifyService)
    → IsWellFormed ns
    → (now : ℕ) (id mailbox_id user_id exclude : String) (handler : Option String)
      (notification : Notification)
    → IsWellFormed new_notify_service
      × IsWellFormed (subscribe now id mailbox_id user_id handler ns).0
      × IsWellFormed (unsubscribe id mailbox_id ns).0
      × IsWellFormed (unsubscribe_by_id id ns).0
      × IsWellFormed (notify now notification exclude ns).0
      × IsWellFormed (close ns).0
unfolding new_notify_service unsubscribe_by_id close
operations-IsWellFormed ns w now id mailbox_id user_id exclude handler notification = (
  (tt, tt),
  subscribe-IsWellFormed now id mailbox_id user_id handler ns w,
  unsubscribe-IsWellFormed id mailbox_id ns w,
  drop_everywhere-IsValid id ns.subscriptions w,
  rw (notify-subscriptions now notification exclude ns) w,
  (tt, tt),
)
