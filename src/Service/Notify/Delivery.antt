-- ===== src/Service/Notify/Delivery.antt =====
-- Whom a notification reaches.
use mathlib.Core.Path.{subst}
use yunt.Prelude.{
  ℕ, ◌≡◌, refl, sym, ◌∙◌, inl, inr, String, false, Option, none, some, [], ◌∷◌, arith,
  if◌then◌else◌, str_eq, eq_iff, Bool-cases, Option-cases,
}
use yunt.Prelude.Maps.{GoMap, lookup}
use yunt.Service.Notify.{Subscription, Notification, NotifyService, mailbox_subs, called, notify}
use yunt.Service.Notify.Subscribers.{subscriber}
use yunt.Service.Notify.Invariant.{
  IsMailbox, IsWellFormed, mailbox_subs-IsMailbox, notify-subscriptions,
}

-- The handler of a subscription, if there is one.
abbrev pub handler_of : Option Subscription → Option String
handler_of none = none
handler_of (some sub) = sub.handler

lookup-called_absent :
    (id exclude : String) (subs : GoMap Subscription)
    → lookup id subs ≡ none
    → lookup id (called exclude subs) ≡ none
unfolding lookup called
lookup-called_absent id exclude [] h = refl
lookup-called_absent id exclude ((k, sub) ∷ subs) h =
    ground (arith, lookup-called_absent id exclude subs)

first-called :
    (id exclude : String) (handler : Option String) (rest : GoMap String)
    → lookup id rest ≡ none
    → lookup id
        (if str_eq id exclude then rest else elim handler [ none ↦ rest | some h ↦ (id, h) ∷ rest ])
      ≡ (if str_eq id exclude then none else handler)
unfolding lookup
first-called id exclude none rest n = elim (Bool-cases (str_eq id exclude)) [
  | inl e ↦ rw e n
  | inr e ↦ rw e n
]
first-called id exclude (some h) rest n = elim (Bool-cases (str_eq id exclude)) [
  | inl e ↦ rw e n
  | inr e ↦ rw (e, (eq_iff id id).1 refl) refl
]

first-called_at :
    (k id exclude : String) (handler : Option String) (rest : GoMap String)
    → k ≡ id
    → lookup id rest ≡ none
    → lookup id
        (if str_eq k exclude then rest else elim handler [ none ↦ rest | some h ↦ (k, h) ∷ rest ])
      ≡ (if str_eq id exclude then none else handler)
first-called_at k id exclude handler rest e n =
    subst
      (λ x.
        lookup id
          (if str_eq x exclude then rest else elim handler [ none ↦ rest | some h ↦ (x, h) ∷ rest ])
        ≡ (if str_eq id exclude then none else handler))
      (sym e) (first-called id exclude handler rest n)

other-called :
    (k id exclude : String) (handler : Option String) (rest : GoMap String)
    → str_eq k id ≡ false
    → lookup id
        (if str_eq k exclude then rest else elim handler [ none ↦ rest | some h ↦ (k, h) ∷ rest ])
      ≡ lookup id rest
unfolding lookup
other-called k id exclude none rest n = elim (Bool-cases (str_eq k exclude)) [
  | inl e ↦ rw e refl
  | inr e ↦ rw e refl
]
other-called k id exclude (some h) rest n = elim (Bool-cases (str_eq k exclude)) [
  | inl e ↦ rw e refl
  | inr e ↦ rw (e, n) refl
]

lookup-called :
    (mailbox_id id exclude : String) (subs : GoMap Subscription)
    → IsMailbox mailbox_id subs
    → lookup id (called exclude subs)
      ≡ (if str_eq id exclude then none else handler_of (lookup id subs))
unfolding called lookup
lookup-called mailbox_id id exclude [] h = ground arith
lookup-called mailbox_id id exclude ((k, sub) ∷ subs) ((u, v), (home, a)) =
    let open_sub : sub.closed ≡ false = home.2 in
    elim (Bool-cases (str_eq k id)) [
      | inl e ↦
          let k≡id : k ≡ id = (eq_iff k id).0 e in
          let n : lookup id (called exclude subs) ≡ none =
            rw (← k≡id) (lookup-called_absent k exclude subs u) in
          rw (e, open_sub) (first-called_at k id exclude sub.handler (called exclude subs) k≡id n)
      | inr e ↦
          rw (e, open_sub)
            (other-called k id exclude sub.handler (called exclude subs) e
              ∙ lookup-called mailbox_id id exclude subs (v, a))
    ]

notify-calls :
    (now : ℕ) (notification : Notification) (exclude : String) (ns : NotifyService)
    → (notify now notification exclude ns).1
      ≡ called exclude (mailbox_subs notification.mailbox_id ns.subscriptions)
unfolding notify mailbox_subs
notify-calls now notification exclude ns =
    elim (Option-cases (lookup notification.mailbox_id ns.subscriptions)) [
      | inl h ↦ unfold called in rw (notify, mailbox_subs, h) refl
      | inr (subs, h) ↦ rw (notify, mailbox_subs, h) refl
    ]

-- A notification calls, of the subscribers of its mailbox, exactly those but the excluded one that
-- have a handler, each with its own handler; it leaves every subscription as it was.
pub notify_reaches :
    (now : ℕ) (notification : Notification) (exclude id : String) (ns : NotifyService)
    → IsWellFormed ns
    → let r = notify now notification exclude ns in
      (lookup id r.1 ≡ (
        if str_eq id exclude then none else handler_of (subscriber id notification.mailbox_id ns)))
      × (r.0.subscriptions ≡ ns.subscriptions)
unfolding subscriber
notify_reaches now notification exclude id ns w = (
  rw (notify-calls now notification exclude ns, subscriber)
      (lookup-called notification.mailbox_id id exclude
        (mailbox_subs notification.mailbox_id ns.subscriptions)
        (mailbox_subs-IsMailbox notification.mailbox_id ns.subscriptions w)),
  notify-subscriptions now notification exclude ns,
)
