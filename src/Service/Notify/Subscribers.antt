-- ===== src/Service/Notify/Subscribers.antt =====
-- Who is subscribed to which mailbox, after each operation.
use yunt.Prelude.{
  ℕ, ◌≡◌, refl, inl, inr, String, Bool, ◌&&◌, Option, none, some, [], arith, if◌then◌else◌, str_eq,
  eq_iff, Bool-cases, Option-cases,
}
use yunt.Prelude.Maps.{GoMap, lookup, insert, delete, lookup-insert, lookup-delete, UniqueKeys}
use yunt.Service.Notify.Everywhere.{is_none_left-empty, lookup-drop_everywhere}
use yunt.Service.Notify.{
  Subscription, Subscriptions, NotifyService, mailbox_subs, subscribe, is_none_left, drop_sub,
  unsubscribe, unsubscribe_by_id, close,
}

unfoldable pub subscriber : String → String → NotifyService → Option Subscription
unfolding mailbox_subs
subscriber id mailbox_id ns = lookup id (mailbox_subs mailbox_id ns.subscriptions)

abbrev pub is_pair : String → String → String → String → Bool
is_pair id mailbox_id other mailbox_id' = str_eq id other && str_eq mailbox_id mailbox_id'

pub mailbox_subs-insert :
    (k j : String) (subs : GoMap Subscription) (m : Subscriptions)
    → mailbox_subs j (insert k subs m) ≡ (if str_eq k j then subs else mailbox_subs j m)
unfolding mailbox_subs
mailbox_subs-insert k j subs m = elim (Bool-cases (str_eq k j)) [
  | inl h ↦ rw (mailbox_subs, lookup-insert k j subs m, h) refl
  | inr h ↦ rw (mailbox_subs, lookup-insert k j subs m, h) refl
]

pub mailbox_subs-delete :
    (k j : String) (m : Subscriptions)
    → mailbox_subs j (delete k m) ≡ (if str_eq k j then [] else mailbox_subs j m)
unfolding mailbox_subs
mailbox_subs-delete k j m = elim (Bool-cases (str_eq k j)) [
  | inl h ↦ rw (mailbox_subs, lookup-delete k j m, h) refl
  | inr h ↦ rw (mailbox_subs, lookup-delete k j m, h) refl
]

mailbox_subs-drop_sub :
    (id k j : String) (subs : GoMap Subscription) (m : Subscriptions)
    → mailbox_subs j (drop_sub id k subs m)
      ≡ (if str_eq k j then delete id subs else mailbox_subs j m)
unfolding drop_sub
mailbox_subs-drop_sub id k j subs m = elim (Bool-cases (is_none_left (delete id subs))) [
  | inl h ↦
      rw (drop_sub, h, mailbox_subs-delete k j m, ← is_none_left-empty (delete id subs) h) refl
  | inr h ↦ rw (drop_sub, h, mailbox_subs-insert k j (delete id subs) m) refl
]

-- Looking a subscription up in the maps.
module _ (other mailbox_id' id mailbox_id : String) (m : Subscriptions) where
  lookup-subscribed :
      (sub : Subscription)
      → lookup other (
          mailbox_subs mailbox_id'
            (insert mailbox_id (insert id sub (mailbox_subs mailbox_id m)) m))
        ≡ (if is_pair id mailbox_id other mailbox_id'
            then some sub
            else lookup other (mailbox_subs mailbox_id' m))
  lookup-subscribed sub =
      let subs = mailbox_subs mailbox_id m in
      let there = mailbox_subs-insert mailbox_id mailbox_id' (insert id sub subs) m in
      elim (Bool-cases (str_eq mailbox_id mailbox_id')) [
        | inl h ↦
            let e : mailbox_id ≡ mailbox_id' = (eq_iff mailbox_id mailbox_id').0 h in
            rw (there, h, lookup-insert id other sub subs, ← e) (ground arith)
        | inr h ↦ rw (there, h) (ground arith)
      ]

  lookup-dropped :
      lookup other (mailbox_subs mailbox_id' (drop_sub id mailbox_id (mailbox_subs mailbox_id m) m))
      ≡ (if is_pair id mailbox_id other mailbox_id'
          then none
          else lookup other (mailbox_subs mailbox_id' m))
  lookup-dropped =
      let subs = mailbox_subs mailbox_id m in
      let there = mailbox_subs-drop_sub id mailbox_id mailbox_id' subs m in
      elim (Bool-cases (str_eq mailbox_id mailbox_id')) [
        | inl h ↦
            let e : mailbox_id ≡ mailbox_id' = (eq_iff mailbox_id mailbox_id').0 h in
            rw (there, h, lookup-delete id other subs, ← e) (ground arith)
        | inr h ↦ rw (there, h) (ground arith)
      ]

  lookup-absent :
      lookup id (mailbox_subs mailbox_id m) ≡ none
      → lookup other (mailbox_subs mailbox_id' m) ≡ (
          if is_pair id mailbox_id other mailbox_id'
          then none
          else lookup other (mailbox_subs mailbox_id' m))
  lookup-absent h = elim (Bool-cases (is_pair id mailbox_id other mailbox_id')) [
    | inl k ↦
        let e : mailbox_id ≡ mailbox_id' = (eq_iff mailbox_id mailbox_id').0 (ground arith) in
        let f : id ≡ other = (eq_iff id other).0 (ground arith) in
        let n : lookup other (mailbox_subs mailbox_id' m) ≡ none = rw (← e, ← f) h in ground arith
    | inr k ↦ rw k refl
  ]

pub unsubscribe-absent :
    (id mailbox_id : String) (ns : NotifyService)
    → lookup id (mailbox_subs mailbox_id ns.subscriptions) ≡ none
    → unsubscribe id mailbox_id ns ≡ (ns, [])
unfolding unsubscribe
unsubscribe-absent id mailbox_id ns h = rw (unsubscribe, h) refl

pub unsubscribe-present :
    (id mailbox_id : String) (ns : NotifyService) (sub : Subscription)
    → lookup id (mailbox_subs mailbox_id ns.subscriptions) ≡ some sub
    → (unsubscribe id mailbox_id ns).0.subscriptions
      ≡ drop_sub id mailbox_id (mailbox_subs mailbox_id ns.subscriptions) ns.subscriptions
unfolding unsubscribe
unsubscribe-present id mailbox_id ns sub h = rw (unsubscribe, h) refl

module _ (other mailbox_id' : String) where
  subscriber-subscribe :
      (now : ℕ) (id mailbox_id user_id : String) (handler : Option String) (ns : NotifyService)
      → let r = subscribe now id mailbox_id user_id handler ns in
        subscriber other mailbox_id' r.0 ≡ (
          if is_pair id mailbox_id other mailbox_id'
          then some r.1
          else subscriber other mailbox_id' ns)
  unfolding subscriber subscribe
  subscriber-subscribe now id mailbox_id user_id handler ns =
      lookup-subscribed other mailbox_id' id mailbox_id ns.subscriptions
        (subscribe now id mailbox_id user_id handler ns).1

  subscriber-unsubscribe :
      (id mailbox_id : String) (ns : NotifyService)
      → subscriber other mailbox_id' (unsubscribe id mailbox_id ns).0 ≡ (
          if is_pair id mailbox_id other mailbox_id' then none else subscriber other mailbox_id' ns)
  unfolding subscriber
  subscriber-unsubscribe id mailbox_id ns =
      elim (Option-cases (lookup id (mailbox_subs mailbox_id ns.subscriptions))) [
        | inl h ↦
            rw (subscriber, unsubscribe-absent id mailbox_id ns h)
              (lookup-absent other mailbox_id' id mailbox_id ns.subscriptions h)
        | inr (sub, h) ↦
            rw (subscriber, unsubscribe-present id mailbox_id ns sub h)
              (lookup-dropped other mailbox_id' id mailbox_id ns.subscriptions)
      ]

  subscriber-unsubscribe_by_id :
      (id : String) (ns : NotifyService)
      → UniqueKeys ns.subscriptions
      → subscriber other mailbox_id' (unsubscribe_by_id id ns).0
        ≡ (if str_eq id other then none else subscriber other mailbox_id' ns)
  unfolding subscriber unsubscribe_by_id
  subscriber-unsubscribe_by_id id ns u =
      lookup-drop_everywhere id other mailbox_id' ns.subscriptions u

  subscriber-close : (ns : NotifyService) → subscriber other mailbox_id' (close ns).0 ≡ none
  unfolding subscriber close mailbox_subs lookup
  subscriber-close ns = refl

-- Who is subscribed, after each operation. A subscription is found under its id and its mailbox, in
-- the place of an earlier one with both; unsubscribing takes this one away, by the id alone those of
-- every mailbox, where no mailbox stands twice; and closing takes all. No other is touched.
pub subscriber-after :
    (other mailbox_id' : String) (ns : NotifyService)
    → UniqueKeys ns.subscriptions
    → (now : ℕ) (id mailbox_id user_id : String) (handler : Option String)
    → let before = subscriber other mailbox_id' ns in
      let subscribed = subscribe now id mailbox_id user_id handler ns in
      let it = is_pair id mailbox_id other mailbox_id' in
      (subscriber other mailbox_id' subscribed.0 ≡ (if it then some subscribed.1 else before))
      × (subscriber other mailbox_id' (unsubscribe id mailbox_id ns).0
          ≡ (if it then none else before))
      × (subscriber other mailbox_id' (unsubscribe_by_id id ns).0
          ≡ (if str_eq id other then none else before))
      × (subscriber other mailbox_id' (close ns).0 ≡ none)
subscriber-after other mailbox_id' ns u now id mailbox_id user_id handler = (
  subscriber-subscribe other mailbox_id' now id mailbox_id user_id handler ns,
  subscriber-unsubscribe other mailbox_id' id mailbox_id ns,
  subscriber-unsubscribe_by_id other mailbox_id' id ns u,
  subscriber-close other mailbox_id' ns,
)
