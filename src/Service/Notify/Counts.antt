-- ===== src/Service/Notify/Counts.antt =====
-- The statistics against the subscriptions that there are.
use yunt.Prelude.{
  ℕ, ◌≡◌, refl, ap, inl, inr, ◌+◌, ◌-◌, String, Option, none, some, [], ◌∷◌, arith, str_eq, eq_iff,
  length, Bool-cases, Option-cases,
}
use yunt.Prelude.Maps.{GoMap, lookup, insert, delete, UniqueKeys}
use yunt.Service.Notify.{
  Subscription, Subscriptions, NotifyService, mailbox_subs, subscribe, is_none_left, drop_sub,
  unsubscribe, drop_everywhere, unsubscribe_by_id, close,
}
use yunt.Service.Notify.Queries.{count_all, get_total_subscriptions}
use yunt.Service.Notify.Everywhere.{
  is_none_left-empty, drop_everywhere-keeps, drop_everywhere-empties, drop_everywhere-leaves,
}
use yunt.Service.Notify.Subscribers.{subscriber, unsubscribe-absent, unsubscribe-present}
use yunt.Service.Notify.Invariant.{IsWellFormed, IsValid, mailbox_subs-IsMailbox}

-- One where there is an entry, and none where there is not.
abbrev pub present {ℓ} : {A : Type ℓ} → Option A → ℕ
present none = 0
present (some a) = 1

length-insert :
    (id : String) (sub : Subscription) (subs : GoMap Subscription)
    → length (insert id sub subs) + present (lookup id subs) ≡ length subs + 1
unfolding insert lookup
length-insert id sub [] = refl
length-insert id sub ((j, s) ∷ subs) = elim (Bool-cases (str_eq j id)) [
  | inl h ↦ rw h (omega arith)
  | inr h ↦ rw h (omega (arith, length-insert id sub subs))
]

delete-absent {ℓ} :
    {V : Type ℓ} (id : String) (subs : GoMap V) → lookup id subs ≡ none → delete id subs ≡ subs
unfolding delete lookup
delete-absent id [] h = refl
delete-absent id ((j, s) ∷ subs) h = elim (Bool-cases (str_eq j id)) [
  | inl k ↦ ground arith
  | inr k ↦ rw k (ap (λ x. (j, s) ∷ x) (delete-absent id subs (ground arith)))
]

length-delete :
    (id : String) (subs : GoMap Subscription)
    → UniqueKeys subs
    → length (delete id subs) + present (lookup id subs) ≡ length subs
unfolding delete lookup
length-delete id [] u = refl
length-delete id ((j, s) ∷ subs) u = elim (Bool-cases (str_eq j id)) [
  | inl h ↦
      let e : j ≡ id = (eq_iff j id).0 h in
      let n : lookup id subs ≡ none = rw (← e) u.0 in rw (h, delete-absent id subs n) (omega arith)
  | inr h ↦ rw h (omega (arith, length-delete id subs u.1))
]

count_all-insert :
    (k : String) (subs : GoMap Subscription) (m : Subscriptions)
    → count_all (insert k subs m) + length (mailbox_subs k m) ≡ count_all m + length subs
unfolding count_all insert mailbox_subs lookup
count_all-insert k subs [] = omega arith
count_all-insert k subs ((j, s) ∷ m) = elim (Bool-cases (str_eq j k)) [
  | inl h ↦ rw h (omega arith)
  | inr h ↦ rw h (omega (arith, count_all-insert k subs m))
]

count_all-delete :
    (k : String) (m : Subscriptions)
    → UniqueKeys m
    → count_all (delete k m) + length (mailbox_subs k m) ≡ count_all m
unfolding count_all delete mailbox_subs lookup
count_all-delete k [] u = refl
count_all-delete k ((j, s) ∷ m) u = elim (Bool-cases (str_eq j k)) [
  | inl h ↦
      let e : j ≡ k = (eq_iff j k).0 h in
      let n : lookup k m ≡ none = rw (← e) u.0 in rw (h, delete-absent k m n) (omega arith)
  | inr h ↦ rw h (omega (arith, count_all-delete k m u.1))
]

count_all-drop_sub :
    (id k : String) (m : Subscriptions) (sub : Subscription)
    → IsValid m
    → lookup id (mailbox_subs k m) ≡ some sub
    → count_all (drop_sub id k (mailbox_subs k m) m) + 1 ≡ count_all m
unfolding drop_sub
count_all-drop_sub id k m sub v h =
    let subs = mailbox_subs k m in
    let one : length (delete id subs) + 1 ≡ length subs =
      rw (← length-delete id subs (mailbox_subs-IsMailbox k m v).0, h) refl in
    elim (Bool-cases (is_none_left (delete id subs))) [
      | inl e ↦
          let n : length (delete id subs) ≡ 0 = rw (← is_none_left-empty (delete id subs) e) refl in
          rw (drop_sub, e) (omega (arith, one, n, count_all-delete k m v.0))
      | inr e ↦ rw (drop_sub, e) (omega (arith, one, count_all-insert k (delete id subs) m))
    ]

count_all-drop_everywhere :
    (id : String) (m : Subscriptions)
    → IsValid m
    → count_all (drop_everywhere id m).0 + length (drop_everywhere id m).1 ≡ count_all m
unfolding count_all
count_all-drop_everywhere id [] v = unfold drop_everywhere in refl
count_all-drop_everywhere id ((k, subs) ∷ m) (u, a) =
    let ih = count_all-drop_everywhere id m (u.1, a.1) in
    let one = length-delete id subs a.0.1.0 in
    elim (Option-cases (lookup id subs)) [
      | inl l ↦ rw (drop_everywhere-keeps k subs m id l) (omega (arith, ih))
      | inr (sub, l) ↦
          let one' : length (delete id subs) + 1 ≡ length subs = rw (← one, l) refl in
          elim (Bool-cases (is_none_left (delete id subs))) [
            | inl e ↦
                let n : length (delete id subs) ≡ 0 =
                  rw (← is_none_left-empty (delete id subs) e) refl in
                rw (drop_everywhere-empties k subs m id sub l e) (omega (arith, ih, one', n))
            | inr e ↦ rw (drop_everywhere-leaves k subs m id sub l e) (omega (arith, ih, one'))
          ]
    ]

-- `ActiveSubscriptions` is so much more than the subscriptions that there are.
abbrev pub IsAhead : ℕ → NotifyService → Type 0
IsAhead d ns = ns.stats.active_subscriptions ≡ get_total_subscriptions ns + d

subscribe-IsAhead :
    (d now : ℕ) (id mailbox_id user_id : String) (handler : Option String) (ns : NotifyService)
    → IsAhead d ns
    → IsAhead
        (d + present (subscriber id mailbox_id ns))
        (subscribe now id mailbox_id user_id handler ns).0
unfolding subscribe subscriber get_total_subscriptions
subscribe-IsAhead d now id mailbox_id user_id handler ns h =
    let m = ns.subscriptions in
    let subs = mailbox_subs mailbox_id m in
    let sub = (subscribe now id mailbox_id user_id handler ns).1 in
    omega (arith, h, length-insert id sub subs, count_all-insert mailbox_id (insert id sub subs) m)

unsubscribe-active :
    (id mailbox_id : String) (ns : NotifyService) (sub : Subscription)
    → lookup id (mailbox_subs mailbox_id ns.subscriptions) ≡ some sub
    → (unsubscribe id mailbox_id ns).0.stats.active_subscriptions
      ≡ ns.stats.active_subscriptions - 1
unfolding unsubscribe
unsubscribe-active id mailbox_id ns sub h = rw (unsubscribe, h) refl

unsubscribe-IsAhead :
    (d : ℕ) (id mailbox_id : String) (ns : NotifyService)
    → IsWellFormed ns
    → IsAhead d ns
    → IsAhead d (unsubscribe id mailbox_id ns).0
unfolding get_total_subscriptions
unsubscribe-IsAhead d id mailbox_id ns w h =
    elim (Option-cases (lookup id (mailbox_subs mailbox_id ns.subscriptions))) [
      | inl l ↦ rw (unsubscribe-absent id mailbox_id ns l) h
      | inr (sub, l) ↦
          let dropped = count_all-drop_sub id mailbox_id ns.subscriptions sub w l in
          rw
            (
              get_total_subscriptions,
              unsubscribe-present id mailbox_id ns sub l,
              unsubscribe-active id mailbox_id ns sub l,
            )
            (omega (arith, dropped, h))
    ]

unsubscribe_by_id-IsAhead :
    (d : ℕ) (id : String) (ns : NotifyService)
    → IsWellFormed ns
    → IsAhead d ns
    → IsAhead d (unsubscribe_by_id id ns).0
unfolding unsubscribe_by_id get_total_subscriptions
unsubscribe_by_id-IsAhead d id ns w h =
    omega (arith, h, count_all-drop_everywhere id ns.subscriptions w)

-- `ActiveSubscriptions` counts the subscriptions that there are, and one more for every time that an
-- id was subscribed to a mailbox to which it was subscribed already: that replaces the subscription
-- but counts another, and only `Close` sets the count right again. So it is in a well-formed state
-- in which it is `d` ahead.
pub active_subscriptions-IsAhead :
    (d now : ℕ) (id mailbox_id user_id : String) (handler : Option String) (ns : NotifyService)
    → IsWellFormed ns
    → IsAhead d ns
    → IsAhead
        (d + present (subscriber id mailbox_id ns))
        (subscribe now id mailbox_id user_id handler ns).0
      × IsAhead d (unsubscribe id mailbox_id ns).0
      × IsAhead d (unsubscribe_by_id id ns).0
      × IsAhead 0 (close ns).0
active_subscriptions-IsAhead d now id mailbox_id user_id handler ns w h = (
  subscribe-IsAhead d now id mailbox_id user_id handler ns h,
  unsubscribe-IsAhead d id mailbox_id ns w h,
  unsubscribe_by_id-IsAhead d id ns w h,
  unfold close get_total_subscriptions count_all in refl,
)
