-- ===== src/Service/Notify/Everywhere.antt =====
-- The loop of `UnsubscribeByID`: what is left of the mailboxes, and how many subscriptions it closes.
use yunt.Prelude.{
  ◌≡◌, refl, ◌∙◌, inl, inr, String, true, false, none, some, [], ◌∷◌, arith, if◌then◌else◌, str_eq,
  eq_iff, Bool-cases, Option-cases,
}
use yunt.Prelude.Maps.{GoMap, lookup, delete, lookup-delete, UniqueKeys}
use yunt.Service.Notify.{
  Subscription, Subscriptions, mailbox_subs, is_none_left, drop_everywhere, close_subscription,
}

pub is_none_left-empty : (subs : GoMap Subscription) → is_none_left subs ≡ true → [] ≡ subs
is_none_left-empty [] h = refl
is_none_left-empty (s ∷ subs) h = cc

module _ (mailbox_id : String) (subs : GoMap Subscription) (m : Subscriptions) where
  mailbox_subs-head :
      (j : String) → str_eq mailbox_id j ≡ true → mailbox_subs j ((mailbox_id, subs) ∷ m) ≡ subs
  unfolding mailbox_subs lookup
  mailbox_subs-head j h = rw h refl

  mailbox_subs-tail :
      (j : String)
      → str_eq mailbox_id j ≡ false
      → mailbox_subs j ((mailbox_id, subs) ∷ m) ≡ mailbox_subs j m
  unfolding mailbox_subs lookup
  mailbox_subs-tail j h = rw h refl

  module _ (id : String) where
    pub drop_everywhere-keeps :
        lookup id subs ≡ none
        → drop_everywhere id ((mailbox_id, subs) ∷ m)
          ≡ ((mailbox_id, subs) ∷ (drop_everywhere id m).0, (drop_everywhere id m).1)
    unfolding drop_everywhere
    drop_everywhere-keeps h = rw (drop_everywhere, h) refl

    pub drop_everywhere-empties :
        (sub : Subscription)
        → lookup id subs ≡ some sub
        → is_none_left (delete id subs) ≡ true
        → drop_everywhere id ((mailbox_id, subs) ∷ m)
          ≡ ((drop_everywhere id m).0, close_subscription sub ∷ (drop_everywhere id m).1)
    unfolding drop_everywhere
    drop_everywhere-empties sub h k = rw (drop_everywhere, h, k) refl

    pub drop_everywhere-leaves :
        (sub : Subscription)
        → lookup id subs ≡ some sub
        → is_none_left (delete id subs) ≡ false
        → drop_everywhere id ((mailbox_id, subs) ∷ m) ≡ (
          (mailbox_id, delete id subs) ∷ (drop_everywhere id m).0,
          close_subscription sub ∷ (drop_everywhere id m).1,
        )
    unfolding drop_everywhere
    drop_everywhere-leaves sub h k = rw (drop_everywhere, h, k) refl

mailbox_subs-absent : (j : String) (m : Subscriptions) → lookup j m ≡ none → mailbox_subs j m ≡ []
unfolding mailbox_subs
mailbox_subs-absent j m h = rw h refl

lookup-missing :
    (id k : String) (subs : GoMap Subscription)
    → lookup id subs ≡ none
    → lookup k subs ≡ (if str_eq id k then none else lookup k subs)
lookup-missing id k subs h = elim (Bool-cases (str_eq id k)) [
  | inl e ↦
      let id≡k : id ≡ k = (eq_iff id k).0 e in
      let n : lookup k subs ≡ none = rw (← id≡k) h in rw (e, n) refl
  | inr e ↦ rw e refl
]

-- The look-ups after the loop, by what it does to the first mailbox.
module _ (id k j mailbox_id : String) (subs : GoMap Subscription) (m rest : Subscriptions)
    (ih : lookup k (mailbox_subs j rest)
      ≡ (if str_eq id k then none else lookup k (mailbox_subs j m))) where
  lookup-cons :
      (subs' : GoMap Subscription)
      → lookup k subs' ≡ (if str_eq id k then none else lookup k subs)
      → lookup k (mailbox_subs j ((mailbox_id, subs') ∷ rest))
        ≡ (if str_eq id k then none else lookup k (mailbox_subs j ((mailbox_id, subs) ∷ m)))
  lookup-cons subs' h = elim (Bool-cases (str_eq mailbox_id j)) [
    | inl e ↦
        rw (mailbox_subs-head mailbox_id subs' rest j e, mailbox_subs-head mailbox_id subs m j e) h
    | inr e ↦
        rw (mailbox_subs-tail mailbox_id subs' rest j e, mailbox_subs-tail mailbox_id subs m j e) ih
  ]

  lookup-emptied :
      lookup mailbox_id m ≡ none
      → is_none_left (delete id subs) ≡ true
      → lookup k (mailbox_subs j rest)
        ≡ (if str_eq id k then none else lookup k (mailbox_subs j ((mailbox_id, subs) ∷ m)))
  lookup-emptied u h = elim (Bool-cases (str_eq mailbox_id j)) [
    | inl e ↦
        let mb≡j : mailbox_id ≡ j = (eq_iff mailbox_id j).0 e in
        let none_there : lookup j m ≡ none = rw (← mb≡j) u in
        rw
          (
            mailbox_subs-head mailbox_id subs m j e,
            ← lookup-delete id k subs,
            ← is_none_left-empty (delete id subs) h,
          )
          (ih ∙ rw (mailbox_subs-absent j m none_there) (unfold lookup in ground arith))
    | inr e ↦ rw (mailbox_subs-tail mailbox_id subs m j e) ih
  ]

pub lookup-drop_everywhere :
    (id k j : String) (m : Subscriptions)
    → UniqueKeys m
    → lookup k (mailbox_subs j (drop_everywhere id m).0)
      ≡ (if str_eq id k then none else lookup k (mailbox_subs j m))
lookup-drop_everywhere id k j [] u = unfold drop_everywhere mailbox_subs lookup in ground arith
lookup-drop_everywhere id k j ((mailbox_id, subs) ∷ m) u = elim (Option-cases (lookup id subs)) [
  | inl h ↦ rw (drop_everywhere-keeps mailbox_id subs m id h) (
      lookup-cons id k j mailbox_id subs m (drop_everywhere id m).0
        (lookup-drop_everywhere id k j m u.1) subs (lookup-missing id k subs h))
  | inr (sub, h) ↦ elim (Bool-cases (is_none_left (delete id subs))) [
    | inl e ↦ rw (drop_everywhere-empties mailbox_id subs m id sub h e) (
        lookup-emptied id k j mailbox_id subs m (drop_everywhere id m).0
          (lookup-drop_everywhere id k j m u.1) u.0 e)
    | inr e ↦ rw (drop_everywhere-leaves mailbox_id subs m id sub h e) (
        lookup-cons id k j mailbox_id subs m (drop_everywhere id m).0
          (lookup-drop_everywhere id k j m u.1) (delete id subs) (lookup-delete id k subs))
  ]
]
