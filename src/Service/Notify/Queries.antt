-- ===== src/Service/Notify/Queries.antt =====
-- What internal/service/notify.go tells about its subscriptions.
use yunt.Prelude.{
  ℕ, ◌+◌, String, Bool, false, none, some, List, [], ◌∷◌, ◌++◌, ltb, if◌then◌else◌, str_eq, length,
}
use yunt.Prelude.Maps.{GoMap, lookup}
use yunt.Service.Notify.{Subscription, Subscriptions, NotifyService}

unfoldable pub get_subscription_count : String → NotifyService → ℕ
get_subscription_count mailbox_id ns = elim (lookup mailbox_id ns.subscriptions) [
  | none ↦ 0
  | some subs ↦ length subs
]

unfoldable pub count_all : Subscriptions → ℕ
count_all [] = 0
count_all ((mailbox_id, subs) ∷ m) = length subs + count_all m

unfoldable pub get_total_subscriptions : NotifyService → ℕ
unfolding count_all
get_total_subscriptions ns = count_all ns.subscriptions

unfoldable pub has_subscribers : String → NotifyService → Bool
has_subscribers mailbox_id ns = elim (lookup mailbox_id ns.subscriptions) [
  | none ↦ false
  | some subs ↦ ltb 0 (length subs)
]

unfoldable pub ids_of_user : String → GoMap Subscription → List String
ids_of_user user_id [] = []
ids_of_user user_id ((sub_id, sub) ∷ subs) =
    let rest = ids_of_user user_id subs in
    if str_eq sub.user_id user_id then sub_id ∷ rest else rest

unfoldable pub subscribers_of : String → Subscriptions → List String
unfolding ids_of_user
subscribers_of user_id [] = []
subscribers_of user_id ((mailbox_id, subs) ∷ m) =
    ids_of_user user_id subs ++ subscribers_of user_id m

unfoldable pub get_subscribers_for_user : String → NotifyService → List String
unfolding subscribers_of
get_subscribers_for_user user_id ns = subscribers_of user_id ns.subscriptions
