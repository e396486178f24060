-- ===== src/Examples/Mailboxes.antt =====
-- The flags of a message and the EXPUNGE of internal/imap.
use yunt.Prelude.{
  zero, suc, ℕ, ◌≡◌, ◌↔◌, refl, String, Bool, true, false, none, List, [], ◌∷◌, ◌++◌, arith,
}
use yunt.Prelude.Maps.{lookup, insert}
use yunt.Domain.Message.{Message, new_message}
use yunt.Imap.Flags.{
  FlagSet, flag_seen, flag_deleted, has_changes, new_flag_set_from_message, changed, is_now, has,
  equal, new_flag_set,
}
use yunt.Imap.Flags.Laws.{IsFlagSet, new_flag_set-IsFlagSet}
use yunt.Imap.Flags.Equality.{equal_iff}
use yunt.Imap.Store.{
  persist_flag_changes, StoreFlags, store_flags_add, RepoCall, StoreState, apply_flag_operation,
  store_loop,
}
use yunt.Imap.Store.Loop.{AllStored, all_responses, store_loop-AllStored}
use yunt.Imap.Expunge.{expunge}
use yunt.Imap.Expunge.View.{follow, survivors, follow-expunge}

abbrev plain : String → Message
plain id = new_message 0 id "inbox"

abbrev marked : String → Message
marked id = let m = plain id in record m { is_deleted = true }

abbrev seen_only : FlagSet
seen_only = record { flags = (flag_seen, true) ∷ [] }

seen_only-IsFlagSet : IsFlagSet seen_only
unfolding lookup
seen_only-IsFlagSet = record { members = (refl, tt); unique = (refl, tt) }

equal_iff_example :
    (equal seen_only new_flag_set ≡ true) ↔ ((g : String) → has g seen_only ≡ has g new_flag_set)
equal_iff_example = equal_iff seen_only new_flag_set seen_only-IsFlagSet new_flag_set-IsFlagSet

abbrev always_ok : List RepoCall → RepoCall → Bool
always_ok calls c = false

abbrev add_deleted : StoreFlags
add_deleted = record { op = store_flags_add; silent = false; flags = flag_deleted ∷ [] }

abbrev start : StoreState
start = record { messages = []; calls = []; changes = []; responses = []; error = none }

abbrev two : List (ℕ × Message)
two = (1, plain "m1") ∷ (2, marked "m2") ∷ []

two_stored : (store_loop always_ok add_deleted two start).error ≡ none
unfolding store_loop has_changes equal new_flag_set_from_message new_message apply_flag_operation
    insert persist_flag_changes changed lookup is_now
two_stored = refl

store_loop-AllStored_example :
    (ys : List (ℕ × Message)) × ((store_loop always_ok add_deleted two start).messages ≡ [] ++ ys)
    × AllStored add_deleted two ys
    × ((store_loop always_ok add_deleted two start).responses ≡ all_responses add_deleted two [])
store_loop-AllStored_example = store_loop-AllStored always_ok add_deleted two start two_stored

abbrev listed : List Message
listed = marked "m1" ∷ plain "m2" ∷ marked "m3" ∷ []

abbrev third_fails : ℕ → Bool
third_fails zero = false
third_fails (suc zero) = false
third_fails (suc (suc n)) = true

written_numbers : expunge third_fails none listed ≡ 1 ∷ []
unfolding expunge new_message
written_numbers = refl

follow-expunge_example :
    follow (expunge third_fails none listed) listed ≡ survivors third_fails none 0 listed
follow-expunge_example = follow-expunge third_fails none listed (omega arith)
