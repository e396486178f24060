-- ===== src/Imap/Flags.antt =====
-- internal/imap/flags.go: sets of flags, and the change of a message's flags.
pub mod Laws
pub mod Equality
use yunt.Prelude.{
  ℕ, String, Bool, true, false, not, ◌&&◌, ◌||◌, Option, none, some, List, [], ◌∷◌, ◌==◌,
  if◌then◌else◌, str_eq, length, map,
}
use yunt.Prelude.Maps.{GoMap, lookup, insert, delete}
use yunt.Domain.Message.{Message, MessageStatus, message_read, message_unread}

abbrev pub flag_seen : String
flag_seen = "\\Seen"

abbrev pub flag_answered : String
flag_answered = "\\Answered"

abbrev pub flag_flagged : String
flag_flagged = "\\Flagged"

abbrev pub flag_deleted : String
flag_deleted = "\\Deleted"

abbrev pub flag_draft : String
flag_draft = "\\Draft"

-- `map[imap.Flag]bool`
pub record FlagSet : Type 0 where
  pub flags : GoMap Bool

abbrev pub new_flag_set : FlagSet
new_flag_set = record { flags = [] }

unfoldable pub add : String → FlagSet → FlagSet
add flag fs = record { flags = insert flag true fs.flags }

unfoldable pub remove : String → FlagSet → FlagSet
remove flag fs = record { flags = delete flag fs.flags }

unfoldable pub has : String → FlagSet → Bool
has flag fs = elim (lookup flag fs.flags) [ none ↦ false | some b ↦ b ]

-- The keys; Go's order of a map's keys is arbitrary, and here it is the list's.
unfoldable pub to_slice : FlagSet → List String
to_slice fs = map (λ p. p.0) fs.flags

unfoldable pub add_all : List String → FlagSet → FlagSet
unfolding add
add_all [] fs = fs
add_all (f ∷ flags) fs = add_all flags (add f fs)

unfoldable pub remove_all : List String → FlagSet → FlagSet
unfolding remove
remove_all [] fs = fs
remove_all (f ∷ flags) fs = remove_all flags (remove f fs)

unfoldable pub replace : List String → FlagSet → FlagSet
unfolding add_all
replace flags fs = add_all flags new_flag_set

unfoldable pub new_flag_set_from_slice : List String → FlagSet
unfolding add_all
new_flag_set_from_slice flags = add_all flags new_flag_set

all_in : GoMap Bool → FlagSet → Bool
unfolding has
all_in [] other = true
all_in ((f, _) ∷ flags) other = has f other && all_in flags other

unfoldable pub equal : FlagSet → FlagSet → Bool
unfolding all_in
equal fs other = if length fs.flags == length other.flags then all_in fs.flags other else false

unfoldable pub clone : FlagSet → FlagSet
unfolding add_all to_slice
clone fs = add_all (to_slice fs) new_flag_set

abbrev add_if : Bool → String → FlagSet → FlagSet
add_if b flag fs = if b then add flag fs else fs

abbrev pub is_seen : MessageStatus → Bool
is_seen message_read = true
is_seen message_unread = false

unfoldable pub new_flag_set_from_message : Message → FlagSet
unfolding add
new_flag_set_from_message msg = add_if msg.is_answered flag_answered (
    add_if msg.is_draft flag_draft (
      add_if msg.is_deleted flag_deleted
        (add_if msg.is_starred flag_flagged (add_if (is_seen msg.status) flag_seen new_flag_set))))

pub record FlagChange : Type 0 where
  pub message_id : String
  pub seq_num : ℕ
  pub uid : ℕ
  pub old_flags : FlagSet
  pub new_flags : FlagSet

unfoldable pub has_changes : FlagChange → Bool
has_changes fc = not (equal fc.old_flags fc.new_flags)

-- `!=` on booleans
abbrev differ : Bool → Bool → Bool
differ true b = not b
differ false b = b

-- `SeenChanged`, `FlaggedChanged` and the others, at their flag
unfoldable pub changed : String → FlagChange → Bool
changed f fc = differ (has f fc.old_flags) (has f fc.new_flags)

-- `IsNowSeen`, `IsNowFlagged` and the others, at their flag
unfoldable pub is_now : String → FlagChange → Bool
is_now f fc = not (has f fc.old_flags) && has f fc.new_flags

-- `IsNowUnseen`, `IsNowUnflagged` and the others, at their flag
unfoldable pub is_now_not : String → FlagChange → Bool
is_now_not f fc = has f fc.old_flags && not (has f fc.new_flags)

unfoldable pub is_standard_flag : String → Bool
is_standard_flag flag =
    str_eq flag flag_seen
    || str_eq flag flag_answered
    || str_eq flag flag_flagged
    || str_eq flag flag_deleted
    || str_eq flag flag_draft

-- As the source has it: every flag passes.
unfoldable pub is_permanent_flag : String → Bool
is_permanent_flag flag = true

unfoldable pub filter_permanent_flags : List String → List String
unfolding is_permanent_flag
filter_permanent_flags [] = []
filter_permanent_flags (f ∷ flags) =
    let rest = filter_permanent_flags flags in if is_permanent_flag f then f ∷ rest else rest
