-- ===== src/Imap/Flags/Laws.antt =====
-- Which flags a set holds after each operation, and when two sets are equal.
use yunt.Prelude.{
  ◌≡◌, refl, String, Bool, true, false, not, ◌&&◌, ◌||◌, List, [], ◌∷◌, arith, if◌then◌else◌,
  str_eq, map,
}
use yunt.Prelude.Maps.{
  GoMap, UniqueKeys, lookup, insert, delete, lookup-insert, lookup-delete, insert-UniqueKeys,
  delete-UniqueKeys,
}
use yunt.Domain.Message.{Message}
use yunt.Imap.Flags.{
  flag_seen, flag_answered, flag_flagged, flag_deleted, flag_draft, FlagSet, new_flag_set, add,
  remove, has, to_slice, add_all, remove_all, replace, clone, is_seen, new_flag_set_from_message,
}

pub has-add : (f g : String) (fs : FlagSet) → has g (add f fs) ≡ str_eq f g || has g fs
unfolding has add
has-add f g fs = ground (arith, lookup-insert f g true fs.flags)

pub has-remove : (f g : String) (fs : FlagSet) → has g (remove f fs) ≡ not (str_eq f g) && has g fs
unfolding has remove
has-remove f g fs = ground (arith, lookup-delete f g fs.flags)

unfoldable pub mem : String → List String → Bool
mem g [] = false
mem g (f ∷ flags) = str_eq f g || mem g flags

pub has-add_all :
    (g : String) (flags : List String) (fs : FlagSet)
    → has g (add_all flags fs) ≡ mem g flags || has g fs
unfolding add_all mem
has-add_all g [] fs = refl
has-add_all g (f ∷ flags) fs = ground (arith, has-add_all g flags (add f fs), has-add f g fs)

pub has-remove_all :
    (g : String) (flags : List String) (fs : FlagSet)
    → has g (remove_all flags fs) ≡ not (mem g flags) && has g fs
unfolding remove_all mem
has-remove_all g [] fs = refl
has-remove_all g (f ∷ flags) fs =
    ground (arith, has-remove_all g flags (remove f fs), has-remove f g fs)

has-new_flag_set : (g : String) → has g new_flag_set ≡ false
unfolding has lookup
has-new_flag_set g = refl

pub has-replace :
    (g : String) (flags : List String) (fs : FlagSet) → has g (replace flags fs) ≡ mem g flags
unfolding replace
has-replace g flags fs = ground (arith, has-add_all g flags new_flag_set, has-new_flag_set g)

-- Every key of the map is mapped to `true`, and none stands twice.
abbrev pub AllTrue : GoMap Bool → Type 0
AllTrue [] = Unit
AllTrue ((f, b) ∷ m) = (b ≡ true) × AllTrue m

pub record IsFlagSet (fs : FlagSet) : Type 0 where
  pub members : AllTrue fs.flags
  pub unique : UniqueKeys fs.flags

mem-keys :
    (g : String) (m : GoMap Bool)
    → AllTrue m
    → mem g (map (λ p. p.0) m) ≡ has g (record { flags = m })
unfolding mem has lookup
mem-keys g [] t = refl
mem-keys g ((f, b) ∷ m) t = ground (arith, mem-keys g m t.1)

-- A copy has the same flags.
pub has-clone : (g : String) (fs : FlagSet) → IsFlagSet fs → has g (clone fs) ≡ has g fs
unfolding clone to_slice
has-clone g fs v = ground (
  arith,
  has-add_all g (map (λ p. p.0) fs.flags) new_flag_set,
  has-new_flag_set g,
  mem-keys g fs.flags v.members,
)

insert-AllTrue : (f : String) (m : GoMap Bool) → AllTrue m → AllTrue (insert f true m)
unfolding insert
insert-AllTrue f [] t = (refl, tt)
insert-AllTrue f ((g, b) ∷ m) t = ground (arith, insert-AllTrue f m t.1)

pub add-IsFlagSet : (f : String) (fs : FlagSet) → IsFlagSet fs → IsFlagSet (add f fs)
unfolding add
add-IsFlagSet f fs v = record {
  members = insert-AllTrue f fs.flags v.members;
  unique = insert-UniqueKeys f true fs.flags v.unique;
}

delete-AllTrue : (f : String) (m : GoMap Bool) → AllTrue m → AllTrue (delete f m)
unfolding delete
delete-AllTrue f [] t = tt
delete-AllTrue f ((g, b) ∷ m) t = ground (arith, delete-AllTrue f m t.1)

remove-IsFlagSet : (f : String) (fs : FlagSet) → IsFlagSet fs → IsFlagSet (remove f fs)
unfolding remove
remove-IsFlagSet f fs v = record {
  members = delete-AllTrue f fs.flags v.members;
  unique = delete-UniqueKeys f fs.flags v.unique;
}

pub remove_all-IsFlagSet :
    (flags : List String) (fs : FlagSet) → IsFlagSet fs → IsFlagSet (remove_all flags fs)
unfolding remove_all
remove_all-IsFlagSet [] fs v = v
remove_all-IsFlagSet (f ∷ flags) fs v =
    remove_all-IsFlagSet flags (remove f fs) (remove-IsFlagSet f fs v)

pub new_flag_set-IsFlagSet : IsFlagSet new_flag_set
new_flag_set-IsFlagSet = record { members = tt; unique = tt }

pub add_all-IsFlagSet :
    (flags : List String) (fs : FlagSet) → IsFlagSet fs → IsFlagSet (add_all flags fs)
unfolding add_all
add_all-IsFlagSet [] fs v = v
add_all-IsFlagSet (f ∷ flags) fs v = add_all-IsFlagSet flags (add f fs) (add-IsFlagSet f fs v)

add_if-IsFlagSet :
    (b : Bool) (f : String) (fs : FlagSet) → IsFlagSet fs → IsFlagSet (if b then add f fs else fs)
add_if-IsFlagSet true f fs v = add-IsFlagSet f fs v
add_if-IsFlagSet false f fs v = v

pub from_message-IsFlagSet : (msg : Message) → IsFlagSet (new_flag_set_from_message msg)
unfolding new_flag_set_from_message
from_message-IsFlagSet msg = add_if-IsFlagSet msg.is_answered flag_answered _ (
    add_if-IsFlagSet msg.is_draft flag_draft _ (
      add_if-IsFlagSet msg.is_deleted flag_deleted _ (
        add_if-IsFlagSet msg.is_starred flag_flagged _
          (add_if-IsFlagSet (is_seen msg.status) flag_seen _ new_flag_set-IsFlagSet))))

-- The five flags of a message.
pub record HasFlagsOf (msg : Message) (fs : FlagSet) : Type 0 where
  pub seen : has flag_seen fs ≡ is_seen msg.status
  pub flagged : has flag_flagged fs ≡ msg.is_starred
  pub is_deleted : has flag_deleted fs ≡ msg.is_deleted
  pub is_draft : has flag_draft fs ≡ msg.is_draft
  pub answered : has flag_answered fs ≡ msg.is_answered

pub from_message-HasFlagsOf : (msg : Message) → HasFlagsOf msg (new_flag_set_from_message msg)
unfolding new_flag_set_from_message has add lookup insert
from_message-HasFlagsOf msg = record {
  seen = ground arith;
  flagged = ground arith;
  is_deleted = ground arith;
  is_draft = ground arith;
  answered = ground arith;
}
