-- ===== src/Imap/Expunge.antt =====
-- internal/imap/expunge.go, and the sort of internal/imap/copy.go that it shares with MOVE. Each
-- sequence number is deleted once, so what the repository answers is a function of the number.
pub mod Sorting
pub mod View
use yunt.Prelude.{
  ℕ, zero, suc, ◌+◌, ◌%◌, ◌^◌, Bool, true, false, not, ◌&&◌, Option, none, some, List, [], ◌∷◌, ltb,
  if◌then◌else◌, length,
}
use yunt.Domain.Message.{Message}

-- The inner loop: the value at `i`, and what stays behind it.
unfoldable pub pass_desc : ℕ → List ℕ → ℕ × List ℕ
pass_desc x [] = (x, [])
pass_desc x (y ∷ ys) =
    let r = pass_desc (if ltb x y then y else x) ys in (r.0, (if ltb x y then x else y) ∷ r.1)

-- The outer loop, with the positions left as fuel.
unfoldable pub sort_from : ℕ → List ℕ → List ℕ
unfolding pass_desc
sort_from zero s = s
sort_from (suc n) [] = []
sort_from (suc n) (x ∷ xs) = let (y, ys) = pass_desc x xs in y ∷ sort_from n ys

unfoldable pub sort_uint32_desc : List ℕ → List ℕ
unfolding sort_from
sort_uint32_desc s = sort_from (length s) s

-- `uids` is the filter of UID EXPUNGE, `none` for a plain EXPUNGE.
abbrev pub passes : Option (ℕ → Bool) → ℕ → Bool
passes none uid = true
passes (some contains) uid = contains uid

-- `findDeletedMessages` from the index `i` on. The map from a number to its message is the listing.
unfoldable pub find_deleted_messages : Option (ℕ → Bool) → ℕ → List Message → List ℕ
find_deleted_messages uids i [] = []
find_deleted_messages uids i (msg ∷ all_messages) =
    let rest = find_deleted_messages uids (i + 1) all_messages in
    if passes uids msg.imap_uid && msg.is_deleted then ((i + 1) % 2 ^ 32) ∷ rest else rest

-- The loop of `Expunge`: a number is written to the client only if its deletion succeeds.
unfoldable pub delete_all : (ℕ → Bool) → List ℕ → List ℕ
delete_all fails [] = []
delete_all fails (seq_num ∷ rest) =
    let written = delete_all fails rest in if fails seq_num then written else seq_num ∷ written

-- The numbers that `Expunge` writes, in their order, for the listed messages.
unfoldable pub expunge : (ℕ → Bool) → Option (ℕ → Bool) → List Message → List ℕ
unfolding find_deleted_messages sort_uint32_desc delete_all
expunge fails uids all_messages =
    delete_all fails (sort_uint32_desc (find_deleted_messages uids 0 all_messages))
