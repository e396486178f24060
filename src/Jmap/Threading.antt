-- ===== src/Jmap/Threading.antt =====
-- internal/jmap/thread/threading.go: the thread of a message. The repository is the list of its
-- messages; `GetByMessageIDs` and `UpdateThreadID` are the queries of internal/repository/sqlite/message.go.
-- A map of thread ids is the list of its keys, whose order Go leaves open.
pub mod Merge
pub mod Winner
use Prim.Native.Char.{code}
use Prim.Native.String
use yunt.Prelude.{
  ℕ, ◌+◌, String, Bool, true, false, not, ◌&&◌, ◌||◌, Option, none, some, List, [], ◌∷◌, ◌++◌, ltb,
  ◌==◌, if◌then◌else◌, str_eq, map,
}
use yunt.Domain.Message.{Message}

abbrev pub is_bracket : ℕ → Bool
is_bracket c = (c == b'<') || (c == b'>')

unfoldable pub trim_left : String → String
trim_left String.[] = ""
trim_left (String.◌∷◌ c s) =
    let rest = trim_left s in if is_bracket (code c) then rest else String.◌∷◌ c s

abbrev is_empty : String → Bool
is_empty s = str_eq s ""

unfoldable pub trim_right : String → String
trim_right String.[] = ""
trim_right (String.◌∷◌ c s) =
    let rest = trim_right s in
    if is_empty rest && is_bracket (code c) then "" else String.◌∷◌ c rest

-- `strings.Trim(s, "<>")`
unfoldable pub trim : String → String
unfolding trim_left trim_right
trim s = trim_right (trim_left s)

unfoldable pub mem : String → List String → Bool
mem a [] = false
mem a (b ∷ bs) = str_eq b a || mem a bs

-- One round of the loop of `collectReferenceIDs`; the keys of `seen` are the ids collected so far.
unfoldable pub with_id : String → List String → List String
unfolding trim mem
with_id ref ids = let clean = trim ref in if mem clean ids then ids else ids ++ clean ∷ []

unfoldable pub with_ids : List String → List String → List String
unfolding with_id
with_ids [] ids = ids
with_ids (ref ∷ refs) ids = with_ids refs (with_id ref ids)

unfoldable pub collect_reference_ids : Message → List String
unfolding with_ids with_id
collect_reference_ids msg =
    with_ids msg.references (if is_empty msg.in_reply_to then [] else with_id msg.in_reply_to [])

-- `SELECT … WHERE message_id IN …`
unfoldable pub get_by_message_ids : List String → List Message → List Message
unfolding mem
get_by_message_ids ids [] = []
get_by_message_ids ids (m ∷ messages) =
    let rest = get_by_message_ids ids messages in if mem m.message_id ids then m ∷ rest else rest

unfoldable pub set_thread : ℕ → String → Message → Message
set_thread now t m = record m { thread_id = t; updated_at = now }

-- `UPDATE messages SET thread_id = …, updated_at = CURRENT_TIMESTAMP WHERE thread_id = …`
unfoldable pub update_thread_id : ℕ → String → String → List Message → List Message
unfolding set_thread
update_thread_id now old new [] = []
update_thread_id now old new (m ∷ messages) =
    (if str_eq m.thread_id old then set_thread now new m else m)
    ∷ update_thread_id now old new messages

-- The keys of `threadIDs`.
unfoldable pub thread_ids : List Message → List String
unfolding mem
thread_ids [] = []
thread_ids (m ∷ related) =
    let rest = thread_ids related in
    if is_empty m.thread_id || mem m.thread_id rest then rest else m.thread_id ∷ rest

-- `<` on texts
unfoldable pub text_lt : String → String → Bool
text_lt s String.[] = false
text_lt String.[] (String.◌∷◌ d t) = true
text_lt (String.◌∷◌ c s) (String.◌∷◌ d t) =
    let rest = text_lt s t in ltb (code c) (code d) || ((code c == code d) && rest)

-- The first of the sorted ids, the least.
unfoldable pub pick_winner : String → List String → String
unfolding text_lt
pick_winner t [] = t
pick_winner t (u ∷ ids) = pick_winner (if text_lt u t then u else t) ids

-- The loop that merges. It stops at an error of the repository, which `fails` tells; `clock` is the
-- time of the update of a thread.
unfoldable pub merge :
    (String → ℕ) → (String → Bool) → String → List String → List Message → List Message × Bool
unfolding update_thread_id
merge clock fails winner [] messages = (messages, true)
merge clock fails winner (tid ∷ ids) messages =
    let skipped = merge clock fails winner ids messages in
    let merged = merge clock fails winner ids (update_thread_id (clock tid) tid winner messages) in
    if str_eq tid winner then skipped else if fails tid then (messages, false) else merged

unfoldable pub resolved :
    (String → ℕ)
    → (String → Bool)
    → String
    → List String
    → List Message
    → List Message × Option String
resolved clock fails new_id [] messages = (messages, some new_id)
resolved clock fails new_id (t ∷ []) messages = (messages, some t)
resolved clock fails new_id (t ∷ u ∷ ids) messages =
    let winner = pick_winner t (u ∷ ids) in
    let (messages', done) = merge clock fails winner (t ∷ u ∷ ids) messages in
    (messages', if done then some winner else none)

-- `ResolveThreadID` where the query succeeds; `new_id` is the id that `idGen` makes.
unfoldable pub resolve_thread_id :
    (String → ℕ) → (String → Bool) → String → Message → List Message → List Message × Option String
unfolding resolved
resolve_thread_id clock fails new_id msg messages = elim (collect_reference_ids msg) [
  | [] ↦ (messages, some new_id)
  | r ∷ refs ↦
      resolved clock fails new_id (thread_ids (get_by_message_ids (r ∷ refs) messages)) messages
]
