-- ===== src/Examples/Threads.antt =====
-- Threads of messages, in internal/jmap.
use yunt.Prelude.{ℕ, true, ◌⊎◌, ◌≡◌, refl, String, Bool, false, [], ◌∷◌, map}
use yunt.Domain.Message.{Message, new_message}
use yunt.Jmap.Threading.{
  mem, collect_reference_ids, trim, trim_left, trim_right, with_id, with_ids, get_by_message_ids,
  thread_ids, resolve_thread_id, resolved, merge, pick_winner, text_lt, update_thread_id,
  set_thread,
}
use yunt.Jmap.Threading.Merge.{united, is_referred, resolve_thread_id-joined}

-- Two messages in two threads, and a third that refers to both.
abbrev first : Message
first = let m = new_message 0 "m1" "inbox" in record m { message_id = "a@x"; thread_id = "t2" }

abbrev second : Message
second = let m = new_message 1 "m2" "inbox" in record m { message_id = "b@x"; thread_id = "t1" }

abbrev reply : Message
reply =
    let m = new_message 2 "m3" "inbox" in
    record m { message_id = "c@x"; in_reply_to = "<b@x>"; references = "<a@x>" ∷ [] }

abbrev never : String → Bool
never t = false

abbrev t1 : String
t1 = "t1"

abbrev t3 : String
t3 = "t3"

-- The clock shows 9, whichever thread is updated.
abbrev nine : String → ℕ
nine t = 9

resolve_thread_id-joined_example :
    ((resolve_thread_id nine never "t3" reply (first ∷ second ∷ [])).0
      ≡ map (united nine ("b@x" ∷ "a@x" ∷ []) (first ∷ second ∷ []) "t1") (first ∷ second ∷ []))
    × ((is_referred ("b@x" ∷ "a@x" ∷ []) (first ∷ second ∷ []) "t1" ≡ true)
        ⊎ ((t1 ≡ t3)
            × ((u : String) → is_referred ("b@x" ∷ "a@x" ∷ []) (first ∷ second ∷ []) u ≡ false)))
    × ((u : String)
        → is_referred ("b@x" ∷ "a@x" ∷ []) (first ∷ second ∷ []) u ≡ true
        → text_lt u "t1" ≡ false)
unfolding collect_reference_ids with_ids with_id trim trim_left trim_right mem resolve_thread_id
    resolved merge pick_winner text_lt get_by_message_ids thread_ids update_thread_id set_thread
resolve_thread_id-joined_example =
    resolve_thread_id-joined nine never "t3" "t1" "b@x" ("a@x" ∷ []) reply (first ∷ second ∷ [])
      refl refl
