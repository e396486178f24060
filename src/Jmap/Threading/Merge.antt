-- ===== src/Jmap/Threading/Merge.antt =====
-- What resolving a thread does to the messages.
use yunt.Jmap.Threading.Winner.{pick_winner_is_least}
use yunt.Prelude.{
  ℕ, ◌⊎◌, not, ◌&&◌, ◌||◌, ◌≡◌, refl, ap, sym, ◌∙◌, inl, inr, String, Bool, true, false, some, List,
  [], ◌∷◌, arith, if◌then◌else◌, str_eq, eq_iff, map, ◌++◌, Bool-cases,
}
use yunt.Domain.Message.{Message}
use yunt.Jmap.Threading.{
  mem, set_thread, collect_reference_ids, get_by_message_ids, update_thread_id, thread_ids, text_lt,
  pick_winner, merge, resolved, resolve_thread_id,
}

-- The message, moved to the thread `t` if it was in another one of the listed threads.
abbrev joined : (String → ℕ) → List String → String → Message → Message
joined clock ids t m =
    if mem m.thread_id ids && not (str_eq m.thread_id t)
    then set_thread (clock m.thread_id) t m
    else m

update_thread_id-map :
    (now : ℕ) (old new : String) (messages : List Message)
    → update_thread_id now old new messages
      ≡ map (λ m. if str_eq m.thread_id old then set_thread now new m else m) messages
unfolding update_thread_id
update_thread_id-map now old new [] = refl
update_thread_id-map now old new (m ∷ messages) =
    ap (λ t. (if str_eq m.thread_id old then set_thread now new m else m) ∷ t)
      (update_thread_id-map now old new messages)

map_fuse :
    (f g h : Message → Message) (messages : List Message)
    → ((m : Message) → g (f m) ≡ h m)
    → map g (map f messages) ≡ map h messages
map_fuse f g h [] e = refl
map_fuse f g h (m ∷ messages) e = λ i. e m i ∷ map_fuse f g h messages e i

map_same :
    (h : Message → Message) (messages : List Message)
    → ((m : Message) → m ≡ h m)
    → messages ≡ map h messages
map_same h [] e = refl
map_same h (m ∷ messages) e = λ i. e m i ∷ map_same h messages e i

set_thread-thread : (now : ℕ) (t : String) (m : Message) → (set_thread now t m).thread_id ≡ t
unfolding set_thread
set_thread-thread now t m = refl

map_ext :
    (g h : Message → Message) (messages : List Message)
    → ((m : Message) → g m ≡ h m)
    → map g messages ≡ map h messages
map_ext g h [] e = refl
map_ext g h (m ∷ messages) e = λ i. e m i ∷ map_ext g h messages e i

joined-skip :
    (clock : String → ℕ) (tid t : String) (ids : List String) (m : Message)
    → str_eq tid t ≡ true
    → joined clock ids t m ≡ joined clock (tid ∷ ids) t m
unfolding mem
joined-skip clock tid t ids m h = ground (arith, eq_iff tid t, eq_iff tid m.thread_id)

joined-step :
    (clock : String → ℕ) (tid t : String) (ids : List String) (m : Message)
    → str_eq tid t ≡ false
    → joined clock ids t (if str_eq m.thread_id tid then set_thread (clock tid) t m else m)
      ≡ joined clock (tid ∷ ids) t m
unfolding mem
joined-step clock tid t ids m h = ground (
  arith,
  eq_iff m.thread_id tid,
  eq_iff tid m.thread_id,
  eq_iff t t,
  set_thread-thread (clock tid) t m,
)

merge-joined :
    (clock : String → ℕ) (fails : String → Bool) (t : String) (ids : List String)
    (messages : List Message)
    → (merge clock fails t ids messages).1 ≡ true
    → (merge clock fails t ids messages).0 ≡ map (joined clock ids t) messages
unfolding merge
merge-joined clock fails t [] messages h =
    map_same (joined clock [] t) messages (λ m. unfold mem in refl)
merge-joined clock fails t (tid ∷ ids) messages h = elim (Bool-cases (str_eq tid t)) [
  | inl k ↦
      rw (k, merge)
        (merge-joined clock fails t ids messages (ground arith)
          ∙ map_ext (joined clock ids t) (joined clock (tid ∷ ids) t) messages
              (λ m. joined-skip clock tid t ids m k))
  | inr k ↦
      rw (k, merge)
        (elim (Bool-cases (fails tid)) [
          | inl f ↦ absurd (ground arith)
          | inr f ↦ rw f (
              merge-joined clock fails t ids (update_thread_id (clock tid) tid t messages)
                (ground arith)
              ∙ ap (map (joined clock ids t)) (update_thread_id-map (clock tid) tid t messages)
              ∙ map_fuse (λ m. if str_eq m.thread_id tid then set_thread (clock tid) t m else m)
                  (joined clock ids t) (joined clock (tid ∷ ids) t) messages
                  (λ m. joined-step clock tid t ids m k))
        ])
]

map-append :
    (g : Message → Message) (xs ys : List Message) → map g (xs ++ ys) ≡ map g xs ++ map g ys
map-append g [] ys = refl
map-append g (x ∷ xs) ys = ap (λ t. g x ∷ t) (map-append g xs ys)

resolved-joined :
    (clock : String → ℕ) (fails : String → Bool) (new_id t : String) (ids : List String)
    (messages : List Message)
    → (resolved clock fails new_id ids messages).1 ≡ some t
    → (resolved clock fails new_id ids messages).0 ≡ map (joined clock ids t) messages
unfolding resolved
resolved-joined clock fails new_id t [] messages h =
    map_same (joined clock [] t) messages (λ m. unfold mem in refl)
resolved-joined clock fails new_id t (u ∷ []) messages h =
    map_same (joined clock (u ∷ []) t) messages
      (λ m. unfold mem in ground (arith, h, eq_iff u m.thread_id))
resolved-joined clock fails new_id t (u ∷ v ∷ ids) messages h =
    let w = pick_winner u (v ∷ ids) in
    elim (Bool-cases (merge clock fails w (u ∷ v ∷ ids) messages).1) [
      | inl k ↦
          let e : w ≡ t = ground (arith, h, k) in
          rw (← e) (merge-joined clock fails w (u ∷ v ∷ ids) messages k)
      | inr k ↦ absurd (ground (arith, h, k))
    ]

resolve_thread_id-resolved :
    (clock : String → ℕ) (fails : String → Bool) (new_id ref : String) (refs : List String)
    (msg : Message) (messages : List Message)
    → collect_reference_ids msg ≡ ref ∷ refs
    → resolve_thread_id clock fails new_id msg messages
      ≡ resolved clock fails new_id (thread_ids (get_by_message_ids (ref ∷ refs) messages)) messages
unfolding resolve_thread_id
resolve_thread_id-resolved clock fails new_id ref refs msg messages e =
    rw (e, resolve_thread_id) refl

-- Whether the thread is the one of a message of the table with one of the ids
unfoldable pub is_referred : List String → List Message → String → Bool
unfolding mem
is_referred refs [] t = false
is_referred refs (m ∷ messages) t =
    let rest = is_referred refs messages t in
    (mem m.message_id refs && (str_eq m.thread_id t && not (str_eq t ""))) || rest

mem-thread_ids :
    (refs : List String) (messages : List Message) (t : String)
    → mem t (thread_ids (get_by_message_ids refs messages)) ≡ is_referred refs messages t
unfolding mem thread_ids get_by_message_ids is_referred
mem-thread_ids refs [] t = refl
mem-thread_ids refs (m ∷ messages) t =
    ground (arith, mem-thread_ids refs messages t, eq_iff m.thread_id t)

-- What resolving does to a message of the table
abbrev pub united : (String → ℕ) → List String → List Message → String → Message → Message
united clock refs messages t m =
    if is_referred refs messages m.thread_id && not (str_eq m.thread_id t)
    then record m { thread_id = t; updated_at = clock m.thread_id }
    else m

united-joined :
    (clock : String → ℕ) (refs : List String) (messages : List Message) (t : String) (m : Message)
    → joined clock (thread_ids (get_by_message_ids refs messages)) t m
      ≡ united clock refs messages t m
unfolding set_thread
united-joined clock refs messages t m = rw (mem-thread_ids refs messages m.thread_id) refl

resolved-chooses :
    (clock : String → ℕ) (fails : String → Bool) (new_id t : String) (ids : List String)
    (messages : List Message)
    → (resolved clock fails new_id ids messages).1 ≡ some t
    → ((mem t ids ≡ true) ⊎ ((t ≡ new_id) × (ids ≡ [])))
      × ((u : String) → mem u ids ≡ true → text_lt u t ≡ false)
unfolding resolved
resolved-chooses clock fails new_id t [] messages h =
    (inr (ground (arith, h), refl), λ u k. unfold mem in absurd (ground arith))
resolved-chooses clock fails new_id t (u ∷ []) messages h =
    let e : u ≡ t = ground (arith, h) in
    let (among, least) = pick_winner_is_least u [] in
    unfold pick_winner in rw (← e) (inl among, least)
resolved-chooses clock fails new_id t (u ∷ v ∷ ids) messages h =
    let w = pick_winner u (v ∷ ids) in
    let (among, least) = pick_winner_is_least u (v ∷ ids) in
    elim (Bool-cases (merge clock fails w (u ∷ v ∷ ids) messages).1) [
      | inl k ↦ let e : w ≡ t = ground (arith, h, k) in rw (← e) (inl among, least)
      | inr k ↦ absurd (ground (arith, h, k))
    ]

-- Where a message with references gets a thread: the result is the least of the threads of the
-- messages of the table that it refers to, or the new id if none of them has a thread; every message
-- that was in another one of these threads is then in the thread of the result, with the time of that
-- update, and all other messages are as before.
pub resolve_thread_id-joined :
    (clock : String → ℕ) (fails : String → Bool) (new_id t ref : String) (refs : List String)
    (msg : Message) (messages : List Message)
    → collect_reference_ids msg ≡ ref ∷ refs
    → (resolve_thread_id clock fails new_id msg messages).1 ≡ some t
    → ((resolve_thread_id clock fails new_id msg messages).0
        ≡ map (united clock (ref ∷ refs) messages t) messages)
      × ((is_referred (ref ∷ refs) messages t ≡ true)
          ⊎ ((t ≡ new_id) × ((u : String) → is_referred (ref ∷ refs) messages u ≡ false)))
      × ((u : String) → is_referred (ref ∷ refs) messages u ≡ true → text_lt u t ≡ false)
resolve_thread_id-joined clock fails new_id t ref refs msg messages e h =
    let ids = thread_ids (get_by_message_ids (ref ∷ refs) messages) in
    let step = resolve_thread_id-resolved clock fails new_id ref refs msg messages e in
    let answer : (resolved clock fails new_id ids messages).1 ≡ some t =
      ap (λ p. p.1) (sym step) ∙ h in
    let (chosen, least) = resolved-chooses clock fails new_id t ids messages answer in
    (
      ap (λ p. p.0) step
          ∙ resolved-joined clock fails new_id t ids messages answer
          ∙ map_ext (joined clock ids t) (united clock (ref ∷ refs) messages t) messages
              (united-joined clock (ref ∷ refs) messages t),
      elim chosen [
        | inl among ↦ inl (sym (mem-thread_ids (ref ∷ refs) messages t) ∙ among)
        | inr (same, nobody) ↦ inr (
          same,
          λ u.
              sym (mem-thread_ids (ref ∷ refs) messages u)
              ∙ ap (mem u) nobody
              ∙ (unfold mem in refl),
        )
      ],
      λ u k. least u (mem-thread_ids (ref ∷ refs) messages u ∙ k),
    )
