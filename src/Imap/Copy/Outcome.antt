-- ===== src/Imap/Copy/Outcome.antt =====
-- What COPY and MOVE leave behind.
use yunt.Prelude.{
  ℕ, ◌+◌, ◌≡◌, refl, ap, sym, ◌∙◌, inl, inr, String, Bool, false, none, some, List, [], ◌∷◌, arith,
  map, Option-cases, str_eq,
}
use yunt.Domain.Message.{Message}
use yunt.Imap.Flags.{
  flag_seen, flag_flagged, flag_deleted, flag_draft, flag_answered, has, new_flag_set_from_message,
}
use yunt.Imap.Flags.Laws.{from_message-HasFlagsOf}
use yunt.Imap.Expunge.{sort_uint32_desc, delete_all}
use yunt.Imap.Copy.{
  copy_message_data, Repo, CopyState, no_copies, message_at, copy_one, copy_loop, copy_messages,
  sort_uint32, delete_original_messages, Reply, moved, find_mailbox, with_target, move,
}

-- The copy of a message keeps the flags \Seen and \Flagged, and it has none of \Answered, \Draft and
-- \Deleted, whatever the message had.
has-copy_message_data :
    (now : ℕ) (src : Message) (new_id dest_mailbox_id : String)
    → let fs = new_flag_set_from_message (copy_message_data now src new_id dest_mailbox_id) in
      (has flag_seen fs ≡ has flag_seen (new_flag_set_from_message src))
      × (has flag_flagged fs ≡ has flag_flagged (new_flag_set_from_message src))
      × (has flag_answered fs ≡ false)
      × (has flag_draft fs ≡ false)
      × (has flag_deleted fs ≡ false)
unfolding copy_message_data
has-copy_message_data now src new_id dest_mailbox_id =
    let v = from_message-HasFlagsOf (copy_message_data now src new_id dest_mailbox_id) in
    let w = from_message-HasFlagsOf src in
    (v.seen ∙ sym w.seen, v.flagged ∙ sym w.flagged, v.answered, v.is_draft, v.is_deleted)

module _ {UidSet : Type 0} (repo : Repo UidSet) (now : ℕ) (dest_mailbox_id : String) where
  no_copy_one :
      (msg : Message) (s : CopyState UidSet)
      → ((made : List Message) (msg' : Message) → repo.create made msg' ≡ none)
      → (copy_one repo now dest_mailbox_id msg s).created ≡ s.created
  unfolding copy_one
  no_copy_one msg s h =
      let r = s.result in
      let new_id = repo.new_id (r.copied_count + r.failed_count) in
      rw (h s.created (copy_message_data now msg new_id dest_mailbox_id), copy_one) refl

  no_copy_made :
      (messages : List (ℕ × Message)) (ns : List ℕ) (s : CopyState UidSet)
      → ((made : List Message) (msg : Message) → repo.create made msg ≡ none)
      → (copy_loop repo now dest_mailbox_id messages ns s).created ≡ s.created
  unfolding copy_loop
  no_copy_made messages [] s h = refl
  no_copy_made messages (n ∷ ns) s h = elim (Option-cases (message_at n messages)) [
    | inl e ↦ rw (e, copy_loop) (no_copy_made messages ns s h)
    | inr (msg, e) ↦
        rw (e, copy_loop)
          (no_copy_made messages ns (copy_one repo now dest_mailbox_id msg s) h
            ∙ no_copy_one msg s h)
  ]

delete_all-none :
    (fails : ℕ → Bool) (ns : List ℕ) → ((n : ℕ) → fails n ≡ false) → delete_all fails ns ≡ ns
unfolding delete_all
delete_all-none fails [] h = refl
delete_all-none fails (n ∷ ns) h = ground (arith, h n, delete_all-none fails ns h)

reached :
    {UidSet : Type 0} (equal_fold : String → String → Bool) (selected dest_name id : String)
    (uid_validity : ℕ) (items : List (String × String × ℕ)) (k : String → ℕ → Reply UidSet)
    → find_mailbox equal_fold dest_name items ≡ some (id, uid_validity)
    → str_eq id selected ≡ false
    → with_target equal_fold (some selected) (some items) dest_name k ≡ k id uid_validity
unfolding with_target
reached equal_fold selected dest_name id uid_validity items k at other = rw at (rw other refl)

-- If no copy can be created and every deletion succeeds, MOVE of a message set that is not empty to
-- another mailbox that exists reports success all the same: nothing has come to the destination,
-- and every message of the set has been deleted.
pub move_loses :
    {UidSet : Type 0} (repo : Repo UidSet) (now : ℕ) (equal_fold : String → String → Bool)
    (selected dest_name id : String) (uid_validity : ℕ) (items : List (String × String × ℕ))
    (m : ℕ × Message) (messages : List (ℕ × Message))
    → find_mailbox equal_fold dest_name items ≡ some (id, uid_validity)
    → str_eq id selected ≡ false
    → ((made : List Message) (msg : Message) → repo.create made msg ≡ none)
    → ((n : ℕ) → repo.delete_fails n ≡ false)
    → (s : CopyState UidSet) × (move repo now equal_fold
          (some selected)
          (some items)
          dest_name
          (some (m ∷ messages))
        ≡ moved s (sort_uint32_desc (map (λ p. p.0) (m ∷ messages))))
      × (s.created ≡ [])
unfolding move delete_original_messages
move_loses repo now equal_fold selected dest_name id uid_validity items m messages at other
      none_made all_deleted =
    (
      copy_messages repo now id uid_validity (m ∷ messages),
      reached equal_fold selected dest_name id uid_validity items _ at other
          ∙ ap (moved (copy_messages repo now id uid_validity (m ∷ messages))) (
              delete_all-none repo.delete_fails (sort_uint32_desc (map (λ p. p.0) (m ∷ messages)))
                all_deleted),
      unfold copy_messages in
          no_copy_made repo now id (m ∷ messages) (sort_uint32 (map (λ p. p.0) (m ∷ messages)))
            (no_copies repo uid_validity) none_made,
    )
