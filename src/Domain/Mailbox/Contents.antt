-- ===== src/Domain/Mailbox/Contents.antt =====
-- The counters of a mailbox and the messages that they count.
use yunt.Prelude.{
  ℕ, suc, ◌+◌, ◌^◌, ◌≤◌, ◌<◌, ◌≡◌, ◌↔◌, refl, String, Bool, true, false, List, [], ◌∷◌, ◌++◌, arith,
  length, if◌then◌else◌,
}
use yunt.Domain.Mailbox.{
  Mailbox, new_mailbox, increment_message_count, decrement_message_count, mark_message_read,
  mark_message_unread, has_unread,
}

-- A message's size, and whether it is unread.
abbrev pub Item : Type 0
Item = ℕ × Bool

pub unread : List Item → ℕ
unread [] = 0
unread ((size, b) ∷ items) = if b then suc (unread items) else unread items

unfoldable pub size_of : List Item → ℕ
size_of [] = 0
size_of ((size, b) ∷ items) = size + size_of items

unread_le : (items : List Item) → unread items ≤ length items
unfolding unread
unread_le [] = omega arith
unread_le ((size, b) ∷ items) = ground (arith, unread_le items)

-- What happens to a mailbox whose messages are the given ones, and which they are afterwards.
pub data Change : List Item → List Item → Type 0 where
  arrives : (size : ℕ) (b : Bool) (items : List Item) → Change items ((size, b) ∷ items)
  leaves :
      (size : ℕ) (b : Bool) (before items : List Item)
      → Change (before ++ (size, b) ∷ items) (before ++ items)
  marked_read :
      (size : ℕ) (before items : List Item)
      → Change (before ++ (size, true) ∷ items) (before ++ (size, false) ∷ items)
  marked_unread :
      (size : ℕ) (before items : List Item)
      → Change (before ++ (size, false) ∷ items) (before ++ (size, true) ∷ items)

-- The call that the change makes.
pub call : {items items' : List Item} → ℕ → Change items items' → Mailbox → Mailbox
call now (arrives size b items) m = increment_message_count now size b m
call now (leaves size b before items) m = decrement_message_count now size b m
call now (marked_read size before items) m = mark_message_read now m
call now (marked_unread size before items) m = mark_message_unread now m

-- The counters say how many messages there are, how many are unread, and how large they are.
pub record Counts (m : Mailbox) (items : List Item) : Type 0 where
  pub messages : m.message_count ≡ length items
  pub unread_lem : m.unread_count ≡ unread items
  pub size : m.total_size ≡ size_of items

unread_at :
    (before items : List Item) (size : ℕ) (b : Bool)
    → unread (before ++ (size, b) ∷ items) ≡ unread (before ++ items) + (if b then 1 else 0)
unfolding unread
unread_at [] items size b = ground arith
unread_at ((s, c) ∷ before) items size b = ground (arith, unread_at before items size b)

size_at :
    (before items : List Item) (size : ℕ) (b : Bool)
    → size_of (before ++ (size, b) ∷ items) ≡ size_of (before ++ items) + size
unfolding size_of
size_at [] items size b = omega arith
size_at ((s, c) ∷ before) items size b = omega (arith, size_at before items size b)

length_at :
    (before items : List Item) (size : ℕ) (b : Bool)
    → length (before ++ (size, b) ∷ items) ≡ suc (length (before ++ items))
length_at [] items size b = refl
length_at ((s, c) ∷ before) items size b = omega (arith, length_at before items size b)

call-Counts :
    {items items' : List Item} (m : Mailbox) (now : ℕ) (c : Change items items')
    → length items' < 2 ^ 63
    → size_of items' < 2 ^ 63
    → length items < 2 ^ 63
    → size_of items < 2 ^ 63
    → Counts m items
    → Counts (call now c m) items'
unfolding call increment_message_count decrement_message_count mark_message_read mark_message_unread
    unread size_of
call-Counts m now (arrives size b items) l z l' z' v = record {
  messages = ground (arith, v.messages);
  unread_lem = ground (arith, v.unread_lem, unread_le items, v.messages);
  size = ground (arith, v.size);
}
call-Counts m now (leaves size b before items) l z l' z' v = record {
  messages = ground (arith, v.messages, length_at before items size b);
  unread_lem = ground (
    arith,
    v.unread_lem,
    unread_at before items size b,
    unread_le (before ++ items),
    unread_le (before ++ (size, b) ∷ items),
  );
  size = ground (arith, v.size, size_at before items size b);
}
call-Counts m now (marked_read size before items) l z l' z' v = record {
  messages =
      omega
        (arith, v.messages, length_at before items size true, length_at before items size false);
  unread_lem = ground (
    arith,
    v.unread_lem,
    unread_at before items size true,
    unread_at before items size false,
    unread_le (before ++ items),
    unread_le (before ++ (size, true) ∷ items),
    length_at before items size true,
  );
  size = omega (arith, v.size, size_at before items size true, size_at before items size false);
}
call-Counts m now (marked_unread size before items) l z l' z' v = record {
  messages =
      omega
        (arith, v.messages, length_at before items size true, length_at before items size false);
  unread_lem = ground (
    arith,
    v.unread_lem,
    v.messages,
    unread_at before items size true,
    unread_at before items size false,
    unread_le (before ++ items),
    length_at before items size false,
  );
  size = omega (arith, v.size, size_at before items size true, size_at before items size false);
}

-- A mailbox and its messages, from its creation on, as long as the counters have room.
pub data History : List Item → Mailbox → Type 0 where
  made :
      (now : ℕ) (id user_id name address : String)
      → History [] (new_mailbox now id user_id name address)
  changed :
      {items items' : List Item} {m : Mailbox} (now : ℕ) (c : Change items items')
      → length items' < 2 ^ 63
      → size_of items' < 2 ^ 63
      → History items m
      → History items' (call now c m)

History-room :
    {items : List Item} {m : Mailbox}
    → History items m
    → (length items < 2 ^ 63) × (size_of items < 2 ^ 63)
unfolding size_of
History-room (made now id user_id name address) = (omega arith, omega arith)
History-room (changed now c l z h) = (l, z)

-- From the creation of a mailbox on, as long as its messages are fewer than 2 ^ 63 and take up less
-- than 2 ^ 63 bytes, its counters are the number of its messages, the number of the unread ones and
-- their size in all, whatever messages arrive, leave, are read or marked unread.
pub History-Counts : {items : List Item} {m : Mailbox} → History items m → Counts m items
unfolding new_mailbox unread size_of
History-Counts (made now id user_id name address) = record {
  messages = refl;
  unread_lem = refl;
  size = refl;
}
History-Counts (changed {m = m} now c l z h) =
    call-Counts m now c l z (History-room h).0 (History-room h).1 (History-Counts h)

-- After any such history, as long as its messages are fewer than 2 ^ 63 and take up less than 2 ^
-- 63 bytes, a mailbox says that it has unread messages exactly if it has.
has_unread-History :
    {items : List Item} {m : Mailbox} → History items m → (has_unread m ≡ true) ↔ (0 < unread items)
unfolding has_unread
has_unread-History {items = items} {m = m} h =
    ground (arith, (History-Counts h).unread_lem, unread_le items, (History-room h).0)
