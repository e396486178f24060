-- ===== src/Imap/Expunge/View.antt =====
-- What a client that follows the responses of EXPUNGE sees.
use yunt.Prelude.{
  ℕ, zero, suc, ◌+◌, ◌%◌, ◌^◌, ◌≤◌, ◌<◌, ◌≡◌, refl, ap, sym, ◌∙◌, Bool, not, ◌&&◌, Option, List, [],
  ◌∷◌, ◌++◌, arith, length, length-append, if◌then◌else◌, Bool-cases, inl, inr,
}
use mathlib.Core.List.{append_assoc, append-nil}
use yunt.Domain.Message.{Message}
use yunt.Imap.Expunge.{
  passes, pass_desc, sort_from, sort_uint32_desc, find_deleted_messages, delete_all, expunge,
}

-- Strictly ascending, all above `b`.
abbrev Ascends : ℕ → List ℕ → Type 0
Ascends b [] = Unit
Ascends b (x ∷ xs) = (b < x) × Ascends x xs

Ascends-mono : (b c : ℕ) (xs : List ℕ) → b ≤ c → Ascends c xs → Ascends b xs
Ascends-mono b c [] h a = tt
Ascends-mono b c (x ∷ xs) h a = (omega arith, a.1)

-- Last to first.
abbrev backwards : List ℕ → List ℕ
backwards [] = []
backwards (x ∷ xs) = backwards xs ++ x ∷ []

-- On an ascending list the inner loop moves the last number to the front.
pass_desc-last :
    (b x : ℕ) (xs : List ℕ)
    → Ascends b (x ∷ xs)
    → (ys : List ℕ) × (z : ℕ) × ((pass_desc x xs) ≡ (z, ys))
      × (x ∷ xs ≡ ys ++ z ∷ [])
      × Ascends b ys
unfolding pass_desc
pass_desc-last b x [] a = ([], x, refl, refl, tt)
pass_desc-last b x (y ∷ xs) a =
    let (ys, z, e, s, t) = pass_desc-last x y xs a.1 in
    (x ∷ ys, z, ground arith, ap (λ l. x ∷ l) s, (a.0, t))

backwards-snoc : (ys : List ℕ) (z : ℕ) → backwards (ys ++ z ∷ []) ≡ z ∷ backwards ys
backwards-snoc [] z = refl
backwards-snoc (y ∷ ys) z = rw (backwards-snoc ys z)

sort_from-backwards :
    (n b : ℕ) (xs : List ℕ) → length xs ≤ n → Ascends b xs → sort_from n xs ≡ backwards xs
unfolding sort_from
sort_from-backwards zero b [] h a = refl
sort_from-backwards zero b (x ∷ xs) h a = absurd (omega arith)
sort_from-backwards (suc n) b [] h a = refl
sort_from-backwards (suc n) b (x ∷ xs) h a =
    let (ys, z, e, s, t) = pass_desc-last b x xs a in
    let k : length ys ≤ n = omega (arith, length-append ys (z ∷ []), ap length s) in
    ap (λ (r : ℕ × List ℕ). r.0 ∷ sort_from n r.1) e
    ∙ ap (λ l. z ∷ l) (sort_from-backwards n b ys k t)
    ∙ sym (backwards-snoc ys z)
    ∙ sym (ap backwards s)

-- One EXPUNGE response: the message with that number goes, and those behind it move up.
pub remove_at {ℓ} : {A : Type ℓ} → ℕ → List A → List A
remove_at n [] = []
remove_at zero (x ∷ xs) = x ∷ xs
remove_at (suc zero) (x ∷ xs) = xs
remove_at (suc (suc n)) (x ∷ xs) = x ∷ remove_at (suc n) xs

pub follow {ℓ} : {A : Type ℓ} → List ℕ → List A → List A
follow [] view = view
follow (n ∷ ns) view = follow ns (remove_at n view)

-- The messages that are left: all but those that are marked, pass the filter and could be deleted.
pub survivors : (ℕ → Bool) → Option (ℕ → Bool) → ℕ → List Message → List Message
survivors fails uids i [] = []
survivors fails uids i (msg ∷ items) =
    let rest = survivors fails uids (i + 1) items in
    if passes uids msg.imap_uid && msg.is_deleted && not (fails (i + 1)) then rest else msg ∷ rest

find_deleted-Ascends :
    (uids : Option (ℕ → Bool)) (i : ℕ) (items : List Message)
    → i + length items < 2 ^ 32
    → Ascends i (find_deleted_messages uids i items)
unfolding find_deleted_messages
find_deleted-Ascends uids i [] h = tt
find_deleted-Ascends uids i (msg ∷ items) h =
    let rest = find_deleted-Ascends uids (i + 1) items (omega arith) in
    let up = Ascends-mono i (i + 1) (find_deleted_messages uids (i + 1) items) (omega arith) rest in
    let fit : (i + 1) % 2 ^ 32 ≡ i + 1 = omega arith in
    elim (Bool-cases (passes uids msg.imap_uid && msg.is_deleted)) [
      | inl e ↦ rw (e, fit) (omega arith, rest)
      | inr e ↦ rw e up
    ]

delete_all-append :
    (fails : ℕ → Bool) (xs ys : List ℕ)
    → delete_all fails (xs ++ ys) ≡ delete_all fails xs ++ delete_all fails ys
unfolding delete_all
delete_all-append fails [] ys = refl
delete_all-append fails (x ∷ xs) ys = ground (arith, delete_all-append fails xs ys)

follow-append {ℓ} :
    {A : Type ℓ} (ns ms : List ℕ) (view : List A)
    → follow (ns ++ ms) view ≡ follow ms (follow ns view)
unfolding follow
follow-append [] ms view = refl
follow-append (n ∷ ns) ms view = follow-append ns ms (remove_at n view)

remove_at-middle {ℓ} :
    {A : Type ℓ} (pre : List A) (x : A) (post : List A)
    → remove_at (suc (length pre)) (pre ++ x ∷ post) ≡ pre ++ post
unfolding remove_at
remove_at-middle [] x post = refl
remove_at-middle (y ∷ pre) x post = ap (λ l. y ∷ l) (remove_at-middle pre x post)

-- With the messages before them in place, the responses about the listed ones leave the survivors.
module _ (fails : ℕ → Bool) (uids : Option (ℕ → Bool)) where
  written : ℕ → List Message → List ℕ
  written i items = delete_all fails (backwards (find_deleted_messages uids i items))

  gone : ℕ → Message → Bool
  gone i msg = passes uids msg.imap_uid && msg.is_deleted && not (fails (i + 1))

  last_number : ℕ → Message → List ℕ
  last_number i msg = if gone i msg then suc i ∷ [] else []

  written-step :
      (i : ℕ) (msg : Message) (items : List Message)
      → i + 1 < 2 ^ 32
      → written i (msg ∷ items) ≡ written (i + 1) items ++ last_number i msg
  unfolding written find_deleted_messages last_number gone delete_all
  written-step i msg items h =
      let fit : (i + 1) % 2 ^ 32 ≡ i + 1 = omega arith in
      let rest = find_deleted_messages uids (i + 1) items in
      ground (
        arith,
        delete_all-append fails (backwards rest) ((i + 1) ∷ []),
        append-nil (delete_all fails (backwards rest)),
      )

  follow-last :
      (i : ℕ) (msg : Message) (post pre : List Message)
      → length pre ≡ i
      → follow (last_number i msg) (pre ++ msg ∷ post)
        ≡ pre ++ (if gone i msg then post else msg ∷ post)
  unfolding last_number follow
  follow-last i msg post pre l = elim (Bool-cases (gone i msg)) [
    | inl e ↦ rw e (rw (sym l) (remove_at-middle pre msg post))
    | inr e ↦ rw e
  ]

  follow-keep :
      (i : ℕ) (msg : Message) (items pre : List Message)
      → length pre ≡ i
      → i + 1 < 2 ^ 32
      → follow (written (i + 1) items) (pre ++ msg ∷ items)
        ≡ pre ++ msg ∷ survivors fails uids (i + 1) items
      → follow (written i (msg ∷ items)) (pre ++ msg ∷ items)
        ≡ pre ++ survivors fails uids i (msg ∷ items)
  unfolding survivors gone
  follow-keep i msg items pre l h ih = rw (written-step i msg items h) (
      follow-append (written (i + 1) items) (last_number i msg) (pre ++ msg ∷ items)
      ∙ ap (follow (last_number i msg)) ih
      ∙ follow-last i msg (survivors fails uids (i + 1) items) pre l)

  follow-written :
      (i : ℕ) (items pre : List Message)
      → length pre ≡ i
      → i + length items < 2 ^ 32
      → follow (written i items) (pre ++ items) ≡ pre ++ survivors fails uids i items
  unfolding survivors
  follow-written i [] pre l h = unfold written find_deleted_messages delete_all follow in refl
  follow-written i (msg ∷ items) pre l h = follow-keep i msg items pre l (omega arith) (
      sym (ap (follow (written (i + 1) items)) (append_assoc pre (msg ∷ []) items))
      ∙ follow-written (i + 1) items (pre ++ msg ∷ []) (omega (arith, length-append pre (msg ∷ [])))
          (omega arith)
      ∙ append_assoc pre (msg ∷ []) (survivors fails uids (i + 1) items))

-- With fewer than 2 ^ 32 messages, a client that shows the mailbox as it was listed and applies the
-- responses of EXPUNGE one after the other ends up with the messages that are left: all but those
-- that are marked as deleted, pass the filter of UID EXPUNGE if there is one, and whose deletion
-- succeeded, in their order.
pub follow-expunge :
    (fails : ℕ → Bool) (uids : Option (ℕ → Bool)) (items : List Message)
    → length items < 2 ^ 32
    → follow (expunge fails uids items) items ≡ survivors fails uids 0 items
unfolding expunge sort_uint32_desc
follow-expunge fails uids items h =
    let found = find_deleted_messages uids 0 items in
    ap (λ l. follow (delete_all fails l) items)
      (sort_from-backwards (length found) 0 found (omega arith)
        (find_deleted-Ascends uids 0 items (omega arith)))
    ∙ unfold written in follow-written fails uids 0 items [] refl (omega arith)
