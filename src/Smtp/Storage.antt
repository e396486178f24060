-- ===== src/Smtp/Storage.antt =====
-- `storeMessage` of internal/smtp/backend.go: a received message is parsed, stored, and announced to the
-- sessions that watch its mailbox. The MIME parser and the calls of the message repository are
-- parameters. Left out: the attachments, and the webhooks that are triggered on the side.
pub mod Arrival
use yunt.Prelude.{
  ℕ, ◌%◌, ◌^◌, String, Bool, true, false, not, ◌&&◌, Option, none, some, List, [], ◌∷◌, ◌++◌,
  if◌then◌else◌, str_eq,
}
use yunt.Prelude.Maps.{GoMap}
use yunt.Domain.Message.{EmailAddress, Message}
use yunt.Service.Notify.{NotifyService}
use yunt.Service.Notify.Notices.{notify_new_message}

-- `parse` gives the message with what was parsed applied to it, `none` where that fails or there is
-- no parser; `count_by_mailbox` is `none` where the query fails.
pub record Backend : Type 0 where
  pub has_repo : Bool
  pub has_notify : Bool
  pub parse : Message → Option Message
  pub create_fails : Message → Bool
  pub count_by_mailbox : String → List Message → Option ℕ

abbrev has_body : List ℕ → Bool
has_body [] = false
has_body (b ∷ body) = true

-- The sender of the envelope stays where the parsed one has no address.
with_envelope : String → Message → Message
with_envelope envelope_from m =
    if str_eq m.sender.address ""
    then record m { sender = record m.sender { address = envelope_from } }
    else m

unfoldable pub parsed : Backend → Message → Message
unfolding with_envelope
parsed b msg =
    if not (has_body msg.raw_body)
    then msg
    else elim (b.parse msg) [ none ↦ msg | some m ↦ with_envelope msg.sender.address m ]

-- The count as a 32-bit word, zero where the query failed.
abbrev pub count_word : Option ℕ → ℕ
count_word none = 0
count_word (some count) = count % 2 ^ 32

-- The messages, the service and the handlers that it calls. The id of the mailbox is passed as the
-- user's as well.
abbrev pub Stored : Type 0
Stored = List Message × NotifyService × GoMap String

unfoldable pub announced : ℕ → Backend → Message → List Message → NotifyService → Stored
unfolding notify_new_message
announced now b m messages ns =
    let r =
      notify_new_message now m.mailbox_id m.mailbox_id m.id 0 0
        (count_word (b.count_by_mailbox m.mailbox_id messages)) ns in
    if b.has_notify && not (str_eq m.mailbox_id "")
    then (messages, r.0, r.1)
    else (messages, ns, [])

-- From `Create` on; its error is `true`.
unfoldable pub created : ℕ → Backend → Message → List Message → NotifyService → Stored × Bool
unfolding announced
created now b m messages ns =
    if b.create_fails m
    then ((messages, ns, []), true)
    else (announced now b m (messages ++ m ∷ []) ns, false)

unfoldable pub store_message : ℕ → Backend → Message → List Message → NotifyService → Stored × Bool
unfolding parsed created
store_message now b msg messages ns =
    if not b.has_repo then ((messages, ns, []), false) else created now b (parsed b msg) messages ns
