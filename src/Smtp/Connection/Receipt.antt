-- ===== src/Smtp/Connection/Receipt.antt =====
-- What DATA hands on and when it refuses.
use yunt.Prelude.{
  ℕ, suc, ◌+◌, ◌≤◌, ◌<◌, ◌≡◌, refl, ◌↔◌, String, Bool, true, false, not, ◌&&◌, ◌||◌, none, some,
  List, [], ◌∷◌, arith, ltb, if◌then◌else◌, str_eq, eq_iff, length, map, Option-cases, inl, inr,
}
use yunt.Smtp.Reply.{SmtpError, smtp_error, message_too_large}
use yunt.Smtp.RateLimit.{RateLimiter, check_message}
use yunt.Smtp.Session.{Env, RecipientInfo, Session}
use yunt.Smtp.Connection.{Body, nothing, read_limited, read_data, total, seen, targets, receive}

read_limited-total :
    (max_size read_size : ℕ) (chunks : List ℕ)
    → read_size ≤ max_size
    → ((read_limited max_size read_size chunks).1 ≡ ltb max_size (read_size + total chunks))
unfolding read_limited total
read_limited-total max_size read_size [] h = ground arith
read_limited-total max_size read_size (n ∷ rest) h =
    ground (arith, read_limited-total max_size (read_size + n) rest)

-- With a limit in force, a message is refused as too large exactly if its bytes, however the reader
-- splits them, are more than the limit.
read_data-limit :
    (env : Env) (body : Body)
    → 0 < env.max_message_size
    → (read_data env body ≡ some (smtp_error 552 5 3 4 message_too_large))
      ↔ (env.max_message_size < total body.chunks)
unfolding read_data
read_data-limit env body h = ground (arith, read_limited-total env.max_message_size 0 body.chunks)

-- Whether a recipient's mailbox is `m`.
abbrev pub addressed : String → List RecipientInfo → Bool
addressed m [] = false
addressed m (r ∷ rs) = (elim r.mailbox [ none ↦ false | some k ↦ str_eq k m ]) || addressed m rs

abbrev pub occurrences : String → List String → ℕ
occurrences m [] = 0
occurrences m (k ∷ ks) = if str_eq k m then suc (occurrences m ks) else occurrences m ks

occurrences-targets :
    (m : String) (stored : List String) (rs : List RecipientInfo)
    → occurrences m (targets stored rs) ≡ (if addressed m rs && not (seen m stored) then 1 else 0)
unfolding targets seen
occurrences-targets m stored [] = refl
occurrences-targets m stored (r ∷ rs) = elim (Option-cases r.mailbox) [
  | inl e ↦ rw e (occurrences-targets m stored rs)
  | inr (k, e) ↦ rw e (
      ground
        (arith, eq_iff k m, occurrences-targets m stored rs, occurrences-targets m (k ∷ stored) rs))
]

module _ (env : Env) (relay_enabled : Bool) (now : ℕ) (body : Body) (s : Session)
    (rl : RateLimiter) where
  -- A message that is refused is handed to no mailbox and not relayed.
  pub receive_refused :
      (e : SmtpError)
      → (receive env relay_enabled now body s rl).2 ≡ some e
      → (receive env relay_enabled now body s rl).1 ≡ nothing
  unfolding receive
  receive_refused e h = ground arith

  -- A message that is accepted comes after a MAIL command, taken or not, and has a recipient,
  -- passed the limits of its connection and address, fits the size limit and was read to its end;
  -- it is handed to the store exactly once for each mailbox of a recipient and for no other, and it
  -- is relayed to all recipients if relaying is switched on.
  pub receive_accepted :
      (m : String)
      → (receive env relay_enabled now body s rl).2 ≡ none
      → (s.mail_from_received ≡ true)
        × (0 < length s.recipients)
        × (check_message env.host_of now s.remote_addr rl ≡ none)
        × (read_data env body ≡ none)
        × (occurrences m (receive env relay_enabled now body s rl).1.stored
            ≡ (if addressed m s.recipients then 1 else 0))
        × ((receive env relay_enabled now body s rl).1.relayed
            ≡ (if relay_enabled then some (s.sender, map (λ r. r.address) s.recipients) else none))
  unfolding receive seen
  receive_accepted m h = ground (arith, occurrences-targets m [] s.recipients)
