-- ===== src/Smtp/Session/Relay.antt =====
-- Which recipients a session turns away, and what a rejected sender leaves behind.
use yunt.Prelude.{
  ℕ, suc, ◌≡◌, ◌⊎◌, String, true, false, not, ◌&&◌, some, [], ◌∷◌, arith, ltb, leb, length,
}
use yunt.Smtp.Reply.{smtp_error, relaying_denied, invalid_sender}
use yunt.Smtp.Address.{Text, is_valid_email_format}
use yunt.Smtp.Session.{
  Env, Found, found, not_found, failed, Session, mail, rcpt, known, address_of, after_at,
  is_local_domain,
}

module _ (env : Env) (repo : Text → Found) (with_repo : env.mailbox_repo ≡ some repo) where
  -- Where there is a mailbox repository, a recipient is added only if the repository finds a
  -- mailbox for it.
  rcpt_taken :
      (to : Text) (s : Session)
      → length (rcpt env to s).0.recipients ≡ suc (length s.recipients)
      → (m : String) × (repo (address_of to) ≡ found m)
  unfolding rcpt
  rcpt_taken to s h = ground arith

  -- Where there is a mailbox repository and before a login, a new well-formed recipient of a
  -- foreign domain, below the limit of recipients, that the repository does not find is answered
  -- with "relaying denied", whether the repository failed or has no such mailbox, and the session
  -- stays as it is.
  rcpt_foreign :
      (to d : Text) (s : Session)
      → s.authenticated ≡ false
      → is_valid_email_format (address_of to) ≡ true
      → known env (address_of to) s.recipients ≡ false
      → ltb 0 env.max_recipients && leb env.max_recipients (length s.recipients) ≡ false
      → (repo (address_of to) ≡ not_found) ⊎ (repo (address_of to) ≡ failed)
      → after_at (address_of to) ≡ some d
      → is_local_domain env d ≡ false
      → rcpt env to s ≡ (s, some (smtp_error 550 5 7 1 relaying_denied))
  unfolding rcpt
  rcpt_foreign to d s anon f k b miss at far = ground arith

-- Where the session is not turned away and a needed login was made, a sender that is rejected for
-- its form leaves the transaction open all the same: the session then counts as having received
-- MAIL, and it has no recipient.
mail_rejected_opens :
    (env : Env) (c size : ℕ) (from : Text) (s : Session)
    → s.rate_limit_exceeded ≡ false
    → env.auth_required && not s.authenticated ≡ false
    → is_valid_email_format (address_of (c ∷ from)) ≡ false
    → ((mail env (c ∷ from) size s).1 ≡ some (smtp_error 553 5 1 3 invalid_sender))
      × ((mail env (c ∷ from) size s).0.mail_from_received ≡ true)
      × ((mail env (c ∷ from) size s).0.recipients ≡ [])
unfolding mail
mail_rejected_opens env c size from s free allowed bad = ground arith
