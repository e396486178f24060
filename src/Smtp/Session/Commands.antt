-- ===== src/Smtp/Session/Commands.antt =====
-- The commands of a session keep its envelope in order.
use mathlib.Core.List.{append-nil, append_assoc}
use yunt.Prelude.{
  ◌∙◌, ℕ, ◌≤◌, ◌<◌, ◌≡◌, refl, ◌⊎◌, inl, inr, String, true, false, ◌&&◌, Option, none, some, List,
  [], ◌∷◌, ◌++◌, arith, ltb, leb, length, length-append, Bool-cases,
}
use yunt.Smtp.Address.{Text, is_valid_email_format}
use yunt.Smtp.Session.{
  Env, Found, found, not_found, failed, RecipientInfo, Session, new_session, reset, mail, rcpt,
  known, looked_up, find, address_of,
}

module _ (env : Env) where
  -- Each recipient is well-formed and none is, but for case, one of those before it.
  abbrev pub InOrder : List RecipientInfo → List RecipientInfo → Type 0
  InOrder before [] = Unit
  InOrder before (r ∷ rs) =
      (is_valid_email_format r.address ≡ true)
      × (known env r.address before ≡ false)
      × InOrder (before ++ r ∷ []) rs

  InOrder-snoc :
      (before rs : List RecipientInfo) (r : RecipientInfo)
      → InOrder before rs
      → is_valid_email_format r.address ≡ true
      → known env r.address (before ++ rs) ≡ false
      → InOrder before (rs ++ r ∷ [])
  InOrder-snoc before [] r h f k = (f, rw (← append-nil before) k, tt)
  InOrder-snoc before (q ∷ rs) r h f k = (
    h.0,
    h.1,
    InOrder-snoc (before ++ q ∷ []) rs r h.2 f (rw (append_assoc before (q ∷ []) rs) k),
  )

  -- What holds between two commands of a session.
  pub record IsSound (s : Session) : Type 0 where
    pub authorised : env.auth_required ≡ true → s.mail_from_received ≡ true → s.authenticated ≡ true
    pub bounded : 0 < env.max_recipients → length s.recipients ≤ env.max_recipients
    pub in_order : InOrder [] s.recipients
    pub sender_formed : (s.sender ≡ []) ⊎ (is_valid_email_format s.sender ≡ true)

  reset-IsSound : (s : Session) → IsSound s → IsSound (reset s)
  unfolding reset
  reset-IsSound s v = record {
    authorised = λ h k. cc;
    bounded = λ h. omega arith;
    in_order = tt;
    sender_formed = inl refl;
  }

  mail-IsSound :
      (from : Text) (size : ℕ) (s : Session) → IsSound s → IsSound (mail env from size s).0
  unfolding mail
  mail-IsSound [] size s v = record {
    authorised = λ h k. ground (arith, v.authorised);
    bounded = λ h. ground (arith, v.bounded h);
    in_order = ground (arith, v.in_order);
    sender_formed = ground (arith, v.sender_formed);
  }
  mail-IsSound (c ∷ from) size s v = record {
    authorised = λ h k. ground (arith, v.authorised);
    bounded = λ h. ground (arith, v.bounded h);
    in_order = ground (arith, v.in_order);
    sender_formed = ground (arith, v.sender_formed);
  }

  -- What `Rcpt` does to the recipients.
  data Added (s : Session) (t : Session) : Type 0 where
    same : t ≡ s → Added s t
    one :
        (r : RecipientInfo)
        → is_valid_email_format r.address ≡ true
        → known env r.address s.recipients ≡ false
        → (0 < env.max_recipients → length s.recipients < env.max_recipients)
        → t ≡ record s { recipients = s.recipients ++ r ∷ [] }
        → Added s t

  looked_up-Added :
      (to : Text) (f : Option Found) (s : Session)
      → is_valid_email_format to ≡ true
      → known env to s.recipients ≡ false
      → (0 < env.max_recipients → length s.recipients < env.max_recipients)
      → Added s (looked_up env to f s).0
  unfolding looked_up
  looked_up-Added to none s h k b = one (record { address = to; mailbox = none }) h k b refl
  looked_up-Added to (some (found m)) s h k b =
      one (record { address = to; mailbox = some m }) h k b refl
  looked_up-Added to (some not_found) s h k b = same refl
  looked_up-Added to (some failed) s h k b = same refl

  -- The tests of `rcpt` before the lookup, one after the other.
  rcpt_cases :
      (to : Text) (s : Session)
      → ((rcpt env to s).0 ≡ s)
        ⊎ ((is_valid_email_format (address_of to) ≡ true)
            × (known env (address_of to) s.recipients ≡ false)
            × ((0 < env.max_recipients → length s.recipients < env.max_recipients)
                × ((rcpt env to s).0
                    ≡ (looked_up env (address_of to) (find env (address_of to)) s).0)))
  unfolding rcpt
  rcpt_cases to s =
      let full = ltb 0 env.max_recipients && leb env.max_recipients (length s.recipients) in
      elim (Bool-cases full) [
        | inl e ↦ inl (rw e)
        | inr e ↦ elim (Bool-cases (is_valid_email_format (address_of to))) [
          | inr f ↦ inl (rw (e, f))
          | inl f ↦ elim (Bool-cases (known env (address_of to) s.recipients)) [
            | inl k ↦ inl (rw (e, f, k))
            | inr k ↦ inr (f, k, (λ p. ground arith, rw (e, f, k)))
          ]
        ]
      ]

  rcpt-Added : (to : Text) (s : Session) → Added s (rcpt env to s).0
  rcpt-Added to s = elim (rcpt_cases to s) [
    | inl e ↦ same e
    | inr (f, k, (b, e)) ↦ rw e (looked_up-Added (address_of to) (find env (address_of to)) s f k b)
  ]

  Added-IsSound : (s t : Session) → Added s t → IsSound s → IsSound t
  Added-IsSound s t (same e) v = rw e v
  Added-IsSound s t (one r f k b e) v = rw e (record {
    authorised = v.authorised;
    bounded = λ h. omega (arith, b h, length-append s.recipients (r ∷ []));
    in_order = InOrder-snoc [] s.recipients r v.in_order f k;
    sender_formed = v.sender_formed;
  })

-- What a client sends, with the outcome of each login.
pub data Command : Type 0 where
  mails : Text → ℕ → Command
  rcpts : Text → Command
  resets : Command
  logs_in : String → Command

module _ (env : Env) where
  pub after : Session → Command → Session
  after s (mails from size) = (mail env from size s).0
  after s (rcpts to) = (rcpt env to s).0
  after s resets = reset s
  after s (logs_in user) = record s { authenticated = true; auth_user = some user }

  pub session_after : Session → List Command → Session
  session_after s [] = s
  session_after s (c ∷ cs) = session_after (after s c) cs

  after-IsSound : (s : Session) (c : Command) → IsSound env s → IsSound env (after s c)
  unfolding after
  after-IsSound s (mails from size) v = mail-IsSound env from size s v
  after-IsSound s (rcpts to) v = Added-IsSound env s _ (rcpt-Added env to s) v
  after-IsSound s resets v = reset-IsSound env s v
  after-IsSound s (logs_in user) v = record {
    authorised = λ h k. refl;
    bounded = v.bounded;
    in_order = v.in_order;
    sender_formed = v.sender_formed;
  }

  after-remote_addr : (s : Session) (c : Command) → (after s c).remote_addr ≡ s.remote_addr
  unfolding after mail rcpt reset
  after-remote_addr s (mails from size) = ground arith
  after-remote_addr s (rcpts to) = ground arith
  after-remote_addr s resets = refl
  after-remote_addr s (logs_in user) = refl

  pub session_after-remote_addr :
      (s : Session) (cs : List Command) → (session_after s cs).remote_addr ≡ s.remote_addr
  unfolding session_after
  session_after-remote_addr s [] = refl
  session_after-remote_addr s (c ∷ cs) =
      session_after-remote_addr (after s c) cs ∙ after-remote_addr s c

  session_after-IsSound :
      (s : Session) (cs : List Command) → IsSound env s → IsSound env (session_after s cs)
  unfolding session_after
  session_after-IsSound s [] v = v
  session_after-IsSound s (c ∷ cs) v = session_after-IsSound (after s c) cs (after-IsSound s c v)

  -- Whatever a client sends on a new connection: where authentication is required, no transaction is
  -- open before it has logged in; the recipients are no more than the limit, each well-formed and
  -- none but for case a repetition of one before it; the sender is empty or well-formed.
  pub new_session-IsSound :
      (remote_addr : String) (cs : List Command)
      → IsSound env (session_after (new_session remote_addr) cs)
  new_session-IsSound remote_addr cs = session_after-IsSound (new_session remote_addr) cs (
      unfold new_session in
      record {
        authorised = λ h k. absurd (ground arith);
        bounded = λ h. omega arith;
        in_order = tt;
        sender_formed = inl refl;
      })
