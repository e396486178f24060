-- ===== src/Service/Relay/Tries.antt =====
-- The attempts of a relay.
use mathlib.Core.Path.{subst}
use yunt.Prelude.{
  sym, ℕ, zero, suc, ◌≡◌, refl, ap, ◌∙◌, ◌≤◌, ◌+◌, ◌-◌, inl, inr, String, Bool, true, false, Option,
  none, some, List, [], ◌∷◌, arith, not, if◌then◌else◌, Bool-cases, Option-cases,
}
use yunt.Prelude.Int.{pos}
use yunt.Smtp.Address.{Text}
use yunt.Service.Relay.{
  RelayError, send_failed, RelayService, RelayResult, LoopEnd, relay_loop, finished, is_nil,
  filter_allowed_recipients, relay_allowed, relay, rounds,
}

-- The rounds that are left, the next attempt, and how the loop ends.
pub data Tries (do_relay : ℕ → Option String) (done : ℕ → Bool) : ℕ → ℕ → LoopEnd → Type 0 where
  delivered :
      {n a : ℕ}
      → do_relay a ≡ none
      → Tries do_relay done (suc n) a (record { sent = true; attempts = a; last_err = none })
  cancelled :
      {n a : ℕ} {err : String}
      → do_relay a ≡ some err
      → done a ≡ true
      → Tries do_relay done
          (suc n)
          a
          (record { sent = false; attempts = a; last_err = some (send_failed err) })
  exhausted :
      {a : ℕ} {err : String}
      → do_relay a ≡ some err
      → done a ≡ false
      → Tries do_relay done 1 a
          (record { sent = false; attempts = a; last_err = some (send_failed err) })
  retried :
      {n a : ℕ} {err : String} {e : LoopEnd}
      → do_relay a ≡ some err
      → done a ≡ false
      → Tries do_relay done (suc n) (a + 1) e
      → Tries do_relay done (suc (suc n)) a e

module _ (do_relay : ℕ → Option String) (done : ℕ → Bool) where
  relay_loop-sent :
      (n a : ℕ) (last : Option RelayError)
      → do_relay a ≡ none
      → relay_loop do_relay done (suc n) a last
        ≡ record { sent = true; attempts = a; last_err = none }
  unfolding relay_loop
  relay_loop-sent n a last h = rw (relay_loop, h) refl

  relay_loop-done :
      (n a : ℕ) (last : Option RelayError) (err : String)
      → do_relay a ≡ some err
      → done a ≡ true
      → relay_loop do_relay done (suc n) a last
        ≡ record { sent = false; attempts = a; last_err = some (send_failed err) }
  unfolding relay_loop
  relay_loop-done n a last err h k = rw (relay_loop, h, k) refl

  relay_loop-next :
      (n a : ℕ) (last : Option RelayError) (err : String)
      → do_relay a ≡ some err
      → done a ≡ false
      → relay_loop do_relay done (suc n) a last
        ≡ relay_loop do_relay done n (a + 1) (some (send_failed err))
  unfolding relay_loop
  relay_loop-next n a last err h k = rw (relay_loop, h, k) refl

  relay_loop-zero :
      (a : ℕ) (last : Option RelayError)
      → relay_loop do_relay done zero (a + 1) last
        ≡ record { sent = false; attempts = a; last_err = last }
  unfolding relay_loop
  relay_loop-zero a last =
      let same : a + 1 - 1 ≡ a = omega arith in
      ap (λ n. record { sent = false; attempts = n; last_err = last }) same

  -- One round that does not end the loop before its last.
  tried :
      (n a : ℕ) (last : Option RelayError)
      → ((err : String)
          → do_relay a ≡ some err
          → done a ≡ false
          → Tries do_relay done
              (suc n)
              a
              (relay_loop do_relay done n (a + 1) (some (send_failed err))))
      → Tries do_relay done (suc n) a (relay_loop do_relay done (suc n) a last)
  tried n a last next = elim (Option-cases (do_relay a)) [
    | inl h ↦ rw (relay_loop-sent n a last h) (delivered h)
    | inr (err, h) ↦ elim (Bool-cases (done a)) [
      | inl k ↦ rw (relay_loop-done n a last err h k) (cancelled h k)
      | inr k ↦ rw (relay_loop-next n a last err h k) (next err h k)
    ]
  ]

  relay_loop-Tries :
      (n a : ℕ) (last : Option RelayError)
      → Tries do_relay done (suc n) a (relay_loop do_relay done (suc n) a last)
  relay_loop-Tries zero a last =
      tried zero a last (λ err h k. rw (relay_loop-zero a (some (send_failed err))) (exhausted h k))
  relay_loop-Tries (suc n) a last =
      tried (suc n) a last
        (λ err h k. retried h k (relay_loop-Tries n (a + 1) (some (send_failed err))))

  Tries-attempts :
      {n a : ℕ} {e : LoopEnd}
      → Tries do_relay done n a e
      → (a ≤ e.attempts) × (e.attempts + 1 ≤ a + n)
  Tries-attempts (delivered h) = (omega arith, omega arith)
  Tries-attempts (cancelled h k) = (omega arith, omega arith)
  Tries-attempts (exhausted h k) = (omega arith, omega arith)
  Tries-attempts (retried h k t) =
      let (l, r) = Tries-attempts t in (omega (arith, l), omega (arith, r))

if_enabled {ℓ} :
    {A : Type ℓ} (enabled : Bool) (x y : A) → enabled ≡ true → (if not enabled then x else y) ≡ y
if_enabled enabled x y h = rw h refl

relay-enabled :
    (to_lower : Text → Text) (do_relay : List Text → ℕ → Option String) (done : ℕ → Bool)
    (recipients : List Text) (service : RelayService)
    → service.config.enabled ≡ true
    → relay to_lower do_relay done recipients service
      ≡ relay_allowed do_relay done
          (record service { total_attempts = service.total_attempts + 1 })
          (filter_allowed_recipients to_lower service.config recipients)
unfolding relay
relay-enabled to_lower do_relay done recipients service enabled =
    if_enabled service.config.enabled _ _ enabled

relay_allowed-finished :
    (do_relay : List Text → ℕ → Option String) (done : ℕ → Bool) (s : RelayService)
    (allowed : List Text) (retries : ℕ)
    → s.config.retry_count ≡ pos retries
    → is_nil allowed ≡ false
    → relay_allowed do_relay done s allowed
      ≡ finished allowed s (relay_loop (do_relay allowed) done (suc retries) 1 none)
unfolding relay_allowed
relay_allowed-finished do_relay done s [] retries count h = cc
relay_allowed-finished do_relay done s (r ∷ allowed) retries count h =
    ap (λ n. finished (r ∷ allowed) s (relay_loop (do_relay (r ∷ allowed)) done (rounds n) 1 none))
      count

-- What the result and the statistics tell of a loop that ended like this
abbrev pub Reports : List Text → RelayService → LoopEnd → RelayService × RelayResult → Type 0
Reports allowed s e (s', result) =
    (result.success ≡ e.sent)
    × (result.attempts ≡ e.attempts)
    × (result.error ≡ (if e.sent then none else e.last_err))
    × (result.recipients ≡ (if e.sent then allowed else []))
    × (result.failed_recipients ≡ (if e.sent then [] else allowed))
    × (s'.total_attempts ≡ s.total_attempts + 1)
    × (s'.total_successes ≡ s.total_successes + (if e.sent then 1 else 0))
    × (s'.total_failures ≡ s.total_failures + (if e.sent then 0 else 1))

finished-Reports :
    (allowed : List Text) (s : RelayService) (e : LoopEnd)
    → Reports allowed s e (finished allowed (record s { total_attempts = s.total_attempts + 1 }) e)
unfolding finished
finished-Reports allowed s e = ground arith

-- Where relaying is on and a recipient is allowed, the message is sent to the allowed recipients and
-- to no other: at least once and at most one time more than the retries; again only after a
-- failure, and no more once it was accepted or the context was done at the end of an attempt. The
-- result and the statistics tell of the last attempt, the recipients with it.
pub relay-Tries :
    (to_lower : Text → Text) (do_relay : List Text → ℕ → Option String) (done : ℕ → Bool)
    (recipients : List Text) (service : RelayService) (retries : ℕ)
    → service.config.enabled ≡ true
    → service.config.retry_count ≡ pos retries
    → let allowed = filter_allowed_recipients to_lower service.config recipients in
      is_nil allowed ≡ false
      → let r = relay to_lower do_relay done recipients service in
        (e : LoopEnd) × Tries (do_relay allowed) done (suc retries) 1 e
        × ((1 ≤ e.attempts) × (e.attempts ≤ suc retries))
        × (r ≡ finished allowed (record service { total_attempts = service.total_attempts + 1 }) e)
        × Reports allowed service e r
relay-Tries to_lower do_relay done recipients service retries enabled count some_allowed =
    let allowed = filter_allowed_recipients to_lower service.config recipients in
    let e = relay_loop (do_relay allowed) done (suc retries) 1 none in
    let t = relay_loop-Tries (do_relay allowed) done retries 1 none in
    let same =
      relay-enabled to_lower do_relay done recipients service enabled
      ∙ relay_allowed-finished do_relay done
          (record service { total_attempts = service.total_attempts + 1 }) allowed retries count
          some_allowed in
    let (l, r) = Tries-attempts (do_relay allowed) done t in
    (
      e,
      t,
      (l, omega (arith, r)),
      same,
      subst (Reports allowed service e) (sym same) (finished-Reports allowed service e),
    )
