-- ===== src/Domain/Webhook/Retries.antt =====
-- When a webhook is given up: the counts of `RecordSuccess` and `RecordFailure`.
use yunt.Prelude.{ℕ, zero, suc, ◌≡◌, refl, ◌+◌, String, arith, ltb, leb, if◌then◌else◌}
use yunt.Domain.Webhook.{
  Webhook, status_active, status_failed, is_active, record_success, record_failure, should_retry,
}

-- `n` failures one after the other, at the times and with the texts given.
abbrev failures : ℕ → (ℕ → ℕ) → (ℕ → String) → Webhook → Webhook
failures zero at text w = w
failures (suc n) at text w = record_failure (at n) (text n) (failures n at text w)

-- The counts and the status after `n` failures that follow a success.
failures-state :
    (n : ℕ) (at : ℕ → ℕ) (text : ℕ → String) (w : Webhook)
    → w.retry_count ≡ 0
    → w.status ≡ status_active
    → let w' = failures n at text w in
      (w'.retry_count ≡ n)
      × (w'.failure_count ≡ w.failure_count + n)
      × (w'.max_retries ≡ w.max_retries)
      × (w'.status ≡ (if ltb w.max_retries n then status_failed else status_active))
unfolding record_failure
failures-state zero at text w z a = (z, omega arith, refl, rw a (ground arith))
failures-state (suc n) at text w z a =
    let (r, f, m, s) = failures-state n at text w z a in
    (omega (arith, r), omega (arith, f), m, rw (r, m, s) (ground arith))

-- From a success on, an active webhook outlives as many failures in a row as it has retries, and
-- says that it is to be retried; with one more it has failed, and says that it is not.
failures-give_up :
    (n now : ℕ) (at : ℕ → ℕ) (text : ℕ → String) (w : Webhook)
    → w.status ≡ status_active
    → let w' = failures n at text (record_success now w) in
      (w'.failure_count ≡ w.failure_count + n)
      × (is_active w' ≡ leb n w.max_retries)
      × (should_retry w' ≡ leb n w.max_retries)
unfolding record_success should_retry
failures-give_up n now at text w h =
    let (r, f, m, s) = failures-state n at text (record_success now w) refl h in
    (f, rw s (ground arith), rw (r, m, s) (ground arith))
