-- ===== src/Repository/Circuit/Outage.antt =====
-- From the first failure to the recovery: how the circuit opens, stays open, and closes again.
use Prim.Native.Nat.{min}
use yunt.Prelude.{
  ℕ, suc, ◌+◌, ◌-◌, ◌≤◌, ◌<◌, ◌≡◌, refl, true, false, List, [], ◌∷◌, arith, length, leb,
  if◌then◌else◌,
}
use yunt.Repository.Circuit.{
  circuit_closed, circuit_open, circuit_half_open, CircuitBreaker, Call, allows, succeeds, fails,
  resets, allow, record_failure, execute, step, run,
}
use yunt.Repository.Circuit.Invariant.{IsSound}

abbrev pub record_failures : CircuitBreaker → List ℕ → CircuitBreaker
record_failures cb [] = cb
record_failures cb (t ∷ ts) = record_failures (record_failure t cb) ts

failures-stay_open :
    (cb : CircuitBreaker) (ts : List ℕ)
    → cb.state ≡ circuit_open
    → (record_failures cb ts).state ≡ circuit_open
failures-stay_open cb [] h = h
failures-stay_open cb (t ∷ ts) h =
    failures-stay_open (record_failure t cb) ts (unfold record_failure in ground arith)

-- On a closed circuit with fewer failures than the threshold, a run of failures opens the circuit
-- exactly when it brings the count to the threshold.
failures_open :
    (cb : CircuitBreaker) (ts : List ℕ)
    → cb.state ≡ circuit_closed
    → cb.failures < cb.failure_threshold
    → (record_failures cb ts).state ≡ (
        if leb cb.failure_threshold (cb.failures + length ts) then circuit_open else circuit_closed)
unfolding record_failure
failures_open cb [] s h = ground arith
failures_open cb (t ∷ ts) s h =
    ground
      (arith, failures-stay_open (record_failure t cb) ts, failures_open (record_failure t cb) ts)

-- What may happen during an outage that began at `t` and lasts `d`: requests before its end,
-- reports of calls that were still running, no reset.
abbrev pub Quiet : ℕ → ℕ → Call → Type 0
Quiet t d (allows now) = now < t + d
Quiet t d succeeds = Unit
Quiet t d (fails now) = t ≤ now
Quiet t d resets = ⊥

abbrev pub AllQuiet : ℕ → ℕ → List Call → Type 0
AllQuiet t d [] = Unit
AllQuiet t d (c ∷ cs) = Quiet t d c × AllQuiet t d cs

record IsOut (t d : ℕ) (cb : CircuitBreaker) : Type 0 where
  state_lem : cb.state ≡ circuit_open
  since : t ≤ cb.last_failure
  timeout : cb.reset_timeout ≡ d

step-IsOut :
    (t d : ℕ) (cb : CircuitBreaker) (c : Call) → Quiet t d c → IsOut t d cb → IsOut t d (step cb c)
unfolding step
step-IsOut t d cb (allows now) q v = ground arith
step-IsOut t d cb succeeds q v = ground arith
step-IsOut t d cb (fails now) q v = ground arith
step-IsOut t d cb resets q v = absurd q

run-IsOut :
    (t d : ℕ) (cb : CircuitBreaker) (cs : List Call)
    → AllQuiet t d cs
    → IsOut t d cb
    → IsOut t d (run cb cs)
unfolding run
run-IsOut t d cb [] q v = v
run-IsOut t d cb (c ∷ cs) q v = run-IsOut t d (step cb c) cs q.1 (step-IsOut t d cb c q.0 v)

refuses :
    (t d now : ℕ) (cb : CircuitBreaker) → now < t + d → IsOut t d cb → (allow now cb).1 ≡ false
unfolding allow
refuses t d now cb h v = ground arith

-- While the reset timeout has not passed since the last failure, an open circuit stays open and
-- refuses every request, whatever the calls that are still running report, unless it is reset.
pub outage :
    (cb : CircuitBreaker) (cs : List Call) (now : ℕ)
    → cb.state ≡ circuit_open
    → AllQuiet cb.last_failure cb.reset_timeout cs
    → now < cb.last_failure + cb.reset_timeout
    → ((run cb cs).state ≡ circuit_open) × ((allow now (run cb cs)).1 ≡ false)
outage cb cs now s q h =
    let v =
      run-IsOut cb.last_failure cb.reset_timeout cb cs q
        (record { state_lem = s; since = omega arith; timeout = refl }) in
    (v.state_lem, refuses cb.last_failure cb.reset_timeout now (run cb cs) h v)

-- How many requests at the given times are let through.
pub admissions : CircuitBreaker → List ℕ → ℕ
admissions cb [] = 0
admissions cb (t ∷ ts) =
    let rest = admissions (allow t cb).0 ts in if (allow t cb).1 then suc rest else rest

admissions-trials :
    (cb : CircuitBreaker) (ts : List ℕ)
    → cb.state ≡ circuit_half_open
    → cb.half_open_requests ≤ cb.half_open_max_requests
    → admissions cb ts ≡ min (length ts) (cb.half_open_max_requests - cb.half_open_requests)
unfolding admissions allow
admissions-trials cb [] s h = omega arith
admissions-trials cb (t ∷ ts) s h = ground (arith, admissions-trials (allow t cb).0 ts)

-- On an open circuit whose counters are in order, once the timeout has passed and as long as
-- nothing is reported back, exactly the configured number of requests is let through, and all of
-- them if there are fewer.
admissions_after_outage :
    (cb : CircuitBreaker) (t : ℕ) (ts : List ℕ)
    → IsSound cb
    → cb.state ≡ circuit_open
    → cb.last_failure + cb.reset_timeout ≤ t
    → admissions cb (t ∷ ts) ≡ min (suc (length ts)) cb.half_open_max_requests
unfolding admissions allow
admissions_after_outage cb t ts v s h = ground (arith, admissions-trials (allow t cb).0 ts)

-- One after the other, calls that succeed and touch the breaker no further.
pub successes_by : CircuitBreaker → List (ℕ × ℕ) → CircuitBreaker
successes_by cb [] = cb
successes_by cb ((t, u) ∷ ts) = successes_by (execute (λ c. (c, false)) t u cb).0 ts

successes-stay_closed :
    (cb : CircuitBreaker) (ts : List (ℕ × ℕ))
    → cb.state ≡ circuit_closed
    → (successes_by cb ts).state ≡ circuit_closed
unfolding successes_by
successes-stay_closed cb [] s = s
successes-stay_closed cb ((t, u) ∷ ts) s =
    successes-stay_closed (execute (λ c. (c, false)) t u cb).0 ts (unfold execute in ground arith)

successes_in_trial :
    (cb : CircuitBreaker) (ts : List (ℕ × ℕ))
    → cb.state ≡ circuit_half_open
    → cb.half_open_requests ≡ cb.successes
    → cb.successes < cb.half_open_max_requests
    → (successes_by cb ts).state ≡ (
        if leb cb.half_open_max_requests (cb.successes + length ts)
        then circuit_closed
        else circuit_half_open)
unfolding successes_by execute
successes_in_trial cb [] s e h = ground arith
successes_in_trial cb ((t, u) ∷ ts) s e h = ground (
  arith,
  successes-stay_closed (execute (λ c. (c, false)) t u cb).0 ts,
  successes_in_trial (execute (λ c. (c, false)) t u cb).0 ts,
)

-- On an open circuit whose counters are in order, after the timeout, calls that run one after the
-- other and succeed close the circuit exactly when they reach the configured number of trials.
pub recovery :
    (cb : CircuitBreaker) (t u : ℕ) (ts : List (ℕ × ℕ))
    → IsSound cb
    → cb.state ≡ circuit_open
    → cb.last_failure + cb.reset_timeout ≤ t
    → (successes_by cb ((t, u) ∷ ts)).state ≡ (
        if leb cb.half_open_max_requests (suc (length ts))
        then circuit_closed
        else circuit_half_open)
unfolding successes_by execute
recovery cb t u ts v s h = ground (
  arith,
  successes-stay_closed (execute (λ c. (c, false)) t u cb).0 ts,
  successes_in_trial (execute (λ c. (c, false)) t u cb).0 ts,
)

-- On an open circuit, the first trial after the timeout opens the circuit again if it fails, and
-- the timeout runs anew from the time of its failure.
relapse :
    (cb : CircuitBreaker) (t u now : ℕ)
    → cb.state ≡ circuit_open
    → cb.last_failure + cb.reset_timeout ≤ t
    → now < u + cb.reset_timeout
    → ((execute (λ c. (c, true)) t u cb).0.state ≡ circuit_open)
      × ((allow now (execute (λ c. (c, true)) t u cb).0).1 ≡ false)
unfolding execute
relapse cb t u now s h k = ground arith
