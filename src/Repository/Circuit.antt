-- ===== src/Repository/Circuit.antt =====
-- internal/repository/circuitbreaker.go: the circuit breaker of the database operations. Every
-- method holds the mutex from its first line to its last, so a method is one step of the state.
-- Times are nanoseconds on a clock that does not run backwards, an argument of each step; the
-- goroutine that a transition starts is the entry that it adds to `notified`, newest first.
pub mod Invariant
pub mod Outage
pub mod Notices
use yunt.Prelude.{
  ℕ, ◌+◌, ◌*◌, ◌^◌, Bool, true, false, not, ◌&&◌, List, [], ◌∷◌, ltb, leb, if◌then◌else◌,
}
use yunt.Prelude.Int.{ℤ, pos, positive_or}

pub data CircuitState : Type 0 where
  circuit_closed circuit_open circuit_half_open : CircuitState

-- `from != to`
abbrev pub same_state : CircuitState → CircuitState → Bool
same_state circuit_closed circuit_closed = true
same_state circuit_open circuit_open = true
same_state circuit_half_open circuit_half_open = true
same_state _ _ = false

pub record CircuitBreakerConfig : Type 0 where
  pub failure_threshold : ℤ
  pub reset_timeout : ℤ
  pub half_open_max_requests : ℤ

abbrev pub second : ℕ
second = 10 ^ 9

abbrev pub default_circuit_breaker_config : CircuitBreakerConfig
default_circuit_breaker_config = record {
  failure_threshold = pos 5;
  reset_timeout = pos (30 * second);
  half_open_max_requests = pos 3;
}

pub record CircuitBreaker : Type 0 where
  pub state : CircuitState
  pub failures : ℕ
  pub successes : ℕ
  pub half_open_requests : ℕ
  pub last_failure : ℕ
  pub failure_threshold : ℕ
  pub reset_timeout : ℕ
  pub half_open_max_requests : ℕ
  pub listening : Bool
  pub notified : List (CircuitState × CircuitState)

unfoldable pub new_circuit_breaker : CircuitBreakerConfig → CircuitBreaker
new_circuit_breaker cfg = record {
  state = circuit_closed;
  failures = 0;
  successes = 0;
  half_open_requests = 0;
  last_failure = 0;
  failure_threshold = positive_or cfg.failure_threshold 5;
  reset_timeout = positive_or cfg.reset_timeout (30 * second);
  half_open_max_requests = positive_or cfg.half_open_max_requests 3;
  listening = false;
  notified = [];
}

unfoldable pub on_state_change : Bool → CircuitBreaker → CircuitBreaker
on_state_change fn cb = record cb { listening = fn }

unfoldable pub transition : CircuitState → CircuitBreaker → CircuitBreaker
transition to cb = record cb {
  state = to;
  failures = 0;
  successes = 0;
  half_open_requests = 0;
  notified =
      if cb.listening && not (same_state cb.state to)
      then (cb.state, to) ∷ cb.notified
      else cb.notified;
}

-- `time.Since(cb.lastFailure) >= cb.config.ResetTimeout`
abbrev pub timed_out : ℕ → CircuitBreaker → Bool
timed_out now cb = leb (cb.last_failure + cb.reset_timeout) now

reported : CircuitState → ℕ → CircuitBreaker → CircuitState
reported circuit_open now cb = if timed_out now cb then circuit_half_open else circuit_open
reported circuit_closed now cb = circuit_closed
reported circuit_half_open now cb = circuit_half_open

-- `State`, which changes nothing
unfoldable pub state_at : ℕ → CircuitBreaker → CircuitState
unfolding reported
state_at now cb = reported cb.state now cb

allow_in : CircuitState → ℕ → CircuitBreaker → CircuitBreaker × Bool
unfolding transition
allow_in circuit_closed now cb = (cb, true)
allow_in circuit_open now cb =
    if timed_out now cb
    then (record (transition circuit_half_open cb) { half_open_requests = 1 }, true)
    else (cb, false)
allow_in circuit_half_open now cb =
    if ltb cb.half_open_requests cb.half_open_max_requests
    then (record cb { half_open_requests = cb.half_open_requests + 1 }, true)
    else (cb, false)

unfoldable pub allow : ℕ → CircuitBreaker → CircuitBreaker × Bool
unfolding allow_in
allow now cb = allow_in cb.state now cb

success_in : CircuitState → CircuitBreaker → CircuitBreaker
unfolding transition
success_in circuit_half_open cb =
    let counted = record cb { successes = cb.successes + 1 } in
    if leb cb.half_open_max_requests (cb.successes + 1)
    then transition circuit_closed counted
    else counted
success_in circuit_closed cb = record cb { failures = 0 }
success_in circuit_open cb = cb

unfoldable pub record_success : CircuitBreaker → CircuitBreaker
unfolding success_in
record_success cb = success_in cb.state cb

failure_in : CircuitState → CircuitBreaker → CircuitBreaker
unfolding transition
failure_in circuit_closed cb =
    let counted = record cb { failures = cb.failures + 1 } in
    if leb cb.failure_threshold (cb.failures + 1) then transition circuit_open counted else counted
failure_in circuit_half_open cb = transition circuit_open cb
failure_in circuit_open cb = cb

unfoldable pub record_failure : ℕ → CircuitBreaker → CircuitBreaker
unfolding failure_in
record_failure now cb = failure_in cb.state (record cb { last_failure = now })

unfoldable pub reset : CircuitBreaker → CircuitBreaker
unfolding transition
reset cb = transition circuit_closed cb

pub data Outcome : Type 0 where
  refused failed succeeded : Outcome

after_call : ℕ → CircuitBreaker × Bool → CircuitBreaker × Outcome
unfolding record_failure record_success
after_call ended (cb, true) = (record_failure ended cb, failed)
after_call ended (cb, false) = (record_success cb, succeeded)

admitted :
    (CircuitBreaker → CircuitBreaker × Bool) → ℕ → CircuitBreaker × Bool → CircuitBreaker × Outcome
unfolding after_call
admitted fn ended (cb, true) = after_call ended (fn cb)
admitted fn ended (cb, false) = (cb, refused)

-- `fn` stands for the call and for all that other goroutines do to the breaker while it runs; it
-- says whether the call failed. `started` and `ended` are the times of the two readings.
unfoldable pub execute :
    (CircuitBreaker → CircuitBreaker × Bool) → ℕ → ℕ → CircuitBreaker → CircuitBreaker × Outcome
unfolding allow admitted
execute fn started ended cb = admitted fn ended (allow started cb)

-- What a goroutine may do to the breaker, at its time.
pub data Call : Type 0 where
  allows : ℕ → Call
  succeeds : Call
  fails : ℕ → Call
  resets : Call

unfoldable pub step : CircuitBreaker → Call → CircuitBreaker
unfolding allow record_success record_failure reset
step cb (allows now) = (allow now cb).0
step cb succeeds = record_success cb
step cb (fails now) = record_failure now cb
step cb resets = reset cb

unfoldable pub run : CircuitBreaker → List Call → CircuitBreaker
run cb [] = cb
run cb (c ∷ cs) = run (step cb c) cs
