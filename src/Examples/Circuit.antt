-- ===== src/Examples/Circuit.antt =====
-- The circuit breaker of internal/repository/circuitbreaker.go.
use yunt.Prelude.{◌≡◌, refl, false, List, [], ◌∷◌, arith}
use yunt.Prelude.Int.{pos, negsuc, positive_or}
use yunt.Repository.Circuit.{
  CircuitBreakerConfig, CircuitBreaker, circuit_closed, circuit_open, circuit_half_open, Call,
  allows, succeeds, fails, step, new_circuit_breaker, allow, run,
}
use yunt.Repository.Circuit.Invariant.{IsSound, run-new_circuit_breaker-IsSound}
use yunt.Repository.Circuit.Outage.{outage, successes_by, recovery}

abbrev small : CircuitBreakerConfig
small = record {
  failure_threshold = pos 2;
  reset_timeout = pos 30;
  half_open_max_requests = negsuc 0;
}

abbrev fresh : CircuitBreaker
fresh = record {
  state = circuit_closed;
  failures = 0;
  successes = 0;
  half_open_requests = 0;
  last_failure = 0;
  failure_threshold = 2;
  reset_timeout = 30;
  half_open_max_requests = 3;
  listening = false;
  notified = [];
}

abbrev tripped : CircuitBreaker
tripped = record fresh { state = circuit_open; last_failure = 100 }

abbrev calls : List Call
calls = fails 5 ∷ fails 6 ∷ allows 40 ∷ succeeds ∷ []

new_small : new_circuit_breaker small ≡ fresh
unfolding new_circuit_breaker positive_or
new_small = refl

run_calls : (run fresh calls).state ≡ circuit_half_open
unfolding run step
run_calls = refl

tripped-IsSound : IsSound tripped
tripped-IsSound = record {
  threshold = omega arith;
  timeout = omega arith;
  trials = omega arith;
  counters = omega arith;
}

run-new_circuit_breaker-IsSound_example : IsSound (run (new_circuit_breaker small) calls)
run-new_circuit_breaker-IsSound_example = run-new_circuit_breaker-IsSound small calls

outage_example :
    ((run tripped (allows 110 ∷ fails 120 ∷ succeeds ∷ [])).state ≡ circuit_open)
    × ((allow 125 (run tripped (allows 110 ∷ fails 120 ∷ succeeds ∷ []))).1 ≡ false)
outage_example =
    outage tripped (allows 110 ∷ fails 120 ∷ succeeds ∷ []) 125 refl (omega arith) (omega arith)

recovery_example : (successes_by tripped ((130, 131) ∷ (132, 133) ∷ [])).state ≡ circuit_half_open
recovery_example = recovery tripped 130 131 ((132, 133) ∷ []) tripped-IsSound refl (omega arith)
