-- ===== src/Repository/Circuit/Invariant.antt =====
-- The counters of the circuit breaker in each state.
use yunt.Prelude.{◌≤◌, ◌<◌, ◌≡◌, List, [], ◌∷◌, arith}
use yunt.Prelude.Int.{positive_or-pos}
use yunt.Repository.Circuit.{
  CircuitState, circuit_closed, circuit_open, circuit_half_open, CircuitBreakerConfig,
  CircuitBreaker, Call, allows, succeeds, fails, resets, new_circuit_breaker, step, run,
}

-- What the counters hold in each state.
abbrev pub Counters : CircuitState → CircuitBreaker → Type 0
Counters circuit_closed cb =
    (cb.failures < cb.failure_threshold) × (cb.successes ≡ 0) × (cb.half_open_requests ≡ 0)
Counters circuit_open cb = (cb.failures ≡ 0) × (cb.successes ≡ 0) × (cb.half_open_requests ≡ 0)
Counters circuit_half_open cb =
    (cb.failures ≡ 0)
    × (cb.successes < cb.half_open_max_requests)
    × (1 ≤ cb.half_open_requests)
    × (cb.half_open_requests ≤ cb.half_open_max_requests)

pub record IsSound (cb : CircuitBreaker) : Type 0 where
  pub threshold : 0 < cb.failure_threshold
  pub timeout : 0 < cb.reset_timeout
  pub trials : 0 < cb.half_open_max_requests
  pub counters : Counters cb.state cb

new_circuit_breaker-IsSound : (cfg : CircuitBreakerConfig) → IsSound (new_circuit_breaker cfg)
unfolding new_circuit_breaker
new_circuit_breaker-IsSound cfg = ground (
  arith,
  positive_or-pos cfg.failure_threshold 5,
  positive_or-pos cfg.reset_timeout 30_000_000_000,
  positive_or-pos cfg.half_open_max_requests 3,
)

step-IsSound : (cb : CircuitBreaker) (c : Call) → IsSound cb → IsSound (step cb c)
unfolding step
step-IsSound cb (allows now) v = ground arith
step-IsSound cb succeeds v = ground arith
step-IsSound cb (fails now) v = ground arith
step-IsSound cb resets v = ground arith

run-IsSound : (cb : CircuitBreaker) (cs : List Call) → IsSound cb → IsSound (run cb cs)
unfolding run
run-IsSound cb [] v = v
run-IsSound cb (c ∷ cs) v = run-IsSound (step cb c) cs (step-IsSound cb c v)

-- From a new breaker, whatever its configuration, every sequence of calls leaves the settings
-- positive and the counters in order: closed, fewer failures than the threshold and no trial on
-- record; open, all counters zero; half-open, no failure, fewer successes than the limit, and
-- between one trial and the limit.
pub run-new_circuit_breaker-IsSound :
    (cfg : CircuitBreakerConfig) (cs : List Call) → IsSound (run (new_circuit_breaker cfg) cs)
run-new_circuit_breaker-IsSound cfg cs = run-IsSound _ cs (new_circuit_breaker-IsSound cfg)
