-- ===== src/Repository/Circuit/Notices.antt =====
-- The state changes that the listener is told of.
use yunt.Prelude.{◌≡◌, refl, true, false, List, [], ◌∷◌, arith}
use yunt.Repository.Circuit.{
  CircuitState, circuit_closed, same_state, CircuitBreakerConfig, CircuitBreaker, Call, allows,
  succeeds, fails, resets, new_circuit_breaker, on_state_change, step, run,
}

-- The entries, newest first, lead from `a` to `b`, and each is a change.
abbrev pub Chain : CircuitState → List (CircuitState × CircuitState) → CircuitState → Type 0
Chain a [] b = a ≡ b
Chain a ((from, to) ∷ rest) b = (to ≡ b) × (same_state from to ≡ false) × Chain a rest from

abbrev Told : CircuitState → CircuitBreaker → Type 0
Told a cb = (cb.listening ≡ true) × Chain a cb.notified cb.state

step-Told : (a : CircuitState) (cb : CircuitBreaker) (c : Call) → Told a cb → Told a (step cb c)
unfolding step
step-Told a cb (allows now) v = ground arith
step-Told a cb succeeds v = ground arith
step-Told a cb (fails now) v = ground arith
step-Told a cb resets v = ground arith

run-Told :
    (a : CircuitState) (cb : CircuitBreaker) (cs : List Call) → Told a cb → Told a (run cb cs)
unfolding run
run-Told a cb [] v = v
run-Told a cb (c ∷ cs) v = run-Told a (step cb c) cs (step-Told a cb c v)

-- A listener that is registered on a new breaker is told of every change of state, in order: each
-- change that it is told of starts where the one before ended, the first from the closed state, and
-- the last one ends in the present state.
notices :
    (cfg : CircuitBreakerConfig) (cs : List Call)
    → let cb = run (on_state_change true (new_circuit_breaker cfg)) cs in
      Chain circuit_closed cb.notified cb.state
notices cfg cs =
    (run-Told circuit_closed (on_state_change true (new_circuit_breaker cfg)) cs
      (unfold on_state_change new_circuit_breaker in (refl, refl))).1
