-- ===== src/Ai/Breaker/Laws.antt =====
-- What one call does to the circuit breaker.
use yby_cli.Prelude.{◌<◌, ◌≡◌, arith}
use yby_cli.Ai.Breaker.{
  CircuitBreaker, closed, circuit_breaker_threshold, new_circuit_breaker, Call, step,
}

-- A closed breaker has seen fewer failures in a row than the threshold.
pub record IsSound (cb : CircuitBreaker) : Type 0 where
  pub below : cb.state ≡ closed → cb.consecutive_fails < circuit_breaker_threshold

pub new-IsSound : IsSound new_circuit_breaker
unfolding new_circuit_breaker
new-IsSound = ground arith

pub step-IsSound : (cb : CircuitBreaker) (c : Call) → IsSound cb → IsSound (step cb c)
unfolding step
step-IsSound cb c h = ground arith
