-- ===== src/Ai/Breaker/Tests.antt =====
-- Lives of a circuit breaker.
use yby_cli.Prelude.{◌≤◌, ◌<◌, ◌≡◌, refl, List, [], ◌∷◌, true, arith}
use yby_cli.Ai.Breaker.{
  CircuitBreaker, closed, open_circuit, circuit_breaker_threshold, new_circuit_breaker, allow,
  record_success, record_failure, Call, failure, step, run,
}
use yby_cli.Ai.Breaker.Traces.{
  streak, server_failures, closed-streak-lt, opened_needs_failures, probe,
}

abbrev four : List Call
four = failure 500 1 ∷ failure 502 2 ∷ failure 429 3 ∷ failure 503 4 ∷ failure 500 5 ∷ []

abbrev five : List Call
five = failure 500 0 ∷ four

closed-streak-lt_example : streak 0 four < circuit_breaker_threshold
unfolding run step new_circuit_breaker
closed-streak-lt_example = closed-streak-lt four refl

five_open : (run new_circuit_breaker five).state ≡ open_circuit
unfolding run step new_circuit_breaker
five_open = refl

opened_needs_failures_example : circuit_breaker_threshold ≤ server_failures five
unfolding run step new_circuit_breaker
opened_needs_failures_example = opened_needs_failures five (λ e. cc)

abbrev tripped : CircuitBreaker
tripped = record { state = open_circuit; consecutive_fails = 5; last_fail_time = 5 }

probe_example :
    ((allow 40000000000 tripped).1 ≡ true)
    × ((record_success (allow 40000000000 tripped).0).state ≡ closed)
    × ((record_success (allow 40000000000 tripped).0).consecutive_fails ≡ 0)
    × ((record_failure 500 41000000000 (allow 40000000000 tripped).0).0.state ≡ open_circuit)
    × ((record_failure 500 41000000000 (allow 40000000000 tripped).0).0.last_fail_time
        ≡ 41000000000)
probe_example = probe tripped 40000000000 41000000000 500 refl (omega arith) (omega arith)
