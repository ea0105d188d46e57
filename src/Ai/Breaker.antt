-- ===== src/Ai/Breaker.antt =====
-- pkg/ai/ratelimit_provider.go, the circuit breaker. Each method holds the mutex, so concurrent use
-- is a sequence of method calls. Times are nanoseconds; the zero time is 0. The failure counter
-- counts calls of `recordFailure` and is not bounded here.
pub mod Laws
pub mod Traces
pub mod Tests
use yby_cli.Prelude.{ℕ, ◌+◌, ◌-◌, ◌*◌, Bool, true, false, List, [], ◌∷◌, leb, ltb, if◌then◌else◌}

pub data CircuitState : Type 0 where
  closed open_circuit half_open : CircuitState

abbrev pub circuit_breaker_threshold : ℕ
circuit_breaker_threshold = 5

abbrev pub circuit_breaker_cooldown : ℕ
circuit_breaker_cooldown = 30 * 1000000000

pub record CircuitBreaker : Type 0 where
  pub state : CircuitState
  pub consecutive_fails : ℕ
  pub last_fail_time : ℕ

unfoldable pub new_circuit_breaker : CircuitBreaker
new_circuit_breaker = record { state = closed; consecutive_fails = 0; last_fail_time = 0 }

abbrev pub is_half_open : CircuitState → Bool
is_half_open half_open = true
is_half_open _ = false

-- (cb *CircuitBreaker) allow, at the time that `time.Since` reads
unfoldable pub allow : ℕ → CircuitBreaker → CircuitBreaker × Bool
allow now cb = elim cb.state [
  | closed ↦ (cb, true)
  | open_circuit ↦
      if leb circuit_breaker_cooldown (now - cb.last_fail_time)
      then (record cb { state = half_open }, true)
      else (cb, false)
  | half_open ↦ (cb, true)
]

-- (cb *CircuitBreaker) recordSuccess
unfoldable pub record_success : CircuitBreaker → CircuitBreaker
record_success cb =
    let reset = record cb { consecutive_fails = 0 } in
    if is_half_open cb.state then record reset { state = closed } else reset

-- (cb *CircuitBreaker) recordFailure
unfoldable pub record_failure : ℕ → ℕ → CircuitBreaker → CircuitBreaker × Bool
record_failure status_code now cb =
    if ltb status_code 500
    then (cb, false)
    else let failed = record cb {
      consecutive_fails = cb.consecutive_fails + 1;
      last_fail_time = now;
    } in
      if is_half_open cb.state
      then (record failed { state = open_circuit }, true)
      else if leb circuit_breaker_threshold failed.consecutive_fails
      then (record failed { state = open_circuit }, true)
      else (failed, false)

-- A call of a method, by any goroutine, with the time that it reads.
pub data Call : Type 0 where
  ask : ℕ → Call
  success : Call
  failure : ℕ → ℕ → Call

unfoldable pub step : CircuitBreaker → Call → CircuitBreaker
unfolding allow record_success record_failure
step cb (ask now) = (allow now cb).0
step cb success = record_success cb
step cb (failure status_code now) = (record_failure status_code now cb).0

unfoldable pub run : CircuitBreaker → List Call → CircuitBreaker
run cb [] = cb
run cb (c ∷ cs) = run (step cb c) cs
