-- ===== src/Ai/Breaker/Traces.antt =====
-- The circuit breaker over every sequence of calls.
use yby_cli.Prelude.{
  ℕ, ◌+◌, ◌-◌, ◌≤◌, ◌<◌, ◌≡◌, ◌≢◌, refl, true, List, [], ◌∷◌, arith, ltb, if◌then◌else◌,
}
use yby_cli.Ai.Breaker.{
  CircuitBreaker, closed, open_circuit, circuit_breaker_threshold, circuit_breaker_cooldown,
  new_circuit_breaker, allow, record_success, record_failure, Call, ask, success, failure, step,
  run,
}
use yby_cli.Ai.Breaker.Laws.{IsSound, new-IsSound, step-IsSound}

-- The server failures since the last success, after a streak of `n`.
abbrev pub streak : ℕ → List Call → ℕ
streak n [] = n
streak n (ask now ∷ cs) = streak n cs
streak n (success ∷ cs) = streak 0 cs
streak n (failure status_code now ∷ cs) = streak (if ltb status_code 500 then n else n + 1) cs

-- All server failures of a trace.
abbrev pub server_failures : List Call → ℕ
server_failures [] = 0
server_failures (failure status_code now ∷ cs) =
    (if ltb status_code 500 then 0 else 1) + server_failures cs
server_failures (_ ∷ cs) = server_failures cs

consecutive_fails-step :
    (cb : CircuitBreaker) (c : Call)
    → (step cb c).consecutive_fails ≡ streak cb.consecutive_fails (c ∷ [])
unfolding step
consecutive_fails-step cb (ask now) = ground arith
consecutive_fails-step cb success = ground arith
consecutive_fails-step cb (failure status_code now) = ground arith

streak-cons :
    (n : ℕ) (c : Call) (cs : List Call) → streak n (c ∷ cs) ≡ streak (streak n (c ∷ [])) cs
streak-cons n (ask now) cs = refl
streak-cons n success cs = refl
streak-cons n (failure status_code now) cs = refl

consecutive_fails-run :
    (cb : CircuitBreaker) (cs : List Call)
    → (run cb cs).consecutive_fails ≡ streak cb.consecutive_fails cs
unfolding run
consecutive_fails-run cb [] = refl
consecutive_fails-run cb (c ∷ cs) =
    rw (streak-cons, ← consecutive_fails-step cb c) (consecutive_fails-run (step cb c) cs)

run-IsSound : (cb : CircuitBreaker) (cs : List Call) → IsSound cb → IsSound (run cb cs)
unfolding run
run-IsSound cb [] h = h
run-IsSound cb (c ∷ cs) h = run-IsSound (step cb c) cs (step-IsSound cb c h)

-- After any calls, by any number of goroutines, a breaker that is closed has seen fewer than five
-- server failures (status 500 or above) since the last success.
pub closed-streak-lt :
    (cs : List Call)
    → (run new_circuit_breaker cs).state ≡ closed
    → streak 0 cs < circuit_breaker_threshold
unfolding new_circuit_breaker
closed-streak-lt cs h =
    rw (← consecutive_fails-run new_circuit_breaker cs)
      ((run-IsSound new_circuit_breaker cs new-IsSound).below h)

-- The failures that a state accounts for.
abbrev spent : CircuitBreaker → ℕ
spent cb = elim cb.state [ closed ↦ cb.consecutive_fails | _ ↦ circuit_breaker_threshold ]

spent-step :
    (cb : CircuitBreaker) (c : Call) → spent (step cb c) ≤ spent cb + server_failures (c ∷ [])
unfolding step
spent-step cb (ask now) = ground arith
spent-step cb success = ground arith
spent-step cb (failure status_code now) = ground arith

server_failures-cons :
    (c : Call) (cs : List Call)
    → server_failures (c ∷ cs) ≡ server_failures (c ∷ []) + server_failures cs
server_failures-cons (ask now) cs = omega arith
server_failures-cons success cs = omega arith
server_failures-cons (failure status_code now) cs = omega arith

spent-run :
    (cb : CircuitBreaker) (cs : List Call) → spent (run cb cs) ≤ spent cb + server_failures cs
unfolding run
spent-run cb [] = omega arith
spent-run cb (c ∷ cs) =
    omega (arith, spent-step cb c, spent-run (step cb c) cs, server_failures-cons c cs)

-- A breaker that is not closed has seen at least five server failures in all: client errors, 429
-- among them, never open it.
pub opened_needs_failures :
    (cs : List Call)
    → (run new_circuit_breaker cs).state ≢ closed
    → circuit_breaker_threshold ≤ server_failures cs
unfolding new_circuit_breaker
opened_needs_failures cs h = ground (arith, spent-run new_circuit_breaker cs)

-- Once the cooldown after the last failure has passed, an open breaker lets a probe through. A
-- success of the probe closes it with the count at 0; one server failure opens it again, from the
-- time of that failure.
pub probe :
    (cb : CircuitBreaker) (now later status_code : ℕ)
    → cb.state ≡ open_circuit
    → circuit_breaker_cooldown ≤ now - cb.last_fail_time
    → 500 ≤ status_code
    → ((allow now cb).1 ≡ true)
      × ((record_success (allow now cb).0).state ≡ closed)
      × ((record_success (allow now cb).0).consecutive_fails ≡ 0)
      × ((record_failure status_code later (allow now cb).0).0.state ≡ open_circuit)
      × ((record_failure status_code later (allow now cb).0).0.last_fail_time ≡ later)
unfolding allow record_success record_failure
probe cb now later status_code opened cooled server = ground arith
