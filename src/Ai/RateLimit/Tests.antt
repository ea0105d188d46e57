-- ===== src/Ai/RateLimit/Tests.antt =====
-- Calls against a failing server.
use yby_cli.Prelude.{ℕ, ◌+◌, ◌-◌, ◌<◌, ◌≡◌, refl, String, none, arith}
use yby_cli.Prelude.Result.{ok, err}
use yby_cli.Prelude.Exec.{Exec}
use yby_cli.Ai.Breaker.{closed, open_circuit, circuit_breaker_cooldown, new_circuit_breaker}
use yby_cli.Ai.Provider.{ProviderError, api_error}
use yby_cli.Ai.RateLimit.{Host, RateLimited, circuit_open_error, guarded}
use yby_cli.Ai.RateLimit.Laws.{calls, fresh, five_failures_open}

-- the world is the clock, and every call takes a nanosecond
abbrev host : Host ℕ
host = record { now = λ w. w; sleep = λ d w. w + d; limiter = none }

abbrev down : Exec ℕ ProviderError String
down w = (
  err (api_error (record { provider = "p"; status_code = 500; body = ""; retry_after = 0 })),
  w + 1,
)

abbrev up : Exec ℕ ProviderError ℕ
up w = (ok 7, w + 1)

-- the breaker and the clock after five failures
abbrev broken : RateLimited ℕ
broken = calls host 5 "p" down (fresh 0)

now_five : host.now broken.world ≡ 5
unfolding calls guarded new_circuit_breaker
now_five = refl

failed_at_five : broken.cb.last_fail_time ≡ 5
unfolding calls guarded new_circuit_breaker
failed_at_five = refl

soon : host.now broken.world - broken.cb.last_fail_time < circuit_breaker_cooldown
soon = omega (arith, now_five, failed_at_five)

five_failures_open_example :
    ((calls host 4 "p" down (fresh 0)).cb.state ≡ closed)
    × (broken.cb.state ≡ open_circuit)
    × (guarded host "q" up broken ≡ (err (circuit_open_error "q"), broken))
five_failures_open_example =
    five_failures_open host "p" down 0 "q" up refl
      (λ w. (
        record { provider = "p"; status_code = 500; body = ""; retry_after = 0 },
        refl,
        omega arith,
      ))
      soon
