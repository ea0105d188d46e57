-- ===== src/Ai/RateLimit.antt =====
-- pkg/ai/ratelimit_provider.go, `RateLimitProvider`: the circuit breaker and the token bucket
-- around a provider. The clock, `time.Sleep` and the limiter of golang.org/x/time/rate are
-- parameters; log lines are left out.
pub mod Laws
pub mod Tests
use yby_cli.Prelude.{
  ℕ, String, Bool, true, false, ◌&&◌, Option, none, some, ltb, nat_eq, if◌then◌else◌,
}
use yby_cli.Prelude.Result.{Result, ok, err}
use yby_cli.Prelude.Exec.{Exec, continue}
use yby_cli.Ai.Provider.{ApiError, ProviderError, api_error, other, Provider}
use yby_cli.Ai.Breaker.{CircuitBreaker, allow, record_success, record_failure}

pub record Host (W : Type 0) : Type 0 where
  pub now : W → ℕ
  pub sleep : ℕ → W → W
  -- `limiter.Wait`, where a limiter is set
  pub limiter : Option (Exec W ProviderError (Unit {0}))

pub record RateLimited (W : Type 0) : Type 0 where
  pub cb : CircuitBreaker
  pub world : W

abbrev pub circuit_open_error : String → ProviderError
circuit_open_error name = api_error (record {
  provider = name;
  status_code = 503;
  body = "circuit breaker aberto: muitas falhas consecutivas do servidor";
  retry_after = 0;
})

module _ {W : Type 0} (host : Host W) where
  -- `if r.limiter != nil { … Wait … }`
  unfoldable pub wait_limiter : Exec (RateLimited W) ProviderError (Unit {0})
  wait_limiter s = elim host.limiter [
    | none ↦ (ok tt, s)
    | some wait ↦ ((wait s.world).0, record s { world = (wait s.world).1 })
  ]

  -- (r *RateLimitProvider) waitAndCheck
  unfoldable pub wait_and_check : String → Exec (RateLimited W) ProviderError (Unit {0})
  unfolding wait_limiter allow
  wait_and_check name s =
      let asked = record s { cb = (allow (host.now s.world) s.cb).0 } in
      if (allow (host.now s.world) s.cb).1
      then wait_limiter asked
      else (err (circuit_open_error name), asked)

  -- (r *RateLimitProvider) recordResult, for a call that returned an error
  unfoldable pub record_error : ProviderError → RateLimited W → RateLimited W
  unfolding record_failure
  record_error (other message) s = s
  record_error (api_error e) s =
      let failed = record s { cb = (record_failure e.status_code (host.now s.world) s.cb).0 } in
      if nat_eq e.status_code 429 && ltb 0 e.retry_after
      then record failed { world = host.sleep e.retry_after s.world }
      else failed

  module _ {A : Type 0} where
    -- (r *RateLimitProvider) recordResult
    unfoldable pub record_result : Result ProviderError A → RateLimited W → RateLimited W
    unfolding record_error record_success
    record_result (ok a) s = record s { cb = record_success s.cb }
    record_result (err e) s = record_error e s

    -- The inner call of a method and the record of its outcome.
    unfoldable pub attempt : Exec W ProviderError A → Exec (RateLimited W) ProviderError A
    unfolding record_result
    attempt inner s = (
      (inner s.world).0,
      record_result (inner s.world).0 (record s { world = (inner s.world).1 }),
    )

    -- The body that the four methods share.
    unfoldable pub guarded : String → Exec W ProviderError A → Exec (RateLimited W) ProviderError A
    unfolding wait_and_check attempt
    guarded name inner s =
        continue (wait_and_check name s).0 (λ _. attempt inner) (wait_and_check name s).1

module _ {W V G : Type 0} (host : Host W) where
  -- NewRateLimitProvider and its methods
  unfoldable pub rate_limit : Provider W V G → Provider (RateLimited W) V G
  unfolding guarded
  rate_limit p = record {
    name = p.name;
    is_available =
        λ s. ((p.is_available s.world).0, record s { world = (p.is_available s.world).1 });
    generate_governance = λ description. guarded host p.name (p.generate_governance description);
    completion = λ system user. guarded host p.name (p.completion system user);
    stream_completion = λ system user. guarded host p.name (p.stream_completion system user);
    embed_documents = λ texts. guarded host p.name (p.embed_documents texts);
  }
