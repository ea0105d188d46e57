-- ===== src/Ai/RateLimit/Laws.antt =====
-- What the rate limiter guarantees, for every inner call.
use yby_cli.Prelude.{
  ℕ, zero, suc, ◌+◌, ◌-◌, ◌≤◌, ◌<◌, ◌≡◌, refl, String, none, arith, if◌then◌else◌, leb, ◌∙◌,
}
use yby_cli.Prelude.Result.{Result, ok, err}
use yby_cli.Prelude.Exec.{Exec, continue}
use yby_cli.Ai.Breaker.{
  closed, open_circuit, circuit_breaker_cooldown, new_circuit_breaker, ask, success, failure,
}
use yby_cli.Ai.Breaker.Laws.{IsSound, step-IsSound}
use yby_cli.Ai.Provider.{ApiError, ProviderError, api_error, other}
use yby_cli.Ai.RateLimit.{
  Host, RateLimited, circuit_open_error, wait_and_check, record_error, record_result, attempt,
  guarded,
}

module _ {W : Type 0} (host : Host W) where
  wait_and_check-IsSound :
      (name : String) (s : RateLimited W) → IsSound s.cb → IsSound (wait_and_check host name s).1.cb
  unfolding wait_and_check
  wait_and_check-IsSound name s h = grind (arith, step-IsSound s.cb (ask (host.now s.world)) h)

  record_error-IsSound :
      (e : ProviderError) (s : RateLimited W) → IsSound s.cb → IsSound (record_error host e s).cb
  unfolding record_error
  record_error-IsSound (other message) s h = h
  record_error-IsSound (api_error e) s h =
      ground (arith, step-IsSound s.cb (failure e.status_code (host.now s.world)) h)

module _ {W A : Type 0} (host : Host W) where
  record_result-IsSound :
      (r : Result ProviderError A) (s : RateLimited W)
      → IsSound s.cb
      → IsSound (record_result host r s).cb
  unfolding record_result
  record_result-IsSound (ok a) s h = ground (arith, step-IsSound s.cb success h)
  record_result-IsSound (err e) s h = record_error-IsSound host e s h

  continued-IsSound :
      (r : Result ProviderError (Unit {0})) (inner : Exec W ProviderError A) (s : RateLimited W)
      → IsSound s.cb
      → IsSound (continue r (λ _. attempt host inner) s).1.cb
  unfolding attempt
  continued-IsSound (ok u) inner s h =
      record_result-IsSound (inner s.world).0 (record s { world = (inner s.world).1 }) h
  continued-IsSound (err e) inner s h = h

  -- A guarded call, whatever it runs and however it ends, keeps the breaker sound.
  pub guarded-IsSound :
      (name : String) (inner : Exec W ProviderError A) (s : RateLimited W)
      → IsSound s.cb
      → IsSound (guarded host name inner s).1.cb
  unfolding guarded
  guarded-IsSound name inner s h =
      continued-IsSound (wait_and_check host name s).0 inner (wait_and_check host name s).1
        (wait_and_check-IsSound host name s h)

  -- While the breaker is open and its cooldown has not passed, a call fails with a 503 of the
  -- provider: the inner call and the limiter are not reached, and neither the world nor the breaker
  -- changes.
  guarded_refuses :
      (name : String) (inner : Exec W ProviderError A) (s : RateLimited W)
      → s.cb.state ≡ open_circuit
      → host.now s.world - s.cb.last_fail_time < circuit_breaker_cooldown
      → guarded host name inner s ≡ (err (circuit_open_error name), s)
  unfolding guarded
  guarded_refuses name inner s opened early = ground arith

  -- While the breaker is closed and no limiter is set, a call returns exactly what the inner call
  -- returned from the same world.
  pub guarded_is_transparent :
      (name : String) (inner : Exec W ProviderError A) (s : RateLimited W)
      → s.cb.state ≡ closed
      → host.limiter ≡ none
      → (guarded host name inner s).0 ≡ (inner s.world).0
  unfolding guarded
  guarded_is_transparent name inner s running free = ground arith

  -- n guarded calls in a row, their results dropped.
  unfoldable pub calls : ℕ → String → Exec W ProviderError A → RateLimited W → RateLimited W
  calls zero name inner s = s
  calls (suc n) name inner s = (guarded host name inner (calls n name inner s)).1

abbrev pub fresh : {W : Type 0} → W → RateLimited W
fresh w = record { cb = new_circuit_breaker; world = w }

module _ {W A : Type 0} (host : Host W) (name : String) (inner : Exec W ProviderError A) where
  -- One more server failure of a closed breaker.
  failing_call :
      (s : RateLimited W) (e : ApiError)
      → host.limiter ≡ none
      → (inner s.world).0 ≡ err (api_error e)
      → 500 ≤ e.status_code
      → s.cb.state ≡ closed
      → ((guarded host name inner s).1.cb.consecutive_fails ≡ s.cb.consecutive_fails + 1)
        × ((guarded host name inner s).1.cb.state
            ≡ (if leb 5 (s.cb.consecutive_fails + 1) then open_circuit else closed))
  unfolding guarded
  failing_call s e free fails server running = ground arith

  -- every inner call fails with a server error
  abbrev pub AlwaysFails : Type 0
  AlwaysFails = (w : W) → (e : ApiError) × ((inner w).0 ≡ err (api_error e)) × (500 ≤ e.status_code)

  calls_below :
      (n : ℕ) (w : W)
      → host.limiter ≡ none
      → AlwaysFails
      → n < 5
      → ((calls host n name inner (fresh w)).cb.state ≡ closed)
        × ((calls host n name inner (fresh w)).cb.consecutive_fails ≡ n)
  unfolding calls new_circuit_breaker
  calls_below zero w free fails h = (refl, refl)
  calls_below (suc n) w free fails h =
      let s = calls host n name inner (fresh w) in
      let (running, counted) = calls_below n w free fails (omega arith) in
      let (e, failed, server) = fails s.world in
      let (count, state) = failing_call s e free failed server running in
      (ground arith, ground arith)

  -- With no limiter, five calls that all fail with a server error open a new breaker, and four do
  -- not. Where the next call, whatever it runs, comes within the cooldown after the last failure, it
  -- fails with a 503 of its provider, runs nothing, and leaves the world and the breaker as they are.
  pub five_failures_open :
      {B : Type 0} (w : W) (later : String) (next : Exec W ProviderError B)
      → host.limiter ≡ none
      → AlwaysFails
      → (let s = calls host 5 name inner (fresh w) in
          host.now s.world - s.cb.last_fail_time < circuit_breaker_cooldown)
      → let s = calls host 5 name inner (fresh w) in
        ((calls host 4 name inner (fresh w)).cb.state ≡ closed)
        × (s.cb.state ≡ open_circuit)
        × (guarded host later next s ≡ (err (circuit_open_error later), s))
  unfolding calls
  five_failures_open w later next free fails soon =
      let s = calls host 4 name inner (fresh w) in
      let (running, counted) = calls_below 4 w free fails (omega arith) in
      let (e, failed, server) = fails s.world in
      let (count, state) = failing_call s e free failed server running in
      let opened = state ∙ rw counted in
      (
        running,
        opened,
        guarded_refuses host later next (calls host 5 name inner (fresh w)) opened soon,
      )
