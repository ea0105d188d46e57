-- ===== src/Viz/Retry.antt =====
-- plugins/viz/internal/monitor/retry_client.go: a client of the cluster that repeats failed calls.
-- The client and `time.Sleep` are parameters over a world `W` that they change; durations are
-- nanoseconds.
pub mod Laws
pub mod Tests
use yby_cli.Prelude.{ℕ, zero, suc, List, ◌+◌, ◌-◌, ◌*◌, ◌^◌, ltb, if◌then◌else◌}
use yby_cli.Prelude.Result.{Result, ok, err}
use yby_cli.Prelude.Exec.{Exec}

-- How the loop ends without data: `falha após %d tentativas: %w`, with the last error, which is nil
-- where no attempt was made.
pub data RetryError (E : Type 0) : Type 0 where
  gave_up : ℕ → E → RetryError E
  never_tried : ℕ → RetryError E

module _ {W E A : Type 0} (sleep : ℕ → W → W) (max_retries base_delay : ℕ) (call : Exec W E A) where
  -- `if i < r.maxRetries-1 { time.Sleep(r.baseDelay * time.Duration(1<<uint(i))) }`
  unfoldable pub pause : ℕ → W → W
  pause i w = if ltb i (max_retries - 1) then sleep (base_delay * 2 ^ i) w else w

  -- The loop from the i-th attempt on, with `left` attempts to go and what it returns after them.
  unfoldable pub attempts : (left i : ℕ) → RetryError E → W → Result (RetryError E) A × W
  unfolding pause
  attempts zero i last_err w = (err last_err, w)
  attempts (suc left) i last_err w = elim (call w).0 [
    | ok found ↦ (ok found, (call w).1)
    | err e ↦ attempts left (i + 1) (gave_up max_retries e) (pause i (call w).1)
  ]

  -- The body that the methods share.
  unfoldable pub with_retry : Exec W (RetryError E) A
  unfolding attempts
  with_retry = attempts max_retries 0 (never_tried max_retries)

-- What a client lists.
pub data Resource : Type 0 where
  pods deployments services nodes stateful_sets jobs ingresses config_maps events : Resource

-- plugins/viz/internal/monitor/client.go, the interface `Client`, over a filter `F` and the type of
-- each resource.
pub record Client (W E F : Type 0) (R : Resource → Type 0) : Type 0 where
  pub get_pods : F → Exec W E (List (R pods))
  pub get_deployments : F → Exec W E (List (R deployments))
  pub get_services : F → Exec W E (List (R services))
  pub get_nodes : F → Exec W E (List (R nodes))
  pub get_stateful_sets : F → Exec W E (List (R stateful_sets))
  pub get_jobs : F → Exec W E (List (R jobs))
  pub get_ingresses : F → Exec W E (List (R ingresses))
  pub get_config_maps : F → Exec W E (List (R config_maps))
  pub get_events : F → Exec W E (List (R events))

abbrev pub default_retries : ℕ
default_retries = 3

abbrev pub default_delay : ℕ
default_delay = 1000000000

module _ {W E F A : Type 0} (sleep : ℕ → W → W) where
  -- one method, with the retries and the delay of NewRetryClient
  unfoldable pub retried : (F → Exec W E A) → F → Exec W (RetryError E) A
  unfolding with_retry
  retried call filter = with_retry sleep default_retries default_delay (call filter)

module _ {W E F : Type 0} {R : Resource → Type 0} (sleep : ℕ → W → W) where
  -- NewRetryClient and its methods
  unfoldable pub retry_client : Client W E F R → Client W (RetryError E) F R
  unfolding retried
  retry_client inner = record {
    get_pods = retried sleep inner.get_pods;
    get_deployments = retried sleep inner.get_deployments;
    get_services = retried sleep inner.get_services;
    get_nodes = retried sleep inner.get_nodes;
    get_stateful_sets = retried sleep inner.get_stateful_sets;
    get_jobs = retried sleep inner.get_jobs;
    get_ingresses = retried sleep inner.get_ingresses;
    get_config_maps = retried sleep inner.get_config_maps;
    get_events = retried sleep inner.get_events;
  }
