-- ===== src/Viz/Retry/Tests.antt =====
-- A server that comes back after some calls, and the theorems applied to it.
use yby_cli.Prelude.{ℕ, suc, ◌+◌, ◌≤◌, ◌<◌, ◌≡◌, refl, String, ltb, if◌then◌else◌}
use yby_cli.Prelude.Result.{ok, err}
use yby_cli.Prelude.Exec.{Exec}
use yby_cli.Viz.Retry.{gave_up, retried, default_retries, default_delay}
use yby_cli.Viz.Retry.Laws.{Meters, pauses, retried_cost}

-- the calls made and the time slept
abbrev World : Type 0
World = ℕ × ℕ

abbrev nap : ℕ → World → World
nap d (n, t) = (n, t + d)

-- fails for as many calls as the filter says
abbrev flaky : ℕ → Exec World String ℕ
flaky failures (n, t) = (if ltb n failures then err "down" else ok n, (n + 1, t))

recovers : retried nap flaky 2 (0, 0) ≡ (ok 2, (3, 3000000000))
unfolding retried
recovers = refl

gives_up : retried nap flaky 9 (0, 0) ≡ (err (gave_up 3 "down"), (3, 3000000000))
unfolding retried
gives_up = refl

flaky_meters : (failures : ℕ) → Meters nap (flaky failures) (λ w. w.0) (λ w. w.1)
flaky_meters failures = record {
  calls-call = λ w. refl;
  slept-call = λ w. refl;
  calls-sleep = λ d w. refl;
  slept-sleep = λ d w. refl;
}

retried_cost_example :
    (n : ℕ) × (n < default_retries)
    × ((retried nap flaky 2 (0, 0)).1.0 ≡ 0 + suc n)
    × ((retried nap flaky 2 (0, 0)).1.1 ≡ 0 + pauses default_delay 0 n)
    × ((retried nap flaky 2 (0, 0)).1.1 ≤ 0 + 3000000000)
retried_cost_example = retried_cost nap flaky 2 (λ w. w.0) (λ w. w.1) (flaky_meters 2) (0, 0)
