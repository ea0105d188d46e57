-- ===== src/Viz/Retry/Laws.antt =====
-- What the repetition costs, and what it returns.
use yby_cli.Prelude.{
  ℕ, zero, suc, ◌+◌, ◌-◌, ◌*◌, ◌^◌, ◌≤◌, ◌<◌, ◌≡◌, refl, ap, ◌∙◌, arith, false, ltb, inl, inr,
  if◌then◌else◌,
}
use yby_cli.Prelude.Result.{Result, ok, err, is_ok, Result-cases}
use yby_cli.Prelude.Exec.{Exec}
use yby_cli.Viz.Retry.{
  RetryError, gave_up, never_tried, pause, attempts, with_retry, retried, default_retries,
  default_delay,
}

-- The sum of `n` pauses from the i-th on, each twice the one before.
abbrev pub pauses : ℕ → ℕ → ℕ → ℕ
pauses base_delay i zero = 0
pauses base_delay i (suc n) = base_delay * 2 ^ i + pauses base_delay (i + 1) n

module _ {W E A : Type 0} (sleep : ℕ → W → W) (call : Exec W E A) (calls slept : W → ℕ) where
  -- Two meters in the world: the first counts the calls of the client, the second adds up the sleep.
  pub record Meters : Type 0 where
    pub calls-call : (w : W) → calls (call w).1 ≡ calls w + 1
    pub slept-call : (w : W) → slept (call w).1 ≡ slept w
    pub calls-sleep : (d : ℕ) (w : W) → calls (sleep d w) ≡ calls w
    pub slept-sleep : (d : ℕ) (w : W) → slept (sleep d w) ≡ slept w + d

  module _ (max_retries base_delay : ℕ) where
    -- From `w` to `v`, n + 1 attempts were made, with the n pauses between them.
    abbrev pub Made : ℕ → ℕ → W → W → Type 0
    Made n i w v = (calls v ≡ calls w + suc n) × (slept v ≡ slept w + pauses base_delay i n)

    pause_meters :
        Meters
        → (i : ℕ) (w : W)
        → (calls (pause sleep max_retries base_delay call i w) ≡ calls w)
          × (slept (pause sleep max_retries base_delay call i w)
              ≡ slept w + (if ltb i (max_retries - 1) then base_delay * 2 ^ i else 0))
    unfolding pause
    pause_meters meters i w = ground (
      arith,
      meters.calls-sleep (base_delay * 2 ^ i) w,
      meters.slept-sleep (base_delay * 2 ^ i) w,
    )

    first_attempt : Meters → (i : ℕ) (w : W) → Made 0 i w (call w).1
    first_attempt meters i w =
        (omega (arith, meters.calls-call w), omega (arith, meters.slept-call w))

    -- The attempts from the i-th on: how many are made, and that an error has made them all.
    attempts-Made :
        Meters
        → (left i : ℕ) (last_err : RetryError E) (w : W) → i + suc left ≡ max_retries
        → let done = attempts sleep max_retries base_delay call (suc left) i last_err w in
          (n : ℕ) × (n ≤ left) × Made n i w done.1 × (is_ok done.0 ≡ false → n ≡ left)
    unfolding attempts
    attempts-Made meters zero i last_err w total =
        let (called, paused) = pause_meters meters i (call w).1 in
        elim (Result-cases (call w).0) [
          | inl (found, e) ↦
              rw (e, attempts) (0, omega arith, first_attempt meters i w, λ failed. cc)
          | inr (error, e) ↦
              rw (e, attempts)
                (
                  0,
                  omega arith,
                  (
                    omega (arith, called, meters.calls-call w),
                    ground (arith, paused, meters.slept-call w),
                  ),
                  λ failed. refl,
                )
        ]
    attempts-Made meters (suc left) i last_err w total =
        let (called, paused) = pause_meters meters i (call w).1 in
        elim (Result-cases (call w).0) [
          | inl (found, e) ↦
              rw (e, attempts) (0, omega arith, first_attempt meters i w, λ failed. cc)
          | inr (error, e) ↦
              let (n, bound, (calls_made, slept_for), all_made) =
                attempts-Made meters left (i + 1) (gave_up max_retries error)
                  (pause sleep max_retries base_delay call i (call w).1) (omega (arith, total)) in
              rw (e, attempts)
                (
                  suc n,
                  omega arith,
                  (
                    omega (arith, calls_made, called, meters.calls-call w),
                    ground (arith, slept_for, paused, meters.slept-call w),
                  ),
                  λ failed. ap suc (all_made failed),
                )
        ]

-- What the loop makes of the answer of its last attempt.
abbrev pub wrapped : {E A : Type 0} → ℕ → Result E A → Result (RetryError E) A
wrapped max_retries (ok found) = ok found
wrapped max_retries (err e) = err (gave_up max_retries e)

module _ {W E A : Type 0} (sleep : ℕ → W → W) (max_retries base_delay : ℕ) (call : Exec W E A) where
  -- No pause follows the last attempt.
  pause_last :
      (i : ℕ) (w : W) → i + 1 ≡ max_retries → pause sleep max_retries base_delay call i w ≡ w
  unfolding pause
  pause_last i w last = ground arith

  attempts_answer :
      (left i : ℕ) (last_err : RetryError E) (w : W)
      → i + suc left ≡ max_retries
      → (v : W) × (attempts sleep max_retries base_delay call (suc left) i last_err w
          ≡ (wrapped max_retries (call v).0, (call v).1))
  unfolding attempts
  attempts_answer zero i last_err w total = elim (Result-cases (call w).0) [
    | inl (found, e) ↦ (w, rw (e, attempts) refl)
    | inr (error, e) ↦ (
      w,
      rw (e, attempts)
          (ap (λ v. (err (gave_up max_retries error), v))
            (pause_last i (call w).1 (omega (arith, total)))),
    )
  ]
  attempts_answer (suc left) i last_err w total = elim (Result-cases (call w).0) [
    | inl (found, e) ↦ (w, rw (e, attempts) refl)
    | inr (error, e) ↦
        let (v, answer) =
          attempts_answer left (i + 1) (gave_up max_retries error)
            (pause sleep max_retries base_delay call i (call w).1) (omega (arith, total)) in
        (v, rw (e, attempts) answer)
  ]

at_most_three : (n : ℕ) → n ≤ 2 → pauses default_delay 0 n ≤ 3000000000
at_most_three zero h = omega arith
at_most_three (suc zero) h = omega arith
at_most_three (suc (suc zero)) h = omega arith
at_most_three (suc (suc (suc n))) h = absurd (omega arith)

module _ {W E F A : Type 0} (sleep : ℕ → W → W) (call : F → Exec W E A) (filter : F)
    (calls slept : W → ℕ) where
  -- A call through the retry client makes one to three calls of the client it wraps, and sleeps one
  -- second after the first failed call and two after the second: three seconds at most.
  pub retried_cost :
      Meters sleep (call filter) calls slept
      → (w : W)
      → let after = (retried sleep call filter w).1 in
        (n : ℕ) × (n < default_retries)
        × (calls after ≡ calls w + suc n)
        × (slept after ≡ slept w + pauses default_delay 0 n)
        × (slept after ≤ slept w + 3000000000)
  unfolding retried with_retry
  retried_cost meters w =
      let (n, bound, (made, paused), all) =
        attempts-Made sleep (call filter) calls slept default_retries default_delay meters 2 0
          (never_tried default_retries) w refl in
      (n, omega arith, made, paused, omega (arith, paused, at_most_three n (omega arith)))

  -- A call through the retry client returns an error only after three calls of the client it wraps,
  -- with three seconds of sleep between them.
  pub retried_error_is_late :
      Meters sleep (call filter) calls slept
      → (w : W) → is_ok (retried sleep call filter w).0 ≡ false
      → (calls (retried sleep call filter w).1 ≡ calls w + default_retries)
        × (slept (retried sleep call filter w).1 ≡ slept w + 3000000000)
  unfolding retried with_retry
  retried_error_is_late meters w failed =
      let (n, bound, (made, paused), all) =
        attempts-Made sleep (call filter) calls slept default_retries default_delay meters 2 0
          (never_tried default_retries) w refl in
      let two = all failed in (omega (arith, made, two), paused ∙ rw two refl)

module _ {W E F A : Type 0} (sleep : ℕ → W → W) (call : F → Exec W E A) (filter : F) where
  -- A call through the retry client ends with one call of the client it wraps: it leaves the world as
  -- that call left it, and returns that call's data as they came, or its error with the number of
  -- attempts.
  pub retried_answer :
      (w : W)
      → (v : W) × (retried sleep call filter w
          ≡ (wrapped default_retries (call filter v).0, (call filter v).1))
  unfolding retried with_retry
  retried_answer w =
      attempts_answer sleep default_retries default_delay (call filter) 2 0
        (never_tried default_retries) w refl
