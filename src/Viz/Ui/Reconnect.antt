-- ===== src/Viz/Ui/Reconnect.antt =====
-- The attempts to reconnect.
use yby_cli.Prelude.{
  leb, refl, ap, arith, ◌∙◌, ◌-◌, ◌^◌, some, ◌<◌, false, ◌≤◌, ◌+◌, true, ◌≡◌, ℕ, Bool, String,
}
use yby_cli.Viz.Ui.{no_cmd, tick_reconnect, error_msg, Model}
use yby_cli.Viz.Ui.Update.{max_retries, clear_feedback, on_error, has_data}
use yby_cli.Viz.Ui.Dispatch.{update, on_list_msg}
use yby_cli.Viz.Ui.Tabs.{update-idle, IsIdle}

module _ (to_lower : String → String) (equal_fold : String → String → Bool)
    (height : Model → ℕ) where
  error_step :
      (e : String) (m : Model)
      → IsIdle m
      → update to_lower equal_fold height (error_msg e) m ≡ on_error e m
  unfolding on_list_msg clear_feedback
  error_step e m idle = update-idle to_lower equal_fold height (error_msg e) m idle

  -- An error below the limit, and one at the limit, with data on the screen.
  retried_error :
      (e : String) (m : Model) (n : ℕ)
      → IsIdle m
      → has_data m ≡ true
      → m.retry_count ≡ n
      → n + 1 < max_retries
      → update to_lower equal_fold height (error_msg e) m
        ≡ (record m { retry_count = n + 1; reconnecting = true }, tick_reconnect (2 ^ (n + 1 - 1)))
  unfolding on_error
  retried_error e m n idle full count below =
      let l : leb max_retries (n + 1) ≡ false = ground (arith, below) in
      error_step e m idle ∙ rw (full, count, l, on_error) refl

  final_error :
      (e : String) (m : Model) (n : ℕ)
      → IsIdle m
      → has_data m ≡ true
      → m.retry_count ≡ n
      → max_retries ≤ n + 1
      → update to_lower equal_fold height (error_msg e) m
        ≡ (record m { retry_count = n + 1; error = some e; reconnecting = false }, no_cmd)
  unfolding on_error
  final_error e m n idle full count reached =
      let l : leb max_retries (n + 1) ≡ true = ground (arith, reached) in
      error_step e m idle ∙ rw (full, count, l, on_error) refl

  -- With no mode open, data on the screen and no attempt counted yet, the first two errors in a row are answered with a wait
  -- of one and of two seconds before the next attempt, the third with no command and the error on the
  -- screen. All the data stays as it is.
  pub errors_back_off :
      (m : Model) (e1 e2 e3 : String)
      → IsIdle m
      → has_data m ≡ true
      → m.retry_count ≡ 0
      → let step = update to_lower equal_fold height in
        let first = step (error_msg e1) m in
        let second = step (error_msg e2) first.0 in
        let third = step (error_msg e3) second.0 in
        (first ≡ (record m { retry_count = 1; reconnecting = true }, tick_reconnect 1))
        × (second ≡ (record m { retry_count = 2; reconnecting = true }, tick_reconnect 2))
        × (third ≡ (record m { retry_count = 3; reconnecting = false; error = some e3 }, no_cmd))
  unfolding has_data
  errors_back_off m e1 e2 e3 idle full fresh =
      let step = update to_lower equal_fold height in
      let again : (n : ℕ) → IsIdle (record m { retry_count = n; reconnecting = true }) = λ n.
        record {
          no_action = idle.no_action;
          no_detail = idle.no_detail;
          no_input = idle.no_input;
        } in
      let first = retried_error e1 m 0 idle full fresh (omega arith) in
      let second =
        ap (λ s. step (error_msg e2) s.0) first
        ∙ retried_error e2 (record m { retry_count = 1; reconnecting = true }) 1 (again 1) full refl
            (omega arith) in
      let third =
        ap (λ s. step (error_msg e3) s.0) second
        ∙ final_error e3 (record m { retry_count = 2; reconnecting = true }) 2 (again 2) full refl
            (omega arith) in
      (first, second, third)
