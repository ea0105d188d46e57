-- ===== src/Viz/Ui/Polling.antt =====
-- The tick that keeps the dashboard up to date.
use yby_cli.Viz.Retry.{
  Client, pods, deployments, services, nodes, stateful_sets, jobs, ingresses, config_maps, events,
}
use yby_cli.Viz.Ui.{
  mode_list, ViewMode, ActionMode, no_cmd, mode_detail, action_none, error_msg, events_msg,
  configmaps_msg, ingresses_msg, fetch_resources, jobs_msg, tick_msg, statefulsets_msg, nodes_msg,
  services_msg, tab_count, deployments_msg, tick_reconnect, pods_msg, Msg, tick, Cmd, Model,
}
use yby_cli.Prelude.{
  sym, subst, zero, arith, suc, none, ◌≢◌, ◌-◌, Option, Option-cases, false, refl, ◌^◌, ◌+◌, leb,
  inl, inr, some, ◌<◌, true, Bool-cases, ◌⊎◌, ℕ, ◌≡◌, Bool, String,
}
use yby_cli.Viz.Ui.Perform.{listed, run_fetch, ListFilter}
use yby_cli.Viz.Ui.Update.{on_detail_msg, clear_feedback, max_retries, has_data, on_error}
use yby_cli.Viz.Ui.Dispatch.{
  on_input_msg, on_detail, on_action_msg, by_mode, by_view, update, on_list_msg,
}
use yby_cli.Viz.Types.{Item}
use yby_cli.Viz.Ui.Tabs.{update-idle, IsIdle}
use yby_cli.Viz.Ui.Lists.{tab_resource}
use yby_cli.Prelude.Exec.{Exec}
use yby_cli.Prelude.Result.{Result-cases}

-- The dashboard goes on asking for data: the next tick is set, or the next attempt to reconnect, or
-- the error is shown.
abbrev pub GoesOn : Model × Cmd → Type 0
GoesOn (m, cmd) =
    (cmd ≡ tick 2) ⊎ ((n : ℕ) × (cmd ≡ tick_reconnect n)) ⊎ ((e : String) × (m.error ≡ some e))

-- Every tab in range has its resource.
tab_resource-some : (n : ℕ) → n < tab_count → tab_resource n ≢ none
unfolding tab_resource
tab_resource-some zero inside e = absurd (cc)
tab_resource-some (suc zero) inside e = absurd (cc)
tab_resource-some (suc (suc zero)) inside e = absurd (cc)
tab_resource-some (suc (suc (suc zero))) inside e = absurd (cc)
tab_resource-some (suc (suc (suc (suc zero)))) inside e = absurd (cc)
tab_resource-some (suc (suc (suc (suc (suc zero))))) inside e = absurd (cc)
tab_resource-some (suc (suc (suc (suc (suc (suc zero)))))) inside e = absurd (cc)
tab_resource-some (suc (suc (suc (suc (suc (suc (suc zero))))))) inside e = absurd (cc)
tab_resource-some (suc (suc (suc (suc (suc (suc (suc (suc zero)))))))) inside e = absurd (cc)
tab_resource-some (suc (suc (suc (suc (suc (suc (suc (suc (suc n))))))))) inside e =
    absurd (omega (arith, inside))

-- The command that answers a tick in each mode.
abbrev pub tick_cmd : ActionMode → ViewMode → Bool → Model → Cmd
tick_cmd action_none mode_list false m = fetch_resources m
tick_cmd action view input m = no_cmd

by_view-tick :
    (to_lower : String → String) (equal_fold : String → String → Bool) (height : Model → ℕ)
    (view : ViewMode) (input : Bool) (m : Model)
    → (by_view to_lower equal_fold height view input tick_msg m).1
      ≡ tick_cmd action_none view input m
unfolding by_view on_detail on_detail_msg on_input_msg on_list_msg
by_view-tick to_lower equal_fold height mode_detail input m = refl
by_view-tick to_lower equal_fold height mode_list true m = refl
by_view-tick to_lower equal_fold height mode_list false m = refl

by_mode-tick :
    (to_lower : String → String) (equal_fold : String → String → Bool) (height : Model → ℕ)
    (mode : ActionMode) (m : Model)
    → (by_mode to_lower equal_fold height mode tick_msg m).1
      ≡ tick_cmd mode m.view_mode m.filter_state.input_mode m
unfolding by_mode on_action_msg
by_mode-tick to_lower equal_fold height action_none m =
    by_view-tick to_lower equal_fold height m.view_mode m.filter_state.input_mode m
by_mode-tick to_lower equal_fold height mode m = refl

module _ (to_lower : String → String) (equal_fold : String → String → Bool)
    (height : Model → ℕ) where
  -- Data, or an error, in the list.
  abbrev pub is_answer : Msg → Bool
  is_answer (pods_msg found) = true
  is_answer (deployments_msg found) = true
  is_answer (services_msg found) = true
  is_answer (nodes_msg found) = true
  is_answer (statefulsets_msg found) = true
  is_answer (jobs_msg found) = true
  is_answer (ingresses_msg found) = true
  is_answer (configmaps_msg found) = true
  is_answer (events_msg found) = true
  is_answer (error_msg e) = true
  is_answer msg = false

  error-GoesOn : (e : String) (m : Model) → GoesOn (on_error e m)
  unfolding on_error
  error-GoesOn e m = elim (Bool-cases (has_data m)) [
    | inr n ↦ rw (n, on_error) (inr (inr (e, refl)))
    | inl d ↦ elim (Bool-cases (leb max_retries (m.retry_count + 1))) [
      | inl l ↦ rw (d, l, on_error) (inr (inr (e, refl)))
      | inr l ↦ rw (d, l, on_error) (inr (inl (2 ^ (m.retry_count + 1 - 1), refl)))
    ]
  ]

  answer-GoesOn :
      (msg : Msg) (m : Model)
      → is_answer msg ≡ true
      → GoesOn (on_list_msg to_lower equal_fold height msg m)
  unfolding on_list_msg
  answer-GoesOn (error_msg e) m answers = error-GoesOn e m
  answer-GoesOn (pods_msg found) m answers = inl refl
  answer-GoesOn (deployments_msg found) m answers = inl refl
  answer-GoesOn (services_msg found) m answers = inl refl
  answer-GoesOn (nodes_msg found) m answers = inl refl
  answer-GoesOn (statefulsets_msg found) m answers = inl refl
  answer-GoesOn (jobs_msg found) m answers = inl refl
  answer-GoesOn (ingresses_msg found) m answers = inl refl
  answer-GoesOn (configmaps_msg found) m answers = inl refl
  answer-GoesOn (events_msg found) m answers = inl refl
  answer-GoesOn msg m answers = absurd (cc)

  module _ {W : Type 0} (client : Client W String ListFilter Item) where
    -- What a fetch of a tab sends back.
    abbrev Answers : Option Msg × W → Type 0
    Answers sent = (msg : Msg) × (sent.0 ≡ some msg) × (is_answer msg ≡ true)

    listed-Answers :
        {A : Type 0} (call : Exec W String A) (message : A → Msg) (w : W)
        → ((found : A) → is_answer (message found) ≡ true)
        → Answers (listed call message w)
    unfolding listed
    listed-Answers call message w answers = elim (Result-cases (call w).0) [
      | inl (found, e) ↦ rw (e, listed) (message found, refl, answers found)
      | inr (problem, e) ↦ rw (e, listed) (error_msg problem, refl, refl)
    ]

    fetch-Answers :
        (m : Model) (w : W) → m.active_tab < tab_count → Answers (run_fetch (some client) m w)
    unfolding run_fetch
    fetch-Answers m w inside =
        let f : ListFilter = record {
          namespace = m.filter_state.namespace;
          label_selector = m.filter_state.label_selector;
        } in
        elim (Option-cases (tab_resource m.active_tab)) [
          | inl e ↦ absurd (tab_resource-some m.active_tab inside e)
          | inr (pods, e) ↦
              rw (e, run_fetch) (listed-Answers (client.get_pods f) pods_msg w (λ x. refl))
          | inr (deployments, e) ↦
              rw (e, run_fetch)
                (listed-Answers (client.get_deployments f) deployments_msg w (λ x. refl))
          | inr (services, e) ↦
              rw (e, run_fetch) (listed-Answers (client.get_services f) services_msg w (λ x. refl))
          | inr (nodes, e) ↦
              rw (e, run_fetch) (listed-Answers (client.get_nodes f) nodes_msg w (λ x. refl))
          | inr (stateful_sets, e) ↦
              rw (e, run_fetch)
                (listed-Answers (client.get_stateful_sets f) statefulsets_msg w (λ x. refl))
          | inr (jobs, e) ↦
              rw (e, run_fetch) (listed-Answers (client.get_jobs f) jobs_msg w (λ x. refl))
          | inr (ingresses, e) ↦
              rw (e, run_fetch)
                (listed-Answers (client.get_ingresses f) ingresses_msg w (λ x. refl))
          | inr (config_maps, e) ↦
              rw (e, run_fetch)
                (listed-Answers (client.get_config_maps f) configmaps_msg w (λ x. refl))
          | inr (events, e) ↦
              rw (e, run_fetch) (listed-Answers (client.get_events f) events_msg w (λ x. refl))
        ]

    -- With no mode open and one of the nine tabs active, a tick asks for the data of the active tab; whatever the client answers,
    -- data or an error, the next tick follows, or the next attempt to reconnect, or the error is
    -- shown.
    pub tick-GoesOn :
        (m : Model) (w : W)
        → IsIdle m
        → m.active_tab < tab_count
        → let (asked, cmd) = update to_lower equal_fold height tick_msg m in
          (cmd ≡ fetch_resources asked)
          × ((msg : Msg) × ((run_fetch (some client) asked w).0 ≡ some msg)
              × GoesOn (update to_lower equal_fold height msg asked))
    unfolding on_list_msg clear_feedback
    tick-GoesOn m w idle inside =
        let asked = clear_feedback tick_msg m in
        let first = update-idle to_lower equal_fold height tick_msg m idle in
        let (msg, sent, answers) = fetch-Answers asked w inside in
        let still : IsIdle asked = record {
          no_action = idle.no_action;
          no_detail = idle.no_detail;
          no_input = idle.no_input;
        } in
        let next = update-idle to_lower equal_fold height msg asked still in
        rw first (
          refl,
          (
            msg,
            sent,
            subst GoesOn (sym next) (answer-GoesOn msg (clear_feedback msg asked) answers),
          ),
        )

-- A tick is answered with a fetch where no mode is open, and with no command where one is: in the
-- detail view, at a prompt and at a filter, nothing asks for the next tick.
pub tick_by_mode :
    (to_lower : String → String) (equal_fold : String → String → Bool) (height : Model → ℕ)
    (m : Model)
    → (update to_lower equal_fold height tick_msg m).1
      ≡ tick_cmd m.action_mode m.view_mode m.filter_state.input_mode (clear_feedback tick_msg m)
unfolding update clear_feedback
tick_by_mode to_lower equal_fold height m =
    by_mode-tick to_lower equal_fold height m.action_mode (clear_feedback tick_msg m)
