-- ===== src/Viz/Ui/Tabs.antt =====
-- Going through the tabs.
use yby_cli.Prelude.{
  refl, eq_String, inr, eq_iff, arith, inl, lookup, ◌-◌, ◌==◌, ◌%◌, ◌+◌, Bool-cases, ◌∙◌, ◌<◌, ap,
  false, ◌≡◌, ℕ, Bool, String,
}
use yby_cli.Viz.Ui.{tab_count, key, Msg, mode_list, action_none, Model}
use yby_cli.Viz.Ui.Dispatch.{on_list_key, on_list_msg, by_view, by_mode, update}
use yby_cli.Viz.Ui.Update.{clear_feedback}
use yby_cli.Viz.Ui.Keys.{key_of}

-- No mode takes the keys.
pub record IsIdle (m : Model) : Type 0 where
  pub no_action : m.action_mode ≡ action_none
  pub no_detail : m.view_mode ≡ mode_list
  pub no_input : m.filter_state.input_mode ≡ false

module _ (to_lower : String → String) (equal_fold : String → String → Bool)
    (height : Model → ℕ) where
  pub update-idle :
      (msg : Msg) (m : Model)
      → IsIdle m
      → update to_lower equal_fold height msg m
        ≡ on_list_msg to_lower equal_fold height msg (clear_feedback msg m)
  unfolding update by_mode by_view clear_feedback
  update-idle msg m idle =
      let c = clear_feedback msg m in
      ap (λ mode. by_mode to_lower equal_fold height mode msg c) idle.no_action
      ∙ ap (λ view. by_view to_lower equal_fold height view m.filter_state.input_mode msg c)
          idle.no_detail
      ∙ ap (λ input. by_view to_lower equal_fold height mode_list input msg c) idle.no_input

  abbrev pub press : String → Model → Model
  press text m = (update to_lower equal_fold height (key text) m).0

  key_clears :
      (text : String) (m : Model) → clear_feedback (key text) m ≡ record m { action_feedback = "" }
  unfolding clear_feedback
  key_clears text m =
      let shown = m.action_feedback in
      ap (λ f. record m { action_feedback = f })
        (elim (Bool-cases (shown == "")) [
          | inl e ↦ rw e ((eq_iff shown "").0 e)
          | inr e ↦ rw e refl
        ])

  -- what a key that changes the tab leaves
  abbrev at_tab : ℕ → Model → Model
  at_tab tab m = record m {
    active_tab = tab;
    scroll_y = 0;
    selected_index = 0;
    action_feedback = "";
  }

  press_tab : (m : Model) → IsIdle m → press "tab" m ≡ at_tab ((m.active_tab + 1) % tab_count) m
  unfolding on_list_msg on_list_key key_of lookup
  press_tab m idle =
      ap (λ s. s.0) (update-idle (key "tab") m idle)
      ∙ ap (λ c. (on_list_msg to_lower equal_fold height (key "tab") c).0) (key_clears "tab" m)

  press_shift_tab :
      (m : Model)
      → IsIdle m
      → press "shift+tab" m ≡ at_tab ((m.active_tab + tab_count - 1) % tab_count) m
  unfolding on_list_msg on_list_key key_of lookup
  press_shift_tab m idle =
      ap (λ s. s.0) (update-idle (key "shift+tab") m idle)
      ∙ ap (λ c. (on_list_msg to_lower equal_fold height (key "shift+tab") c).0)
          (key_clears "shift+tab" m)

  at_tab-IsIdle : (tab : ℕ) (m : Model) → IsIdle m → IsIdle (at_tab tab m)
  at_tab-IsIdle tab m idle = record {
    no_action = idle.no_action;
    no_detail = idle.no_detail;
    no_input = idle.no_input;
  }

  -- With no mode open and one of the nine tabs active, "tab" and then "shift+tab", and the other way round, come back to the tab, with
  -- the selection and the window at the top and no feedback shown; nothing else has changed.
  pub tab_and_back :
      (m : Model)
      → IsIdle m
      → m.active_tab < tab_count
      → let back = record m { scroll_y = 0; selected_index = 0; action_feedback = "" } in
        (press "shift+tab" (press "tab" m) ≡ back) × (press "tab" (press "shift+tab" m) ≡ back)
  tab_and_back m idle inside =
      let next = (m.active_tab + 1) % tab_count in
      let previous = (m.active_tab + tab_count - 1) % tab_count in
      (
        ap (press "shift+tab") (press_tab m idle)
            ∙ press_shift_tab (at_tab next m) (at_tab-IsIdle next m idle)
            ∙ ap (λ t. at_tab t m) (omega (arith, inside)),
        ap (press "tab") (press_shift_tab m idle)
            ∙ press_tab (at_tab previous m) (at_tab-IsIdle previous m idle)
            ∙ ap (λ t. at_tab t m) (omega (arith, inside)),
      )
