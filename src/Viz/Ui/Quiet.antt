-- ===== src/Viz/Ui/Quiet.antt =====
-- Which messages the interface answers with a command that may write.
-- The input that confirms an action.
use yby_cli.Viz.Ui.{
  action_confirm_restart, action_input_scale, mode_list, error_msg, mode_detail,
  action_confirm_delete, ViewMode, action_none, key, Model, execute_action, Msg, Cmd, ActionMode,
}
use yby_cli.Prelude.{
  arith, eq_String, refl, ap, is_some, ◌==◌, ℕ, not, ◌&&◌, ◌≡◌, true, false, String, Bool,
}
use yby_cli.Viz.Ui.Keys.{
  key_other, key_backspace, key_restart, key_scale, key_delete, key_events, key_yaml, key_esc,
  key_logs, key_of, key_enter, Key,
}
use yby_cli.Viz.Ui.Update.{
  on_error, clear_feedback, on_detail_msg, on_input_key, on_detail_key, on_action_key,
}
use yby_cli.Viz.Ui.Dispatch.{
  by_view, on_list_key, on_resource_key, on_detail, on_action_msg, by_mode, on_list_msg, update,
  on_input_msg,
}
use yby_cli.Viz.Ui.Commands.{scan_int32}

abbrev pub is_accepted : ActionMode → String → Bool
is_accepted action_none input = false
is_accepted action_confirm_delete input = input == "yes"
is_accepted action_input_scale input = is_some (scan_int32 input)
is_accepted action_confirm_restart input = input == "yes"

abbrev pub is_enter : Key → Bool
is_enter key_enter = true
is_enter k = false

-- The message is the key "enter", and what was typed confirms the action that waits.
abbrev pub is_confirmed : Msg → Model → Bool
is_confirmed (key text) m = is_enter (key_of text) && is_accepted m.action_mode m.action_buffer
is_confirmed msg m = false

-- Whether a command writes nothing: it is no action, or one that is not confirmed.
abbrev pub is_quiet : Cmd → Bool
is_quiet (execute_action m mode target input) = not (is_accepted mode input)
is_quiet cmd = true

action_key-quiet :
    (k : Key) (text : String) (m : Model)
    → (is_enter k && is_accepted m.action_mode m.action_buffer) ≡ false
    → is_quiet (on_action_key k text m).1 ≡ true
unfolding on_action_key
action_key-quiet key_enter text m denied = ap not denied
action_key-quiet k text m denied = refl

module _ (to_lower : String → String) (equal_fold : String → String → Bool)
    (height : Model → ℕ) where
  action_msg-quiet :
      (msg : Msg) (m : Model)
      → is_confirmed msg m ≡ false
      → is_quiet (on_action_msg to_lower equal_fold height msg m).1 ≡ true
  unfolding on_action_msg
  action_msg-quiet (key text) m denied = action_key-quiet (key_of text) text m denied
  action_msg-quiet msg m denied = refl

  detail_key-quiet : (k : Key) (m : Model) → is_quiet (on_detail_key k m).1 ≡ true
  unfolding on_detail_key
  detail_key-quiet key_esc m = refl
  detail_key-quiet k m = refl

  detail-quiet :
      (msg : Msg) (m : Model) → is_quiet (on_detail to_lower equal_fold height msg m).1 ≡ true
  unfolding on_detail on_detail_msg
  detail-quiet (key text) m = detail_key-quiet (key_of text) m
  detail-quiet msg m = refl

  input_key-quiet :
      (k : Key) (text : String) (m : Model) → is_quiet (on_input_key k text m).1 ≡ true
  unfolding on_input_key
  input_key-quiet key_esc text m = refl
  input_key-quiet k text m = refl

  input-quiet :
      (msg : Msg) (m : Model) → is_quiet (on_input_msg to_lower equal_fold height msg m).1 ≡ true
  unfolding on_input_msg
  input-quiet (key text) m = input_key-quiet (key_of text) text m
  input-quiet msg m = refl

  resource_key-quiet :
      (k : Key) (m : Model) → is_quiet (on_resource_key to_lower equal_fold height k m).1 ≡ true
  unfolding on_resource_key
  resource_key-quiet key_logs m = ground arith
  resource_key-quiet key_yaml m = ground arith
  resource_key-quiet key_events m = ground arith
  resource_key-quiet key_delete m = ground arith
  resource_key-quiet key_scale m = ground arith
  resource_key-quiet key_restart m = ground arith
  resource_key-quiet k m = refl

  list_key-quiet :
      (k : Key) (m : Model) → is_quiet (on_list_key to_lower equal_fold height k m).1 ≡ true
  unfolding on_list_key
  list_key-quiet key_logs m = resource_key-quiet key_logs m
  list_key-quiet key_yaml m = resource_key-quiet key_yaml m
  list_key-quiet key_events m = resource_key-quiet key_events m
  list_key-quiet key_delete m = resource_key-quiet key_delete m
  list_key-quiet key_scale m = resource_key-quiet key_scale m
  list_key-quiet key_restart m = resource_key-quiet key_restart m
  list_key-quiet key_enter m = resource_key-quiet key_enter m
  list_key-quiet key_backspace m = resource_key-quiet key_backspace m
  list_key-quiet key_other m = resource_key-quiet key_other m
  list_key-quiet k m = refl

  list_msg-quiet :
      (msg : Msg) (m : Model) → is_quiet (on_list_msg to_lower equal_fold height msg m).1 ≡ true
  unfolding on_list_msg on_error
  list_msg-quiet (key text) m = list_key-quiet (key_of text) m
  list_msg-quiet (error_msg e) m = ground arith
  list_msg-quiet msg m = refl

  by_view-quiet :
      (view : ViewMode) (input : Bool) (msg : Msg) (m : Model)
      → is_quiet (by_view to_lower equal_fold height view input msg m).1 ≡ true
  unfolding by_view
  by_view-quiet mode_detail input msg m = detail-quiet msg m
  by_view-quiet mode_list true msg m = input-quiet msg m
  by_view-quiet mode_list false msg m = list_msg-quiet msg m

  by_mode-quiet :
      (mode : ActionMode) (msg : Msg) (m : Model)
      → is_confirmed msg m ≡ false
      → is_quiet (by_mode to_lower equal_fold height mode msg m).1 ≡ true
  unfolding by_mode
  by_mode-quiet action_none msg m denied = by_view-quiet m.view_mode m.filter_state.input_mode msg m
  by_mode-quiet mode msg m denied = action_msg-quiet msg m denied

  pub update-quiet :
      (msg : Msg) (m : Model)
      → is_confirmed msg m ≡ false
      → is_quiet (update to_lower equal_fold height msg m).1 ≡ true
  unfolding update clear_feedback
  update-quiet (key text) m denied =
      by_mode-quiet m.action_mode (key text) (clear_feedback (key text) m) denied
  update-quiet msg m denied = by_mode-quiet m.action_mode msg (clear_feedback msg m) denied
