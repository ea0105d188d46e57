-- ===== src/Viz/Ui/Update.antt =====
-- `Update` of plugins/viz/internal/ui/model.go: one function for each mode that takes the keys, and
-- one for the messages. `content_height` is the number of lines that the tab is rendered to, the work
-- of the styles of lipgloss.
use Prim.Native.Char.{code}
use Prim.Native.String
use yby_cli.Prelude.{
  ℕ, ◌+◌, ◌-◌, ◌^◌, String, Bool, true, false, not, ◌&&◌, ◌||◌, some, ltb, leb, length, ◌==◌,
  eq_String, if◌then◌else◌,
}
use yby_cli.Viz.Ui.{
  ActionMode, action_none, mode_list, mode_detail, FilterState, Model, Msg, key, window_size,
  detail_msg, Cmd, no_cmd, tick_reconnect, fetch_resources, execute_action,
}
use yby_cli.Viz.Ui.Keys.{
  Key, key_enter, key_esc, key_backspace, key_quit, key_down, key_up, key_pgdown, key_pgup,
  key_home,
}
use yby_cli.Viz.Ui.Lists.{visible_height}

abbrev pub is_key : Msg → Bool
is_key (key text) = true
is_key msg = false

-- `if _, ok := msg.(tea.KeyMsg); ok && m.actionFeedback != ""`
unfoldable pub clear_feedback : Msg → Model → Model
clear_feedback msg m = record m {
  action_feedback = if is_key msg && not (m.action_feedback == "") then "" else m.action_feedback;
}

-- buffer[:len(buffer)-1]: the buffers have characters of one byte only
unfoldable pub drop_last : String → String
drop_last String.[] = ""
drop_last (String.◌∷◌ c String.[]) = ""
drop_last (String.◌∷◌ c (String.◌∷◌ d s)) = String.◌∷◌ c (drop_last (String.◌∷◌ d s))

-- len(keyMsg.String()) == 1, in bytes of UTF-8
unfoldable pub is_one_byte : String → Bool
is_one_byte String.[] = false
is_one_byte (String.◌∷◌ c String.[]) = ltb (code c) 128
is_one_byte (String.◌∷◌ c (String.◌∷◌ d s)) = false

-- The default case of both buffers.
unfoldable pub type_text : String → String → String
unfolding is_one_byte
type_text text buffer = if is_one_byte text then String.◌++◌ buffer text else buffer

-- the keys while an action waits for its input
unfoldable pub on_action_key : Key → String → Model → Model × Cmd
unfolding type_text drop_last
on_action_key key_enter text m =
    let closed = record m { action_mode = action_none; action_buffer = "" } in
    (closed, execute_action closed m.action_mode m.action_target m.action_buffer)
on_action_key key_esc text m =
    (record m { action_mode = action_none; action_buffer = ""; action_target = "" }, no_cmd)
on_action_key key_backspace text m =
    (record m { action_buffer = drop_last m.action_buffer }, no_cmd)
on_action_key k text m = (record m { action_buffer = type_text text m.action_buffer }, no_cmd)

-- the messages while a detail is shown, that no key returns from
unfoldable pub on_detail_msg : Msg → Model → Model × Cmd
on_detail_msg (window_size w h) m = (record m { width = w; height = h }, no_cmd)
on_detail_msg (detail_msg title content) m = (
  record m {
    detail_title = title;
    detail_content = content;
    detail_scroll_y = 0;
    view_mode = mode_detail;
  },
  no_cmd,
)
on_detail_msg msg m = (m, no_cmd)

abbrev pub close_detail : Model → Model × Cmd
close_detail m = (
  record m { view_mode = mode_list; detail_content = ""; detail_title = ""; detail_scroll_y = 0 },
  no_cmd,
)

-- the keys while a detail is shown
unfoldable pub on_detail_key : Key → Model → Model × Cmd
unfolding visible_height
on_detail_key key_esc m = close_detail m
on_detail_key key_quit m = close_detail m
on_detail_key key_down m = (record m { detail_scroll_y = m.detail_scroll_y + 1 }, no_cmd)
on_detail_key key_up m = (
  record m {
    detail_scroll_y = if ltb 0 m.detail_scroll_y then m.detail_scroll_y - 1 else m.detail_scroll_y;
  },
  no_cmd,
)
on_detail_key key_pgdown m =
    (record m { detail_scroll_y = m.detail_scroll_y + visible_height m }, no_cmd)
on_detail_key key_pgup m =
    (record m { detail_scroll_y = m.detail_scroll_y - visible_height m }, no_cmd)
on_detail_key key_home m = (record m { detail_scroll_y = 0 }, no_cmd)
on_detail_key k m = (m, no_cmd)

-- `switch m.filter.InputField` and the end of the input
unfoldable pub apply_input : FilterState → FilterState
apply_input f = record f {
  input_mode = false;
  namespace = if f.input_field == "namespace" then f.input_buffer else f.namespace;
  label_selector = if f.input_field == "label" then f.input_buffer else f.label_selector;
  status_filter = if f.input_field == "status" then f.input_buffer else f.status_filter;
  search_query = if f.input_field == "search" then f.input_buffer else f.search_query;
  input_buffer = "";
  input_field = "";
}

-- the keys while a filter is typed
unfoldable pub on_input_key : Key → String → Model → Model × Cmd
unfolding apply_input type_text drop_last
on_input_key key_enter text m =
    let applied = record m { filter_state = apply_input m.filter_state; scroll_y = 0 } in
    (applied, fetch_resources applied)
on_input_key key_esc text m = (
  record m {
    filter_state = record m.filter_state {
      input_mode = false;
      input_buffer = "";
      input_field = "";
    };
  },
  no_cmd,
)
on_input_key key_backspace text m = (
  record m {
    filter_state = record m.filter_state { input_buffer = drop_last m.filter_state.input_buffer };
  },
  no_cmd,
)
on_input_key k text m = (
  record m {
    filter_state = record m.filter_state {
      input_buffer = type_text text m.filter_state.input_buffer;
    };
  },
  no_cmd,
)

-- what the keys of the tabs share
abbrev pub goto_tab : ℕ → Model → Model × Cmd
goto_tab tab m =
    let moved = record m { active_tab = tab; scroll_y = 0; selected_index = 0 } in
    (moved, fetch_resources moved)

-- what the keys of the filters share
abbrev pub ask_filter : String → Model → Model × Cmd
ask_filter field m = (
  record m {
    filter_state = record m.filter_state {
      input_mode = true;
      input_field = field;
      input_buffer = "";
    };
  },
  no_cmd,
)

-- what the keys of the actions share
abbrev pub ask_action : ActionMode → String → Model → Model × Cmd
ask_action mode target m =
    (record m { action_mode = mode; action_target = target; action_buffer = "" }, no_cmd)

abbrev pub feedback : String → Model → Model × Cmd
feedback text m = (record m { action_feedback = text }, no_cmd)

-- "j" and "down"
unfoldable pub select_next : ℕ → Model → Model
unfolding visible_height
select_next count m =
    let line = m.selected_index + 1 + 2 in
    let h = visible_height m in
    if ltb 0 count && ltb m.selected_index (count - 1)
    then record m {
      selected_index = m.selected_index + 1;
      scroll_y = if leb (m.scroll_y + h) line then line - h + 1 else m.scroll_y;
    }
    else m

-- "k" and "up"
unfoldable pub select_previous : Model → Model
select_previous m =
    let line = m.selected_index - 1 + 2 in
    if ltb 0 m.selected_index
    then record m {
      selected_index = m.selected_index - 1;
      scroll_y = if ltb line m.scroll_y then line else m.scroll_y;
    }
    else m

-- the data that any tab already shows
unfoldable pub has_data : Model → Bool
has_data m =
    ltb 0 (length m.pods)
    || ltb 0 (length m.deployments)
    || ltb 0 (length m.services)
    || ltb 0 (length m.nodes)
    || ltb 0 (length m.statefulsets)
    || ltb 0 (length m.jobs)
    || ltb 0 (length m.ingresses)
    || ltb 0 (length m.configmaps)
    || ltb 0 (length m.events)

abbrev pub max_retries : ℕ
max_retries = 3

-- `case error`
unfoldable pub on_error : String → Model → Model × Cmd
unfolding has_data
on_error e m =
    let count = m.retry_count + 1 in
    if not (has_data m)
    then (record m { error = some e }, no_cmd)
    else if leb max_retries count
    then (record m { retry_count = count; error = some e; reconnecting = false }, no_cmd)
    else (record m { retry_count = count; reconnecting = true }, tick_reconnect (2 ^ (count - 1)))
