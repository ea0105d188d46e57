-- ===== src/Viz/Ui/Dispatch.antt =====
-- The keys of the list, the messages, and `Update` itself.
use yby_cli.Prelude.{
  true, ℕ, ◌+◌, ◌-◌, ◌%◌, String, Bool, false, not, ◌&&◌, ◌||◌, [], ◌∷◌, Option, none, some, ltb,
  ◌==◌, eq_String, if◌then◌else◌, cat,
}
use yby_cli.Viz.Ui.{
  ActionMode, ViewMode, tab_count, action_none, action_confirm_delete, action_input_scale,
  action_confirm_restart, mode_list, mode_detail, no_filter, Model, Msg, key, window_size, tick_msg,
  reconnect_msg, other_msg, detail_msg, action_result_msg, pods_msg, deployments_msg, services_msg,
  nodes_msg, statefulsets_msg, jobs_msg, ingresses_msg, configmaps_msg, events_msg, error_msg, Cmd,
  no_cmd, quit, tick, fetch_resources, fetch_pod_logs, fetch_resource_yaml, fetch_resource_events,
}
use yby_cli.Viz.Ui.Keys.{
  Key, key_esc, key_quit, key_ctrl_c, key_tab, key_shift_tab, key_down, key_up, key_pgdown,
  key_pgup, key_home, key_end, key_namespace, key_label, key_status, key_search, key_logs, key_yaml,
  key_events, key_delete, key_scale, key_restart, key_select, key_of,
}
use yby_cli.Viz.Ui.Lists.{selected_resource_info, item_count, visible_height}
use yby_cli.Viz.Ui.Update.{
  clear_feedback, on_action_key, on_detail_msg, on_detail_key, on_input_key, goto_tab, ask_filter,
  ask_action, feedback, select_next, select_previous, on_error,
}

-- What the list answers to data: they have been stored, and the next tick is in two seconds.
abbrev pub received : Model → Model × Cmd
received m = (record m { reconnecting = false; retry_count = 0 }, tick 2)

-- `case actionResultMsg`: the text that is shown
unfoldable pub result_text : String → Option String → String
result_text text none = text
result_text text (some e) = cat ("Erro: " ∷ e ∷ [])

module _ (to_lower : String → String) (equal_fold : String → String → Bool)
    (content_height : Model → ℕ) where
  -- the keys "l", "y", "e", "d", "s" and "r", which act on the selected resource
  unfoldable pub on_resource_key : Key → Model → Model × Cmd
  on_resource_key key_logs m =
      let info = selected_resource_info equal_fold m in
      if info.name == ""
      then (m, no_cmd)
      else if not (info.kind == "pod")
      then feedback "Logs disponível apenas para Pods" m
      else (m, fetch_pod_logs info.name info.namespace)
  on_resource_key key_yaml m =
      let info = selected_resource_info equal_fold m in
      if not (info.name == "")
      then (m, fetch_resource_yaml info.kind info.name info.namespace)
      else (m, no_cmd)
  on_resource_key key_events m =
      let info = selected_resource_info equal_fold m in
      if not (info.name == "")
      then (m, fetch_resource_events info.name info.namespace)
      else (m, no_cmd)
  on_resource_key key_delete m =
      let info = selected_resource_info equal_fold m in
      if info.name == ""
      then (m, no_cmd)
      else if info.kind == "node" || info.kind == "event"
      then feedback (cat ("Não é possível deletar " ∷ info.kind ∷ [])) m
      else ask_action action_confirm_delete info.name m
  on_resource_key key_scale m =
      let info = selected_resource_info equal_fold m in
      if info.name == ""
      then (m, no_cmd)
      else if not (info.kind == "deployment") && not (info.kind == "statefulset")
      then feedback "Scale disponível apenas para Deployments e StatefulSets" m
      else ask_action action_input_scale info.name m
  on_resource_key key_restart m =
      let info = selected_resource_info equal_fold m in
      if info.name == ""
      then (m, no_cmd)
      else if not (info.kind == "deployment") && not (info.kind == "statefulset")
      then feedback "Restart disponível apenas para Deployments e StatefulSets" m
      else ask_action action_confirm_restart info.name m
  on_resource_key k m = (m, no_cmd)

  -- the keys of the list; `max_scroll` is cut at zero
  unfoldable pub on_list_key : Key → Model → Model × Cmd
  unfolding on_resource_key
  on_list_key key_quit m = (m, quit)
  on_list_key key_ctrl_c m = (m, quit)
  on_list_key key_tab m = goto_tab ((m.active_tab + 1) % tab_count) m
  on_list_key key_shift_tab m = goto_tab ((m.active_tab + tab_count - 1) % tab_count) m
  on_list_key (key_select tab) m = goto_tab tab m
  on_list_key key_down m = (select_next (item_count to_lower equal_fold m) m, no_cmd)
  on_list_key key_up m = (select_previous m, no_cmd)
  on_list_key key_pgdown m =
      let h = visible_height m in
      let max_scroll = content_height m - h in
      let y = m.scroll_y + h in
      (record m { scroll_y = if ltb max_scroll y then max_scroll else y }, no_cmd)
  on_list_key key_pgup m = (record m { scroll_y = m.scroll_y - visible_height m }, no_cmd)
  on_list_key key_home m = (record m { scroll_y = 0; selected_index = 0 }, no_cmd)
  on_list_key key_end m =
      let count = item_count to_lower equal_fold m in
      (
        record m {
          scroll_y = content_height m - visible_height m;
          selected_index = if ltb 0 count then count - 1 else m.selected_index;
        },
        no_cmd,
      )
  on_list_key key_namespace m = ask_filter "namespace" m
  on_list_key key_label m = ask_filter "label" m
  on_list_key key_status m = ask_filter "status" m
  on_list_key key_search m = ask_filter "search" m
  on_list_key key_esc m =
      let cleared = record m { filter_state = no_filter; scroll_y = 0; selected_index = 0 } in
      (cleared, fetch_resources cleared)
  on_list_key k m = on_resource_key k m

  -- the messages of the list
  unfoldable pub on_list_msg : Msg → Model → Model × Cmd
  unfolding on_list_key on_error
  on_list_msg (key text) m = on_list_key (key_of text) m
  on_list_msg (window_size w h) m = (record m { width = w; height = h }, no_cmd)
  on_list_msg tick_msg m = (m, fetch_resources m)
  on_list_msg reconnect_msg m = (m, fetch_resources m)
  on_list_msg other_msg m = (m, no_cmd)
  on_list_msg (detail_msg title content) m = (
    record m {
      detail_title = title;
      detail_content = content;
      detail_scroll_y = 0;
      view_mode = mode_detail;
    },
    no_cmd,
  )
  on_list_msg (action_result_msg text error) m =
      let told = record m { action_feedback = result_text text error } in
      (told, fetch_resources told)
  on_list_msg (pods_msg found) m = received (record m { pods = found })
  on_list_msg (deployments_msg found) m = received (record m { deployments = found })
  on_list_msg (services_msg found) m = received (record m { services = found })
  on_list_msg (nodes_msg found) m = received (record m { nodes = found })
  on_list_msg (statefulsets_msg found) m = received (record m { statefulsets = found })
  on_list_msg (jobs_msg found) m = received (record m { jobs = found })
  on_list_msg (ingresses_msg found) m = received (record m { ingresses = found })
  on_list_msg (configmaps_msg found) m = received (record m { configmaps = found })
  on_list_msg (events_msg found) m = received (record m { events = found })
  on_list_msg (error_msg e) m = on_error e m

  -- the three modes that take the keys, and the list
  unfoldable pub on_action_msg : Msg → Model → Model × Cmd
  unfolding on_action_key
  on_action_msg (key text) m = on_action_key (key_of text) text m
  on_action_msg msg m = (m, no_cmd)

  unfoldable pub on_detail : Msg → Model → Model × Cmd
  unfolding on_detail_key on_detail_msg
  on_detail (key text) m = on_detail_key (key_of text) m
  on_detail msg m = on_detail_msg msg m

  unfoldable pub on_input_msg : Msg → Model → Model × Cmd
  unfolding on_input_key
  on_input_msg (key text) m = on_input_key (key_of text) text m
  on_input_msg msg m = (m, no_cmd)

  -- the branches of `Update`: an action, then the detail, then a filter, then the list
  unfoldable pub by_view : ViewMode → Bool → Msg → Model → Model × Cmd
  unfolding on_detail on_input_msg on_list_msg
  by_view mode_detail input_mode msg m = on_detail msg m
  by_view mode_list true msg m = on_input_msg msg m
  by_view mode_list false msg m = on_list_msg msg m

  unfoldable pub by_mode : ActionMode → Msg → Model → Model × Cmd
  unfolding on_action_msg by_view
  by_mode action_none msg m = by_view m.view_mode m.filter_state.input_mode msg m
  by_mode mode msg m = on_action_msg msg m

  unfoldable pub update : Msg → Model → Model × Cmd
  unfolding clear_feedback by_mode
  update msg model = let m = clear_feedback msg model in by_mode m.action_mode msg m
