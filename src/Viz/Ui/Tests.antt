-- ===== src/Viz/Ui/Tests.antt =====
-- A dashboard with two deployments, and the theorems applied to it.
use yby_cli.Prelude.Result.{ok}
use yby_cli.Prelude.Exec.{Exec}
use yby_cli.Viz.Retry.{Client}
use yby_cli.Viz.Ui.Commands.{delete_resource, pos, Done, Cluster, ℤ}
use yby_cli.Viz.Ui.{
  no_cmd, tick_reconnect, error_msg, fetch_resources, tick_msg, action_confirm_delete, mode_list,
  no_filter, key, action_none, Msg, Model,
}
use yby_cli.Prelude.{
  arith, true, refl, ◌≡◌, lookup, false, eq_String, none, ◌∷◌, ◌==◌, some, Bool, [], String, List,
  ℕ,
}
use yby_cli.Viz.Types.{Item, Deployment}
use yby_cli.Viz.Ui.Perform.{done, run_fetch, run_mode, perform, ListFilter}
use yby_cli.Viz.Ui.Dispatch.{update}
use yby_cli.Viz.Ui.Update.{has_data}
use yby_cli.Viz.Ui.Keys.{key_of}
use yby_cli.Viz.Ui.Lists.{tab_resource, info_at, info_of, selected_resource_info}
use yby_cli.Viz.Ui.Confirmation.{unconfirmed_writes_nothing, Reads}
use yby_cli.Viz.Ui.Tabs.{IsIdle}
use yby_cli.Viz.Ui.Polling.{tick-GoesOn, GoesOn}
use yby_cli.Viz.Ui.Reconnect.{errors_back_off}

abbrev lower : String → String
lower s = s

abbrev fold : String → String → Bool
fold a b = a == b

abbrev lines : Model → ℕ
lines m = 10

abbrev shown_number : ℤ → String
shown_number n = "n"

-- the world is the log of what was written
abbrev Log : Type 0
Log = List String

abbrev written : String → String → String → Exec Log String Done
written kind namespace name log = (ok tt, (kind ∷ namespace ∷ name ∷ log))

abbrev lists : {A : Type 0} → List A → ListFilter → Exec Log String (List A)
lists found f log = (ok found, log)

abbrev api : Deployment
api = record { name = "api"; namespace = "prod"; replicas = 2; ready = 2; available = 2 }

abbrev web : Deployment
web = record { name = "web"; namespace = "prod"; replicas = 1; ready = 1; available = 1 }

abbrev lister : Client Log String ListFilter Item
lister = record {
  get_pods = lists [];
  get_deployments = lists (api ∷ web ∷ []);
  get_services = lists [];
  get_nodes = lists [];
  get_stateful_sets = lists [];
  get_jobs = lists [];
  get_ingresses = lists [];
  get_config_maps = lists [];
  get_events = lists [];
}

abbrev small : Cluster Log ℤ String String
small = record {
  delete_pod = written "pod";
  delete_deployment = written "deployment";
  delete_service = written "service";
  delete_statefulset = written "statefulset";
  delete_job = written "job";
  delete_configmap = written "configmap";
  get_scale = λ namespace name log. (ok (pos 1), log);
  set_replicas = λ scale n. n;
  update_scale = λ namespace name scale. written "scale" namespace name;
  now = λ log. "now";
  patch_deployment = λ namespace name patch. written "patch" namespace name;
  open_logs = λ namespace name n log. (ok "stream", log);
  read_all = λ stream log. (ok "line", log);
  close = λ stream log. log;
  new_dynamic = ok tt;
  get_object = λ gvr namespace name log. (ok "object", log);
  marshal = λ object. ok "yaml";
}

abbrev pause : ℕ → Log → Log
pause n log = log

abbrev dashboard : Model
dashboard = record {
  active_tab = 1;
  pods = [];
  deployments = api ∷ web ∷ [];
  services = [];
  nodes = [];
  statefulsets = [];
  jobs = [];
  ingresses = [];
  configmaps = [];
  events = [];
  error = none;
  width = 80;
  height = 24;
  scroll_y = 0;
  selected_index = 0;
  reconnecting = false;
  retry_count = 0;
  filter_state = no_filter;
  view_mode = mode_list;
  detail_content = "";
  detail_title = "";
  detail_scroll_y = 0;
  action_mode = action_none;
  action_target = "";
  action_buffer = "";
  action_feedback = "";
}

deletes_web :
    (run_mode fold shown_number small
      (record dashboard { selected_index = 1 })
      action_confirm_delete
      "web"
      "yes"
      []).1
    ≡ ("deployment" ∷ "prod" ∷ "web" ∷ [])
unfolding run_mode selected_resource_info info_of info_at tab_resource delete_resource done
deletes_web = refl

small-Reads : Reads lister small pause (λ log. log)
small-Reads = record {
  of_pods = λ f w. refl;
  of_deployments = λ f w. refl;
  of_services = λ f w. refl;
  of_nodes = λ f w. refl;
  of_stateful_sets = λ f w. refl;
  of_jobs = λ f w. refl;
  of_ingresses = λ f w. refl;
  of_config_maps = λ f w. refl;
  of_events = λ f w. refl;
  of_open = λ n p i w. refl;
  of_read = λ s w. refl;
  of_close = λ s w. refl;
  of_object = λ g n p w. refl;
  of_wait = λ n w. refl;
}

-- the prompt to delete "web", with "no" typed
abbrev unsure : Model
unsure = record dashboard {
  selected_index = 1;
  action_mode = action_confirm_delete;
  action_target = "web";
  action_buffer = "no";
}

unconfirmed_writes_nothing_example :
    (perform fold shown_number lower pause
      (some lister)
      (some small)
      (update lower fold lines (key "enter") unsure).1
      []).1
    ≡ []
unfolding key_of lookup
unconfirmed_writes_nothing_example =
    unconfirmed_writes_nothing lister small pause (λ log. log) lower fold shown_number small-Reads
      lines (key "enter") unsure [] refl

dashboard-IsIdle : IsIdle dashboard
dashboard-IsIdle = record { no_action = refl; no_detail = refl; no_input = refl }

tick-GoesOn_example :
    let (asked, cmd) = update lower fold lines tick_msg dashboard in
    (cmd ≡ fetch_resources asked)
    × ((msg : Msg) × ((run_fetch (some lister) asked []).0 ≡ some msg)
        × GoesOn (update lower fold lines msg asked))
tick-GoesOn_example =
    tick-GoesOn lower fold lines lister dashboard [] dashboard-IsIdle (omega arith)

errors_back_off_example :
    let step = update lower fold lines in
    let first = step (error_msg "a") dashboard in
    let second = step (error_msg "b") first.0 in
    let third = step (error_msg "c") second.0 in
    (first ≡ (record dashboard { retry_count = 1; reconnecting = true }, tick_reconnect 1))
    × (second ≡ (record dashboard { retry_count = 2; reconnecting = true }, tick_reconnect 2))
    × (third
        ≡ (record dashboard { retry_count = 3; reconnecting = false; error = some "c" }, no_cmd))
unfolding has_data
errors_back_off_example =
    errors_back_off lower fold lines dashboard "a" "b" "c" dashboard-IsIdle refl refl
