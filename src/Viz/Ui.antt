-- ===== src/Viz/Ui.antt =====
-- plugins/viz/internal/ui/model.go, actions.go, detail.go and tab.go: the state of the terminal
-- interface, the messages it takes and the commands it returns. The field `client` never changes: it
-- is a parameter where a command runs. Positions are natural numbers; the code's subtractions that
-- are cut at zero are cut at zero here.
pub mod Keys
pub mod Lists
pub mod Update
pub mod Dispatch
pub mod Commands
pub mod Perform
pub mod Tabs
pub mod Polling
pub mod Reconnect
pub mod Quiet
pub mod Confirmation
pub mod Tests
use yby_cli.Prelude.{ℕ, zero, suc, String, Bool, true, false, List, [], Option, none, some}
use yby_cli.Viz.Types.{Pod, Deployment, Service, Node, StatefulSet, Job, Ingress, ConfigMap, Event}

-- ResourceTab: the constants count from 0, and `tab_count` is one more than the last.
abbrev pub tab_count : ℕ
tab_count = 9

pub data ActionMode : Type 0 where
  action_none action_confirm_delete action_input_scale action_confirm_restart : ActionMode

pub data ViewMode : Type 0 where
  mode_list mode_detail : ViewMode

pub record FilterState : Type 0 where
  pub namespace : String
  pub label_selector : String
  pub status_filter : String
  pub search_query : String
  pub input_mode : Bool
  pub input_buffer : String
  pub input_field : String

-- FilterState{}
abbrev pub no_filter : FilterState
no_filter = record {
  namespace = "";
  label_selector = "";
  status_filter = "";
  search_query = "";
  input_mode = false;
  input_buffer = "";
  input_field = "";
}

pub record Model : Type 0 where
  pub active_tab : ℕ
  pub pods : List Pod
  pub deployments : List Deployment
  pub services : List Service
  pub nodes : List Node
  pub statefulsets : List StatefulSet
  pub jobs : List Job
  pub ingresses : List Ingress
  pub configmaps : List ConfigMap
  pub events : List Event
  pub error : Option String
  pub width : ℕ
  pub height : ℕ
  pub scroll_y : ℕ
  pub selected_index : ℕ
  pub reconnecting : Bool
  pub retry_count : ℕ
  pub filter_state : FilterState
  pub view_mode : ViewMode
  pub detail_content : String
  pub detail_title : String
  pub detail_scroll_y : ℕ
  pub action_mode : ActionMode
  pub action_target : String
  pub action_buffer : String
  pub action_feedback : String

-- NewModel
unfoldable pub new_model {ℓ} : {C : Type ℓ} → Option C → Model
new_model client = record {
  active_tab = 0;
  pods = [];
  deployments = [];
  services = [];
  nodes = [];
  statefulsets = [];
  jobs = [];
  ingresses = [];
  configmaps = [];
  events = [];
  error = elim client [ none ↦ some "client K8s não disponível" | some c ↦ none ];
  width = 0;
  height = 0;
  scroll_y = 0;
  selected_index = 0;
  reconnecting = false;
  retry_count = 0;
  filter_state = no_filter;
  view_mode = mode_list;
  detail_content = "";
  detail_title = "";
  detail_scroll_y = 0;
  action_mode = action_none;
  action_target = "";
  action_buffer = "";
  action_feedback = "";
}

-- The messages of `Update`. `key` has the text of `tea.KeyMsg.String()`; any message with no case of
-- its own is an `other_msg`.
pub data Msg : Type 0 where
  key : String → Msg
  window_size : ℕ → ℕ → Msg
  tick_msg reconnect_msg other_msg : Msg
  detail_msg : String → String → Msg
  action_result_msg : String → Option String → Msg
  pods_msg : List Pod → Msg
  deployments_msg : List Deployment → Msg
  services_msg : List Service → Msg
  nodes_msg : List Node → Msg
  statefulsets_msg : List StatefulSet → Msg
  jobs_msg : List Job → Msg
  ingresses_msg : List Ingress → Msg
  configmaps_msg : List ConfigMap → Msg
  events_msg : List Event → Msg
  error_msg : String → Msg

-- The commands that `Update` returns. A method value keeps the model it was taken from, and a
-- closure the model it stands in; `tick` and `tick_reconnect` are `tea.Tick` with a time in seconds
-- and the message it sends.
pub data Cmd : Type 0 where
  no_cmd quit : Cmd
  tick tick_reconnect : ℕ → Cmd
  fetch_resources : Model → Cmd
  fetch_pod_logs : String → String → Cmd
  fetch_resource_yaml : String → String → String → Cmd
  fetch_resource_events : String → String → Cmd
  execute_action : Model → ActionMode → String → String → Cmd
