-- ===== src/Viz/Ui/Perform.antt =====
-- The commands of plugins/viz/internal/ui/model.go, run: fetchResources, fetchPodLogs,
-- fetchResourceYAML, fetchResourceEvents and executeAction. `resolveK8sClient` yields a cluster where
-- the client is one of the cluster or retries one.
use yby_cli.Prelude.{
  ℕ, String, Bool, not, List, [], ◌∷◌, Option, none, some, map, filter, ◌==◌, eq_String,
  if◌then◌else◌, cat,
}
use yby_cli.Prelude.Result.{ok, err}
use yby_cli.Prelude.Exec.{Exec}
use yby_cli.Viz.Retry.{
  Client, pods, deployments, services, nodes, stateful_sets, jobs, ingresses, config_maps, events,
}
use yby_cli.Viz.Types.{Event, Item}
use yby_cli.Viz.Ui.{
  Model, ActionMode, action_none, action_confirm_delete, action_input_scale, action_confirm_restart,
  Msg, detail_msg, action_result_msg, pods_msg, deployments_msg, services_msg, nodes_msg,
  statefulsets_msg, jobs_msg, ingresses_msg, configmaps_msg, events_msg, error_msg, tick_msg,
  reconnect_msg, Cmd, no_cmd, quit, tick, tick_reconnect, fetch_resources, fetch_pod_logs,
  fetch_resource_yaml, fetch_resource_events, execute_action,
}
use yby_cli.Viz.Ui.Lists.{selected_resource_info, tab_resource}
use yby_cli.Viz.Ui.Commands.{
  Done, ℤ, scan_int32, Cluster, delete_resource, scale_deployment, restart_deployment, get_pod_logs,
  get_resource_yaml,
}

pub record ListFilter : Type 0 where
  pub namespace : String
  pub label_selector : String

-- One case of fetchResources.
unfoldable pub listed : {W A : Type 0} → Exec W String A → (A → Msg) → W → Option Msg × W
listed call message w = elim (call w).0 [
  | ok found ↦ (some (message found), (call w).1)
  | err e ↦ (some (error_msg e), (call w).1)
]

-- `if err != nil { return detailMsg{title, text + err} }`, and the content otherwise
unfoldable pub shown : {W : Type 0} → String → String → Exec W String String → W → Option Msg × W
shown title text call w = elim (call w).0 [
  | ok content ↦ (some (detail_msg title content), (call w).1)
  | err e ↦ (some (detail_msg title (cat (text ∷ e ∷ []))), (call w).1)
]

unfoldable pub done : {W : Type 0} → String → Exec W String Done → W → Option Msg × W
done text call w = elim (call w).0 [
  | ok u ↦ (some (action_result_msg text none), (call w).1)
  | err e ↦ (some (action_result_msg "" (some e)), (call w).1)
]

abbrev pub event_line : Event → String
event_line e = cat ("[" ∷ e.age ∷ "] " ∷ e.type ∷ " - " ∷ e.reason ∷ ": " ∷ e.message ∷ "\n" ∷ [])

-- the lines of the events, or that there are none
unfoldable pub event_text : List String → String
event_text [] = "Nenhum evento encontrado para este recurso."
event_text (line ∷ lines) = cat (line ∷ lines)

module _ {W : Type 0} (client : Option (Client W String ListFilter Item)) where
  -- fetchResources
  unfoldable pub run_fetch : Model → W → Option Msg × W
  unfolding tab_resource
  run_fetch m w = elim client [
    | none ↦ (none, w)
    | some c ↦
        let f : ListFilter = record {
          namespace = m.filter_state.namespace;
          label_selector = m.filter_state.label_selector;
        } in
        elim (tab_resource m.active_tab) [
          | none ↦ (none, w)
          | some pods ↦ listed (c.get_pods f) pods_msg w
          | some deployments ↦ listed (c.get_deployments f) deployments_msg w
          | some services ↦ listed (c.get_services f) services_msg w
          | some nodes ↦ listed (c.get_nodes f) nodes_msg w
          | some stateful_sets ↦ listed (c.get_stateful_sets f) statefulsets_msg w
          | some jobs ↦ listed (c.get_jobs f) jobs_msg w
          | some ingresses ↦ listed (c.get_ingresses f) ingresses_msg w
          | some config_maps ↦ listed (c.get_config_maps f) configmaps_msg w
          | some events ↦ listed (c.get_events f) events_msg w
        ]
  ]

  -- fetchResourceEvents, for a client that is there
  unfoldable pub run_events : String → String → W → Option Msg × W
  run_events name namespace w = elim client [
    | none ↦ (none, w)
    | some c ↦
        let title = cat ("Eventos: " ∷ name ∷ []) in
        let call = c.get_events (record { namespace = namespace; label_selector = "" }) in
        elim (call w).0 [
          | err e ↦
              (some (detail_msg title (cat ("Erro ao buscar eventos: " ∷ e ∷ []))), (call w).1)
          | ok found ↦
              let lines = map event_line (filter (λ e. Event.name e == name) found) in
              (some (detail_msg title (event_text lines)), (call w).1)
        ]
  ]

module _ {W L O T : Type 0} (equal_fold : String → String → Bool) (show_int : ℤ → String) where
  -- executeAction, with a cluster
  unfoldable pub run_mode :
      Cluster W L O T → Model → ActionMode → String → String → W → Option Msg × W
  run_mode cluster m action_confirm_delete target input w =
      let info = selected_resource_info equal_fold m in
      if not (input == "yes")
      then (some (action_result_msg "Ação cancelada." none), w)
      else done (cat (info.kind ∷ " '" ∷ target ∷ "' deletado." ∷ []))
          (delete_resource cluster info.kind target info.namespace) w
  run_mode cluster m action_input_scale target input w =
      let info = selected_resource_info equal_fold m in
      elim (scan_int32 input) [
        | none ↦
            let e = cat ("valor inválido para réplicas: " ∷ input ∷ []) in
            (some (action_result_msg "" (some e)), w)
        | some replicas ↦
            let text = cat (
              "Deployment '"
              ∷ target
              ∷ "' escalado para "
              ∷ show_int replicas
              ∷ " réplicas."
              ∷ []) in
            done text (scale_deployment cluster target info.namespace replicas) w
      ]
  run_mode cluster m action_confirm_restart target input w =
      let info = selected_resource_info equal_fold m in
      if not (input == "yes")
      then (some (action_result_msg "Ação cancelada." none), w)
      else done (cat ("Deployment '" ∷ target ∷ "' reiniciado." ∷ []))
          (restart_deployment cluster target info.namespace) w
  run_mode cluster m action_none target input w =
      (some (action_result_msg "Ação desconhecida." none), w)

  -- executeAction
  unfoldable pub run_action :
      Option (Cluster W L O T) → Model → ActionMode → String → String → W → Option Msg × W
  unfolding run_mode
  run_action none m mode target input w =
      (some (action_result_msg "" (some "client não suporta ações diretas")), w)
  run_action (some cluster) m mode target input w = run_mode cluster m mode target input w

  module _ (to_lower : String → String) (wait : ℕ → W → W) where
    -- fetchPodLogs and fetchResourceYAML
    unfoldable pub run_logs : Option (Cluster W L O T) → String → String → W → Option Msg × W
    run_logs none name namespace w =
        let text : String = "(logs não disponíveis: client não suporta acesso direto)" in
        (some (detail_msg (cat ("Logs: " ∷ name ∷ [])) text), w)
    run_logs (some cluster) name namespace w =
        shown (cat ("Logs: " ∷ name ∷ [])) "Erro ao buscar logs: "
          (get_pod_logs cluster namespace name 100) w

    unfoldable pub run_yaml :
        Option (Cluster W L O T) → String → String → String → W → Option Msg × W
    run_yaml none kind name namespace w =
        let text : String = "(YAML não disponível: client não suporta acesso direto)" in
        (some (detail_msg (cat ("YAML: " ∷ name ∷ [])) text), w)
    run_yaml (some cluster) kind name namespace w =
        shown (cat ("YAML: " ∷ name ∷ [])) "Erro ao buscar YAML: "
          (get_resource_yaml cluster to_lower kind name namespace) w

    -- What a command sends back and does to the world.
    unfoldable pub perform :
        Option (Client W String ListFilter Item)
        → Option (Cluster W L O T)
        → Cmd
        → W
        → Option Msg × W
    unfolding run_fetch run_events run_logs run_yaml run_action
    perform client cluster no_cmd w = (none, w)
    perform client cluster quit w = (none, w)
    perform client cluster (tick n) w = (some tick_msg, wait n w)
    perform client cluster (tick_reconnect n) w = (some reconnect_msg, wait n w)
    perform client cluster (fetch_resources m) w = run_fetch client m w
    perform client cluster (fetch_pod_logs name namespace) w = run_logs cluster name namespace w
    perform client cluster (fetch_resource_yaml kind name namespace) w =
        run_yaml cluster kind name namespace w
    perform client cluster (fetch_resource_events name namespace) w =
        run_events client name namespace w
    perform client cluster (execute_action m mode target input) w =
        run_action cluster m mode target input w
