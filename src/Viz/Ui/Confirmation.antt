-- ===== src/Viz/Ui/Confirmation.antt =====
-- What the commands do to the cluster: nothing is written but by a confirmed action.
use yby_cli.Prelude.Exec.{lift, continue, Exec, ◌>>=◌}
use yby_cli.Prelude.Result.{Result-cases}
use yby_cli.Viz.Retry.{
  Client, pods, deployments, services, nodes, stateful_sets, jobs, ingresses, config_maps, events,
}
use yby_cli.Viz.Ui.{
  quit, no_cmd, fetch_resource_events, fetch_resource_yaml, fetch_pod_logs, fetch_resources,
  tick_reconnect, tick, execute_action, Cmd, action_confirm_restart, action_input_scale,
  action_confirm_delete, action_none, Model, Msg, ActionMode,
}
use yby_cli.Prelude.{
  arith, ap, sym, false≢true, refl, eq_String, [], ◌∷◌, ◌∙◌, lookup, cat, inr, Option-cases, some,
  inl, ◌≡◌, is_some, ℕ, true, false, Bool, String,
}
use yby_cli.Viz.Ui.Perform.{
  run_action, run_yaml, run_logs, perform, run_mode, shown, listed, run_fetch, run_events,
  ListFilter,
}
use yby_cli.Viz.Types.{Item}
use yby_cli.Viz.Ui.Commands.{
  ℤ, read_stream, resource_gvr, Gvr, wrap_error, get_resource_yaml, scan_int32, get_pod_logs,
  Cluster,
}
use yby_cli.Viz.Ui.Lists.{tab_resource}
use yby_cli.Viz.Ui.Quiet.{is_quiet, update-quiet, is_accepted, is_confirmed}
use yby_cli.Viz.Ui.Dispatch.{update}

module _ {W L O T A : Type 0} (client : Client W String ListFilter Item) (cluster : Cluster W L O T)
    (wait : ℕ → W → W) (writes : W → A) where
  -- Listing, reading and waiting leave `writes` as it is.
  pub record Reads : Type 0 where
    pub of_pods : (f : ListFilter) (w : W) → writes (client.get_pods f w).1 ≡ writes w
    pub of_deployments : (f : ListFilter) (w : W) → writes (client.get_deployments f w).1 ≡ writes w
    pub of_services : (f : ListFilter) (w : W) → writes (client.get_services f w).1 ≡ writes w
    pub of_nodes : (f : ListFilter) (w : W) → writes (client.get_nodes f w).1 ≡ writes w
    pub of_stateful_sets :
        (f : ListFilter) (w : W) → writes (client.get_stateful_sets f w).1 ≡ writes w
    pub of_jobs : (f : ListFilter) (w : W) → writes (client.get_jobs f w).1 ≡ writes w
    pub of_ingresses : (f : ListFilter) (w : W) → writes (client.get_ingresses f w).1 ≡ writes w
    pub of_config_maps : (f : ListFilter) (w : W) → writes (client.get_config_maps f w).1 ≡ writes w
    pub of_events : (f : ListFilter) (w : W) → writes (client.get_events f w).1 ≡ writes w
    pub of_open : (n p : String) (i : ℕ) (w : W) → writes (cluster.open_logs n p i w).1 ≡ writes w
    pub of_read : (s : T) (w : W) → writes (cluster.read_all s w).1 ≡ writes w
    pub of_close : (s : T) (w : W) → writes (cluster.close s w) ≡ writes w
    pub of_object :
        (g : Gvr) (n p : String) (w : W) → writes (cluster.get_object g n p w).1 ≡ writes w
    pub of_wait : (n : ℕ) (w : W) → writes (wait n w) ≡ writes w

  listed-Reads :
      {B : Type 0} (call : Exec W String B) (message : B → Msg) (w : W)
      → writes (call w).1 ≡ writes w
      → writes (listed call message w).1 ≡ writes w
  unfolding listed
  listed-Reads call message w same = elim (Result-cases (call w).0) [
    | inl (found, e) ↦ rw (e, listed) same
    | inr (problem, e) ↦ rw (e, listed) same
  ]

  shown-Reads :
      (title text : String) (call : Exec W String String) (w : W)
      → writes (call w).1 ≡ writes w
      → writes (shown title text call w).1 ≡ writes w
  unfolding shown
  shown-Reads title text call w same = elim (Result-cases (call w).0) [
    | inl (found, e) ↦ rw (e, shown) same
    | inr (problem, e) ↦ rw (e, shown) same
  ]

  wrap-Reads :
      {B : Type 0} (text : String) (call : Exec W String B) (w : W)
      → writes (call w).1 ≡ writes w
      → writes (wrap_error text call w).1 ≡ writes w
  unfolding wrap_error
  wrap-Reads text call w same = elim (Result-cases (call w).0) [
    | inl (found, e) ↦ rw (e, wrap_error) same
    | inr (problem, e) ↦ rw (e, wrap_error) same
  ]

  then-Reads :
      {B D : Type 0} (first : Exec W String B) (next : B → Exec W String D) (w : W)
      → writes (first w).1 ≡ writes w
      → ((b : B) (v : W) → writes (next b v).1 ≡ writes v)
      → writes ((first >>= next) w).1 ≡ writes w
  then-Reads first next w same later = elim (Result-cases (first w).0) [
    | inl (found, e) ↦ rw (e, ◌>>=◌, continue) (later found (first w).1 ∙ same)
    | inr (problem, e) ↦ rw (e, ◌>>=◌, continue) same
  ]

  fetch-Reads : Reads → (m : Model) (w : W) → writes (run_fetch (some client) m w).1 ≡ writes w
  unfolding run_fetch
  fetch-Reads reads m w = elim (Option-cases (tab_resource m.active_tab)) [
    | inl e ↦ rw (e, run_fetch) refl
    | inr (pods, e) ↦ rw (e, run_fetch) (listed-Reads _ _ w (reads.of_pods _ w))
    | inr (deployments, e) ↦ rw (e, run_fetch) (listed-Reads _ _ w (reads.of_deployments _ w))
    | inr (services, e) ↦ rw (e, run_fetch) (listed-Reads _ _ w (reads.of_services _ w))
    | inr (nodes, e) ↦ rw (e, run_fetch) (listed-Reads _ _ w (reads.of_nodes _ w))
    | inr (stateful_sets, e) ↦ rw (e, run_fetch) (listed-Reads _ _ w (reads.of_stateful_sets _ w))
    | inr (jobs, e) ↦ rw (e, run_fetch) (listed-Reads _ _ w (reads.of_jobs _ w))
    | inr (ingresses, e) ↦ rw (e, run_fetch) (listed-Reads _ _ w (reads.of_ingresses _ w))
    | inr (config_maps, e) ↦ rw (e, run_fetch) (listed-Reads _ _ w (reads.of_config_maps _ w))
    | inr (events, e) ↦ rw (e, run_fetch) (listed-Reads _ _ w (reads.of_events _ w))
  ]

  events-Reads :
      Reads
      → (name namespace : String) (w : W)
      → writes (run_events (some client) name namespace w).1 ≡ writes w
  unfolding run_events
  events-Reads reads name namespace w =
      let call = client.get_events (record { namespace = namespace; label_selector = "" }) in
      elim (Result-cases (call w).0) [
        | inl (found, e) ↦ rw (e, run_events) (reads.of_events _ w)
        | inr (problem, e) ↦ rw (e, run_events) (reads.of_events _ w)
      ]

  stream-Reads :
      Reads
      → (name : String) (stream : T) (w : W)
      → writes (read_stream cluster name stream w).1 ≡ writes w
  unfolding read_stream
  stream-Reads reads name stream w =
      let read =
        wrap_error (cat ("falha ao ler logs do pod '" ∷ name ∷ "'" ∷ [])) (cluster.read_all stream)
          w in
      let same = reads.of_close stream read.1 ∙ wrap-Reads _ _ w (reads.of_read stream w) in
      elim (Result-cases read.0) [
        | inl (found, e) ↦ rw (e, read_stream) same
        | inr (problem, e) ↦ rw (e, read_stream) same
      ]

  logs-Reads :
      Reads
      → (namespace name : String) (n : ℕ) (w : W)
      → writes (get_pod_logs cluster namespace name n w).1 ≡ writes w
  unfolding get_pod_logs
  logs-Reads reads namespace name n w =
      let text = cat ("falha ao obter logs do pod '" ∷ name ∷ "'" ∷ []) in
      let open_call = cluster.open_logs namespace name n in
      then-Reads (wrap_error text open_call) (read_stream cluster name) w
        (wrap-Reads text open_call w (reads.of_open namespace name n w)) (stream-Reads reads name)

  yaml-Reads :
      Reads
      → (to_lower : String → String) (kind name namespace : String) (w : W)
      → writes (get_resource_yaml cluster to_lower kind name namespace w).1 ≡ writes w
  unfolding get_resource_yaml
  yaml-Reads reads to_lower kind name namespace w =
      elim (Option-cases (lookup (to_lower kind) resource_gvr)) [
        | inl e ↦ rw (e, get_resource_yaml) refl
        | inr (gvr, e) ↦
            let text = cat ("falha ao buscar " ∷ kind ∷ " '" ∷ name ∷ "'" ∷ []) in
            let get = cluster.get_object gvr namespace name in
            let made = wrap_error "falha ao criar client dinâmico" (lift cluster.new_dynamic) in
            let shown_object : O → Exec W String String =
              λ object. wrap_error "falha ao serializar YAML" (lift (cluster.marshal object)) in
            rw (e, get_resource_yaml)
              (then-Reads made (λ d. wrap_error text get >>= shown_object) w
                (wrap-Reads "falha ao criar client dinâmico" (lift cluster.new_dynamic) w refl)
                (λ d v.
                  then-Reads (wrap_error text get) shown_object v
                    (wrap-Reads text get v (reads.of_object gvr namespace name v))
                    (λ object u.
                      wrap-Reads "falha ao serializar YAML" (lift (cluster.marshal object)) u
                        refl)))
      ]

  module _ (to_lower : String → String) (equal_fold : String → String → Bool)
      (show_int : ℤ → String) where
    -- An action that its input does not confirm.
    refused-Reads :
        (m : Model) (mode : ActionMode) (target input : String) (w : W)
        → is_accepted mode input ≡ false
        → writes (run_mode equal_fold show_int cluster m mode target input w).1 ≡ writes w
    unfolding run_mode
    refused-Reads m action_none target input w denied = refl
    refused-Reads m action_confirm_delete target input w denied = rw (denied, run_mode) refl
    refused-Reads m action_confirm_restart target input w denied = rw (denied, run_mode) refl
    refused-Reads m action_input_scale target input w denied =
        elim (Option-cases (scan_int32 input)) [
          | inl e ↦ rw (e, run_mode) refl
          | inr (n, e) ↦ absurd (false≢true (sym denied ∙ ap is_some e))
        ]

    quiet-Reads :
        Reads
        → (cmd : Cmd) (w : W) → is_quiet cmd ≡ true
        → writes (perform equal_fold show_int to_lower wait (some client) (some cluster) cmd w).1
          ≡ writes w
    unfolding perform run_logs run_yaml run_action
    quiet-Reads reads no_cmd w quiet = refl
    quiet-Reads reads quit w quiet = refl
    quiet-Reads reads (tick n) w quiet = reads.of_wait n w
    quiet-Reads reads (tick_reconnect n) w quiet = reads.of_wait n w
    quiet-Reads reads (fetch_resources m) w quiet = fetch-Reads reads m w
    quiet-Reads reads (fetch_pod_logs name namespace) w quiet =
        shown-Reads _ _ (get_pod_logs cluster namespace name 100) w
          (logs-Reads reads namespace name 100 w)
    quiet-Reads reads (fetch_resource_yaml kind name namespace) w quiet =
        shown-Reads _ _ (get_resource_yaml cluster to_lower kind name namespace) w
          (yaml-Reads reads to_lower kind name namespace w)
    quiet-Reads reads (fetch_resource_events name namespace) w quiet =
        events-Reads reads name namespace w
    quiet-Reads reads (execute_action m mode target input) w quiet =
        refused-Reads m mode target input w (ground (arith, quiet))

    -- Where listing, reading and waiting leave `writes` as it is, so does the command that the
    -- interface answers any message with, unless the message is the key "enter" and what was typed
    -- confirms the action that waits: "yes" for deleting and for restarting, a number for scaling.
    pub unconfirmed_writes_nothing :
        Reads
        → (height : Model → ℕ) (msg : Msg) (m : Model) (w : W) → is_confirmed msg m ≡ false
        → writes
            (perform equal_fold show_int to_lower wait
              (some client)
              (some cluster)
              (update to_lower equal_fold height msg m).1
              w).1
          ≡ writes w
    unconfirmed_writes_nothing reads height msg m w denied =
        quiet-Reads reads (update to_lower equal_fold height msg m).1 w
          (update-quiet to_lower equal_fold height msg m denied)
