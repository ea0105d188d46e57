-- ===== src/Viz/Ui/Lists.antt =====
-- What the active tab shows and which resource is selected: search.go and the helpers of model.go.
-- `strings.ToLower` and `strings.EqualFold` follow tables of Unicode: they are parameters.
use yby_cli.Prelude.{
  ℕ, zero, suc, ◌-◌, String, Bool, true, false, ◌&&◌, ◌||◌, List, [], ◌∷◌, Option, none, some,
  length, get_elem?, filter, ltb, nat_eq, ◌==◌, eq_ℕ, eq_String, codes, if◌then◌else◌,
}
use yby_cli.Viz.Retry.{
  Resource, pods, deployments, services, nodes, stateful_sets, jobs, ingresses, config_maps, events,
}
use yby_cli.Viz.Types.{Pod, Deployment, Service, Node, StatefulSet, Job, Ingress, ConfigMap, Event}
use yby_cli.Viz.Ui.{Model}

-- The constant that a value of ResourceTab equals, if any: the cases of the switches on it.
unfoldable pub tab_resource : ℕ → Option Resource
tab_resource zero = some pods
tab_resource (suc zero) = some deployments
tab_resource (suc (suc zero)) = some services
tab_resource (suc (suc (suc zero))) = some nodes
tab_resource (suc (suc (suc (suc zero)))) = some stateful_sets
tab_resource (suc (suc (suc (suc (suc zero))))) = some jobs
tab_resource (suc (suc (suc (suc (suc (suc zero)))))) = some ingresses
tab_resource (suc (suc (suc (suc (suc (suc (suc zero))))))) = some config_maps
tab_resource (suc (suc (suc (suc (suc (suc (suc (suc zero)))))))) = some events
tab_resource (suc (suc (suc (suc (suc (suc (suc (suc (suc n))))))))) = none

-- strings.Contains, on code points
unfoldable pub starts_with : List ℕ → List ℕ → Bool
starts_with text [] = true
starts_with [] (q ∷ qs) = false
starts_with (c ∷ cs) (q ∷ qs) = c == q && starts_with cs qs

unfoldable pub contains_text : List ℕ → List ℕ → Bool
unfolding starts_with
contains_text [] qs = starts_with [] qs
contains_text (c ∷ cs) qs = starts_with (c ∷ cs) qs || contains_text cs qs

-- visibleHeight
unfoldable pub visible_height : Model → ℕ
visible_height m =
    if nat_eq m.height 0 then 1000 else let h = m.height - 5 in if ltb h 1 then 1 else h

-- clampScroll
unfoldable pub clamp_scroll : ℕ → Model → Model
unfolding visible_height
clamp_scroll total_lines m =
    let max_scroll = total_lines - visible_height m in
    record m { scroll_y = if ltb max_scroll m.scroll_y then max_scroll else m.scroll_y }

module _ (to_lower : String → String) where
  -- filterByName
  unfoldable pub filter_by_name {ℓ} : {A : Type ℓ} → List A → String → (A → String) → List A
  unfolding contains_text
  filter_by_name items query get_name =
      if query == ""
      then items
      else filter
          (λ item. contains_text (codes (to_lower (get_name item))) (codes (to_lower query))) items

  unfoldable pub filtered_deployments : Model → List Deployment
  unfolding filter_by_name
  filtered_deployments m =
      filter_by_name m.deployments m.filter_state.search_query (λ d. Deployment.name d)

  unfoldable pub filtered_services : Model → List Service
  unfolding filter_by_name
  filtered_services m = filter_by_name m.services m.filter_state.search_query (λ s. Service.name s)

  unfoldable pub filtered_nodes : Model → List Node
  unfolding filter_by_name
  filtered_nodes m = filter_by_name m.nodes m.filter_state.search_query (λ n. Node.name n)

  unfoldable pub filtered_statefulsets : Model → List StatefulSet
  unfolding filter_by_name
  filtered_statefulsets m =
      filter_by_name m.statefulsets m.filter_state.search_query (λ s. StatefulSet.name s)

  unfoldable pub filtered_jobs : Model → List Job
  unfolding filter_by_name
  filtered_jobs m = filter_by_name m.jobs m.filter_state.search_query (λ j. Job.name j)

  unfoldable pub filtered_ingresses : Model → List Ingress
  unfolding filter_by_name
  filtered_ingresses m =
      filter_by_name m.ingresses m.filter_state.search_query (λ i. Ingress.name i)

  unfoldable pub filtered_configmaps : Model → List ConfigMap
  unfolding filter_by_name
  filtered_configmaps m =
      filter_by_name m.configmaps m.filter_state.search_query (λ c. ConfigMap.name c)

  unfoldable pub filtered_events : Model → List Event
  unfolding filter_by_name
  filtered_events m = filter_by_name m.events m.filter_state.search_query (λ e. Event.name e)

-- filteredPods
unfoldable pub filtered_pods : (String → String → Bool) → Model → List Pod
filtered_pods equal_fold m =
    if m.filter_state.status_filter == ""
    then m.pods
    else filter (λ p. equal_fold (Pod.status p) m.filter_state.status_filter) m.pods

-- The name, the namespace and the kind of a resource.
pub record Info : Type 0 where
  pub name : String
  pub namespace : String
  pub kind : String

abbrev pub no_info : Info
no_info = record { name = ""; namespace = ""; kind = "" }

abbrev pub pod_info : Pod → Info
pod_info p = record { name = p.name; namespace = p.namespace; kind = "pod" }

abbrev pub deployment_info : Deployment → Info
deployment_info d = record { name = d.name; namespace = d.namespace; kind = "deployment" }

abbrev pub service_info : Service → Info
service_info s = record { name = s.name; namespace = s.namespace; kind = "service" }

abbrev pub node_info : Node → Info
node_info n = record { name = n.name; namespace = ""; kind = "node" }

abbrev pub statefulset_info : StatefulSet → Info
statefulset_info s = record { name = s.name; namespace = s.namespace; kind = "statefulset" }

abbrev pub job_info : Job → Info
job_info j = record { name = j.name; namespace = j.namespace; kind = "job" }

abbrev pub ingress_info : Ingress → Info
ingress_info i = record { name = i.name; namespace = i.namespace; kind = "ingress" }

abbrev pub configmap_info : ConfigMap → Info
configmap_info c = record { name = c.name; namespace = c.namespace; kind = "configmap" }

abbrev pub event_info : Event → Info
event_info e = record { name = e.name; namespace = e.namespace; kind = "event" }

-- `if idx >= 0 && idx < len(items) { return ... }`, and the empty result after the switch
unfoldable pub info_at {ℓ} : {A : Type ℓ} → List A → (A → Info) → ℕ → Info
info_at items info i = elim (get_elem? items i) [ none ↦ no_info | some item ↦ info item ]

-- the switch of selectedResourceInfo
unfoldable pub info_of : (String → String → Bool) → Option Resource → Model → Info
unfolding info_at
info_of equal_fold tab m = elim tab [
  | none ↦ no_info
  | some pods ↦ info_at (filtered_pods equal_fold m) pod_info m.selected_index
  | some deployments ↦ info_at m.deployments deployment_info m.selected_index
  | some services ↦ info_at m.services service_info m.selected_index
  | some nodes ↦ info_at m.nodes node_info m.selected_index
  | some stateful_sets ↦ info_at m.statefulsets statefulset_info m.selected_index
  | some jobs ↦ info_at m.jobs job_info m.selected_index
  | some ingresses ↦ info_at m.ingresses ingress_info m.selected_index
  | some config_maps ↦ info_at m.configmaps configmap_info m.selected_index
  | some events ↦ info_at m.events event_info m.selected_index
]

unfoldable pub selected_resource_info : (String → String → Bool) → Model → Info
unfolding tab_resource info_of
selected_resource_info equal_fold m = info_of equal_fold (tab_resource m.active_tab) m

module _ (to_lower : String → String) (equal_fold : String → String → Bool) where
  -- the switch of itemCount
  unfoldable pub count_of : Option Resource → Model → ℕ
  count_of tab m = elim tab [
    | none ↦ 0
    | some pods ↦ length (
        filter_by_name to_lower (filtered_pods equal_fold m) m.filter_state.search_query
          (λ p. Pod.name p))
    | some deployments ↦ length (filtered_deployments to_lower m)
    | some services ↦ length (filtered_services to_lower m)
    | some nodes ↦ length (filtered_nodes to_lower m)
    | some stateful_sets ↦ length (filtered_statefulsets to_lower m)
    | some jobs ↦ length (filtered_jobs to_lower m)
    | some ingresses ↦ length (filtered_ingresses to_lower m)
    | some config_maps ↦ length (filtered_configmaps to_lower m)
    | some events ↦ length (filtered_events to_lower m)
  ]

  unfoldable pub item_count : Model → ℕ
  unfolding tab_resource count_of
  item_count m = count_of (tab_resource m.active_tab) m
