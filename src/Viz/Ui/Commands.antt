-- ===== src/Viz/Ui/Commands.antt =====
-- What the commands do: fetchResources, executeAction and the like of
-- plugins/viz/internal/ui/model.go, and actions.go, logs.go and yaml.go of
-- plugins/viz/internal/monitor. The API of the cluster and the clock are parameters over a world `W`.
use Prim.Native.Char.{code}
use yby_cli.Prelude.{
  ℕ, zero, suc, ◌+◌, ◌-◌, ◌*◌, ◌^◌, String, Bool, true, false, ◌&&◌, [], ◌∷◌, Option, none, some,
  ltb, leb, nat_eq, ◌==◌, eq_String, if◌then◌else◌, cat, Dict, lookup,
}
use yby_cli.Prelude.Result.{Result, ok, err}
use yby_cli.Prelude.Exec.{Exec, raise, lift, ◌>>=◌}

-- nothing but an error
abbrev pub Done : Type 0
Done = Unit

-- An integer of Go: `negsuc n` is -(n + 1).
pub data ℤ : Type 0 where
  pos negsuc : ℕ → ℤ

abbrev pub number : Option ℕ → ℕ
number none = 0
number (some n) = n

-- The digits that a text starts with, read as a number; none where there is none.
unfoldable pub scan_digits : Option ℕ → String → Option ℕ
scan_digits found String.[] = found
scan_digits found (String.◌∷◌ c s) =
    let n = number found in
    if leb 48 (code c) && leb (code c) 57
    then scan_digits (some (n * 10 + (code c - 48))) s
    else found

-- `fmt.Sscanf(input, "%d", &replicas)` into an int32: spaces, a sign, digits, and any rest; nothing
-- where there is no digit or the number does not fit.
unfoldable pub signed : Option ℕ → Bool → Option ℤ
signed none negative = none
signed (some n) false = if ltb n (2 ^ 31) then some (pos n) else none
signed (some zero) true = some (pos 0)
signed (some (suc n)) true = if ltb n (2 ^ 31) then some (negsuc n) else none

unfoldable pub scan_int32 : String → Option ℤ
scan_int32 String.[] = none
scan_int32 (String.◌∷◌ c s) =
    let rest = scan_int32 s in
    if nat_eq (code c) 32
    then rest
    else if nat_eq (code c) 45
    then signed (scan_digits none s) true
    else if nat_eq (code c) 43
    then signed (scan_digits none s) false
    else signed (scan_digits none (String.◌∷◌ c s)) false

pub record Gvr : Type 0 where
  pub group : String
  pub version : String
  pub resource : String

-- The calls of client-go, by namespace and name. `L` is a scale, `O` an object, `T` a stream.
pub record Cluster (W L O T : Type 0) : Type 0 where
  pub delete_pod : String → String → Exec W String Done
  pub delete_deployment : String → String → Exec W String Done
  pub delete_service : String → String → Exec W String Done
  pub delete_statefulset : String → String → Exec W String Done
  pub delete_job : String → String → Exec W String Done
  pub delete_configmap : String → String → Exec W String Done
  pub get_scale : String → String → Exec W String L
  pub set_replicas : L → ℤ → L
  pub update_scale : String → String → L → Exec W String Done
  pub now : W → String
  pub patch_deployment : String → String → String → Exec W String Done
  pub open_logs : String → String → ℕ → Exec W String T
  pub read_all : T → Exec W String String
  pub close : T → W → W
  pub new_dynamic : Result String Done
  pub get_object : Gvr → String → String → Exec W String O
  pub marshal : O → Result String String

-- The `%w` of an error
unfoldable pub wrap_error : {W A : Type 0} → String → Exec W String A → Exec W String A
wrap_error text call w = elim (call w).0 [
  | ok a ↦ (ok a, (call w).1)
  | err e ↦ (err (cat (text ∷ ": " ∷ e ∷ [])), (call w).1)
]

abbrev pub resource_gvr : Dict String Gvr
resource_gvr =
    ("pod", record { group = ""; version = "v1"; resource = "pods" })
    ∷ ("service", record { group = ""; version = "v1"; resource = "services" })
    ∷ ("node", record { group = ""; version = "v1"; resource = "nodes" })
    ∷ ("configmap", record { group = ""; version = "v1"; resource = "configmaps" })
    ∷ ("deployment", record { group = "apps"; version = "v1"; resource = "deployments" })
    ∷ ("statefulset", record { group = "apps"; version = "v1"; resource = "statefulsets" })
    ∷ ("job", record { group = "batch"; version = "v1"; resource = "jobs" })
    ∷ ("ingress", record { group = "networking.k8s.io"; version = "v1"; resource = "ingresses" })
    ∷ []

module _ {W L O T : Type 0} (cluster : Cluster W L O T) where
  -- DeleteResource
  unfoldable pub delete_resource : String → String → String → Exec W String Done
  delete_resource kind name namespace =
      if kind == "pod"
      then cluster.delete_pod namespace name
      else if kind == "deployment"
      then cluster.delete_deployment namespace name
      else if kind == "service"
      then cluster.delete_service namespace name
      else if kind == "statefulset"
      then cluster.delete_statefulset namespace name
      else if kind == "job"
      then cluster.delete_job namespace name
      else if kind == "configmap"
      then cluster.delete_configmap namespace name
      else raise (cat ("deleção não suportada para tipo '" ∷ kind ∷ "'" ∷ []))

  -- ScaleDeployment
  unfoldable pub scale_deployment : String → String → ℤ → Exec W String Done
  scale_deployment name namespace replicas =
      wrap_error (cat ("falha ao obter scale do deployment '" ∷ name ∷ "'" ∷ []))
        (cluster.get_scale namespace name)
      >>= λ scale.
          wrap_error (cat ("falha ao escalar deployment '" ∷ name ∷ "'" ∷ []))
            (cluster.update_scale namespace name (cluster.set_replicas scale replicas))

  -- RestartDeployment
  unfoldable pub restart_deployment : String → String → Exec W String Done
  restart_deployment name namespace w =
      let patch = cat (
        "{\"spec\":{\"template\":{\"metadata\":{\"annotations\":{\"kubectl.kubernetes.io/restartedAt\":\""
        ∷ cluster.now w
        ∷ "\"}}}}}"
        ∷ []) in
      wrap_error (cat ("falha ao reiniciar deployment '" ∷ name ∷ "'" ∷ []))
        (cluster.patch_deployment namespace name patch) w

  -- the part of GetPodLogs after the stream is open: it is closed whether or not it could be read
  unfoldable pub read_stream : String → T → Exec W String String
  read_stream pod_name stream w =
      let read =
        wrap_error (cat ("falha ao ler logs do pod '" ∷ pod_name ∷ "'" ∷ []))
          (cluster.read_all stream) w in
      elim read.0 [
        | err e ↦ (err e, cluster.close stream read.1)
        | ok logs ↦ (
          ok (if logs == "" then "(nenhum log disponível)" else logs),
          cluster.close stream read.1,
        )
      ]

  -- GetPodLogs
  unfoldable pub get_pod_logs : String → String → ℕ → Exec W String String
  unfolding read_stream
  get_pod_logs namespace pod_name tail_lines =
      wrap_error (cat ("falha ao obter logs do pod '" ∷ pod_name ∷ "'" ∷ []))
        (cluster.open_logs namespace pod_name tail_lines)
      >>= read_stream pod_name

  -- GetResourceYAML: an empty namespace asks for an object of the cluster
  unfoldable pub get_resource_yaml :
      (String → String) → String → String → String → Exec W String String
  get_resource_yaml to_lower kind name namespace = elim (lookup (to_lower kind) resource_gvr) [
    | none ↦ raise (cat ("tipo de recurso não suportado: " ∷ kind ∷ []))
    | some gvr ↦ wrap_error "falha ao criar client dinâmico" (lift cluster.new_dynamic) >>= λ made.
        wrap_error (cat ("falha ao buscar " ∷ kind ∷ " '" ∷ name ∷ "'" ∷ []))
          (cluster.get_object gvr namespace name)
        >>= λ object. wrap_error "falha ao serializar YAML" (lift (cluster.marshal object))
  ]
