-- ===== src/Scaffold/Manifest.antt =====
-- pkg/scaffold/manifest.go and context.go: the decisions of `yby init`, kept in .yby/project.yaml. The
-- files, the clock and YAML are parameters, over a world `W` and contents `B`.
pub mod Laws
pub mod Tests
use yby_cli.Prelude.Result.{Result, ok, err}
use yby_cli.Prelude.Exec.{Exec}
use yby_cli.Prelude.{
  none, true, ◌&&◌, eq_String, not, ◌==◌, Dict, Option, if◌then◌else◌, ◌∷◌, [], Bool, false, String,
  List,
}

pub record ProjectMetadata : Type 0 where
  pub name : String
  pub created_at : String

pub record FeatureFlags : Type 0 where
  pub kepler : Bool
  pub minio : Bool
  pub keda : Bool
  pub metrics_server : Bool
  pub dev_container : Bool
  pub ci : Bool
  pub discovery : Bool

pub record GitSpec : Type 0 where
  pub repo : String
  pub branch : String

-- `file_hashes` is none for a nil map.
pub record ProjectSpec : Type 0 where
  pub topology : String
  pub workflow : String
  pub secrets_strategy : String
  pub features : FeatureFlags
  pub git : GitSpec
  pub domain : String
  pub email : String
  pub file_hashes : Option (Dict String String)

pub record ProjectManifest : Type 0 where
  pub api_version : String
  pub kind : String
  pub metadata : ProjectMetadata
  pub spec : ProjectSpec

-- `O` is EnterpriseOverrides and `D` what plugins put into a template; none is nil.
pub record BlueprintContext (O D : Type 0) : Type 0 where
  pub git_repo_url : String
  pub git_branch : String
  pub project_name : String
  pub domain : String
  pub email : String
  pub environment : String
  pub enable_ci : Bool
  pub enable_discovery : Bool
  pub enable_whitelist : Bool
  pub enable_kepler : Bool
  pub enable_minio : Bool
  pub enable_keda : Bool
  pub enable_dev_container : Bool
  pub enable_metrics_server : Bool
  pub workflow_pattern : String
  pub topology : String
  pub environments : List String
  pub git_repo : String
  pub repo_root_path : String
  pub business_domain : String
  pub impact_level : String
  pub archetype : String
  pub github_discovery : Bool
  pub github_org : String
  pub secrets_strategy : String
  pub destination_server : String
  pub overrides : Option O
  pub template_data : Option D

-- BlueprintContext{}
abbrev pub no_context : {O D : Type 0} → BlueprintContext O D
no_context = record {
  git_repo_url = "";
  git_branch = "";
  project_name = "";
  domain = "";
  email = "";
  environment = "";
  enable_ci = false;
  enable_discovery = false;
  enable_whitelist = false;
  enable_kepler = false;
  enable_minio = false;
  enable_keda = false;
  enable_dev_container = false;
  enable_metrics_server = false;
  workflow_pattern = "";
  topology = "";
  environments = [];
  git_repo = "";
  repo_root_path = "";
  business_domain = "";
  impact_level = "";
  archetype = "";
  github_discovery = false;
  github_org = "";
  secrets_strategy = "";
  destination_server = "";
  overrides = none;
  template_data = none;
}

-- ManifestToContext
unfoldable pub manifest_to_context : {O D : Type 0} → ProjectManifest → BlueprintContext O D
manifest_to_context m = record no_context {
  project_name = m.metadata.name;
  topology = m.spec.topology;
  workflow_pattern = m.spec.workflow;
  secrets_strategy = m.spec.secrets_strategy;
  enable_kepler = m.spec.features.kepler;
  enable_minio = m.spec.features.minio;
  enable_keda = m.spec.features.keda;
  enable_metrics_server = m.spec.features.metrics_server;
  enable_dev_container = m.spec.features.dev_container;
  enable_ci = m.spec.features.ci;
  enable_discovery = m.spec.features.discovery;
  git_repo = m.spec.git.repo;
  git_branch = m.spec.git.branch;
  domain = m.spec.domain;
  email = m.spec.email;
}

-- `if target.F == "" { target.F = defaults.F }`, and the like for a flag
abbrev pub or_default : String → String → String
or_default target default = if target == "" then default else target

abbrev pub or_enabled : Bool → Bool → Bool
or_enabled target default = if not target && default then true else target

-- MergeContextDefaults
unfoldable pub merge_context_defaults :
    {O D : Type 0} → BlueprintContext O D → BlueprintContext O D → BlueprintContext O D
merge_context_defaults target defaults = record target {
  project_name = or_default target.project_name defaults.project_name;
  topology = or_default target.topology defaults.topology;
  workflow_pattern = or_default target.workflow_pattern defaults.workflow_pattern;
  secrets_strategy = or_default target.secrets_strategy defaults.secrets_strategy;
  git_repo = or_default target.git_repo defaults.git_repo;
  git_branch = or_default target.git_branch defaults.git_branch;
  domain = or_default target.domain defaults.domain;
  email = or_default target.email defaults.email;
  enable_kepler = or_enabled target.enable_kepler defaults.enable_kepler;
  enable_minio = or_enabled target.enable_minio defaults.enable_minio;
  enable_keda = or_enabled target.enable_keda defaults.enable_keda;
  enable_metrics_server = or_enabled target.enable_metrics_server defaults.enable_metrics_server;
  enable_dev_container = or_enabled target.enable_dev_container defaults.enable_dev_container;
  enable_ci = or_enabled target.enable_ci defaults.enable_ci;
  enable_discovery = or_enabled target.enable_discovery defaults.enable_discovery;
}

pub data ManifestError : Type 0 where
  manifest_not_serialized : String → ManifestError
  directory_not_created : String → ManifestError
  manifest_not_saved : String → ManifestError
  manifest_not_loaded : String → ManifestError
  manifest_not_parsed : String → ManifestError

abbrev pub Finished : Type 0
Finished = Unit

-- What the code calls.
pub record Storage (W B : Type 0) : Type 0 where
  pub join : List String → String
  pub dir : String → String
  pub now : W → String
  pub mkdir_all : String → Exec W String Finished
  pub read_file : String → W → Result String B
  pub write_file : String → B → Exec W String Finished
  pub marshal : ProjectManifest → Result String B
  pub unmarshal : B → Result String ProjectManifest

-- the manifest that SaveProjectManifest builds, at a time
unfoldable pub manifest_of :
    {O D : Type 0} → String → BlueprintContext O D → Option (Dict String String) → ProjectManifest
manifest_of now ctx file_hashes = record {
  api_version = "yby/v1";
  kind = "ProjectManifest";
  metadata = record { name = ctx.project_name; created_at = now };
  spec = record {
    topology = ctx.topology;
    workflow = ctx.workflow_pattern;
    secrets_strategy = ctx.secrets_strategy;
    features = record {
      kepler = ctx.enable_kepler;
      minio = ctx.enable_minio;
      keda = ctx.enable_keda;
      metrics_server = ctx.enable_metrics_server;
      dev_container = ctx.enable_dev_container;
      ci = ctx.enable_ci;
      discovery = ctx.enable_discovery;
    };
    git = record { repo = ctx.git_repo; branch = ctx.git_branch };
    domain = ctx.domain;
    email = ctx.email;
    file_hashes = file_hashes;
  };
}

module _ {W B : Type 0} (storage : Storage W B) where
  abbrev pub project_path : String → String
  project_path target_dir = storage.join (target_dir ∷ ".yby" ∷ "project.yaml" ∷ [])

  -- SaveProjectManifest
  unfoldable pub save_project_manifest :
      {O D : Type 0}
      → String
      → BlueprintContext O D
      → Option (Dict String String)
      → Exec W ManifestError Finished
  unfolding manifest_of
  save_project_manifest target_dir ctx file_hashes w =
      let path = project_path target_dir in
      let made = storage.mkdir_all (storage.dir path) w in
      elim (storage.marshal (manifest_of (storage.now w) ctx file_hashes)) [
        | err e ↦ (err (manifest_not_serialized e), w)
        | ok bytes ↦ elim made.0 [
          | err e ↦ (err (directory_not_created e), made.1)
          | ok d ↦ elim (storage.write_file path bytes made.1).0 [
            | err e ↦ (err (manifest_not_saved e), (storage.write_file path bytes made.1).1)
            | ok done ↦ (ok done, (storage.write_file path bytes made.1).1)
          ]
        ]
      ]

  -- LoadProjectManifest
  unfoldable pub parse_project : Result String B → Result ManifestError ProjectManifest
  parse_project (err e) = err (manifest_not_loaded e)
  parse_project (ok bytes) = elim (storage.unmarshal bytes) [
    | err e ↦ err (manifest_not_parsed e)
    | ok manifest ↦ ok manifest
  ]

  unfoldable pub load_project_manifest : String → W → Result ManifestError ProjectManifest
  unfolding parse_project
  load_project_manifest target_dir w = parse_project (storage.read_file (project_path target_dir) w)
