-- ===== src/Context.antt =====
-- pkg/context/context.go: the environments of a project, in .yby/environments.yaml. The files, the
-- variables of the process and YAML are parameters, over a world `W` and contents `B`.
pub mod Laws
pub mod Adding
pub mod Tests
use yby_cli.Prelude.Result.{Result, ok, err}
use yby_cli.Prelude.Exec.{Exec}
use yby_cli.Prelude.{
  is_some, insert, ◌==◌, eq_String, lookup, [], cat, none, not, if◌then◌else◌, ◌∷◌, Bool, some,
  Dict, List, String, Option,
}

pub record AuthConfig : Type 0 where
  pub method : String
  pub sso_start_url : String
  pub sso_region : String
  pub sso_account : String
  pub sso_role_name : String
  pub mfa_serial : String

pub record CloudConfig : Type 0 where
  pub provider : String
  pub region : String
  pub cluster : String
  pub profile : String
  pub role_arn : String
  pub auth : Option AuthConfig
  pub resource_group : String
  pub subscription : String
  pub tenant_id : String
  pub login_mode : String
  pub project_id : String
  pub zone : String
  pub service_account : String
  pub credentials_file : String
  pub fleet_membership : String

pub record Environment : Type 0 where
  pub type : String
  pub description : String
  pub values : String
  pub url : String
  pub kube_config : String
  pub kube_context : String
  pub namespace : String
  pub cloud : Option CloudConfig

-- `environments` is none for a nil map.
pub record EnvironmentsManifest : Type 0 where
  pub current : String
  pub environments : Option (Dict String Environment)

pub data ContextError : Type 0 where
  manifest_not_found : String → ContextError
  manifest_not_read : String → ContextError
  manifest_malformed : String → ContextError
  manifest_not_written : String → ContextError
  override_not_defined : String → ContextError
  current_not_found : String → ContextError
  environment_unknown : String → ContextError
  environment_exists : String → ContextError
  values_not_written : String → ContextError
  nil_map_assignment : ContextError

abbrev pub Written : Type 0
Written = Unit

-- What the code calls. Reading leaves the world as it is; `not_exist` is `os.IsNotExist` of the error
-- of `os.Stat`.
pub record Files (W B : Type 0) : Type 0 where
  pub join : List String → String
  pub not_exist : String → W → Bool
  pub read_file : String → W → Result String B
  pub write_file : String → B → Exec W String Written
  pub getenv : String → W → String
  pub unmarshal : B → Result String EnvironmentsManifest
  pub marshal : EnvironmentsManifest → Result String B
  pub bytes : String → B

abbrev pub Outcome : Type 0
Outcome = Option ContextError

-- m[k], where reading a nil map finds nothing
unfoldable pub defined : String → Option (Dict String Environment) → Option Environment
defined name none = none
defined name (some environments) = lookup name environments

-- one lookup of GetCurrent
unfoldable pub chosen :
    (String → ContextError)
    → String
    → Option Environment
    → Result ContextError (String × Environment)
chosen e name none = err (e name)
chosen e name (some found) = ok (name, found)

module _ {W B : Type 0} (files : Files W B) (root_dir : String) where
  abbrev pub manifest_path : String
  manifest_path = files.join (root_dir ∷ ".yby" ∷ "environments.yaml" ∷ [])

  -- the parts of LoadManifest after the file is there, and after it is read
  unfoldable pub parse_manifest : Result String B → Result ContextError EnvironmentsManifest
  parse_manifest (err e) = err (manifest_not_read e)
  parse_manifest (ok bytes) = elim (files.unmarshal bytes) [
    | err e ↦ err (manifest_malformed e)
    | ok manifest ↦ ok manifest
  ]

  -- LoadManifest
  unfoldable pub load_manifest : W → Result ContextError EnvironmentsManifest
  unfolding parse_manifest
  load_manifest w =
      if files.not_exist manifest_path w
      then err (manifest_not_found manifest_path)
      else parse_manifest (files.read_file manifest_path w)

  -- SaveManifest
  unfoldable pub save_manifest : EnvironmentsManifest → W → Outcome × W
  save_manifest manifest w = elim (files.marshal manifest) [
    | err e ↦ (some (manifest_not_written e), w)
    | ok bytes ↦ elim (files.write_file manifest_path bytes w).0 [
      | err e ↦ (some (manifest_not_written e), (files.write_file manifest_path bytes w).1)
      | ok done ↦ (none, (files.write_file manifest_path bytes w).1)
    ]
  ]

  -- GetCurrent: the variable YBY_ENV goes before the manifest
  unfoldable pub current_of :
      String → EnvironmentsManifest → Result ContextError (String × Environment)
  unfolding chosen
  current_of override manifest =
      if not (override == "")
      then chosen override_not_defined override (defined override manifest.environments)
      else chosen current_not_found manifest.current
          (defined manifest.current manifest.environments)

  unfoldable pub get_current : W → Result ContextError (String × Environment)
  unfolding load_manifest current_of
  get_current w = elim (load_manifest w) [
    | err e ↦ err e
    | ok manifest ↦ current_of (files.getenv "YBY_ENV" w) manifest
  ]

  -- SetCurrent
  unfoldable pub set_current : String → W → Outcome × W
  unfolding load_manifest save_manifest
  set_current name w = elim (load_manifest w) [
    | err e ↦ (some e, w)
    | ok manifest ↦ elim (defined name manifest.environments) [
      | none ↦ (some (environment_unknown name), w)
      | some found ↦ save_manifest (record manifest { current = name }) w
    ]
  ]

  -- AddEnvironment: the file of values, where it does not exist
  unfoldable pub write_values : String → String → String → W → Outcome × W
  write_values name values_file values_content w =
      let path = files.join (root_dir ∷ values_file ∷ []) in
      let content =
        if values_content == ""
        then cat ("# Values for " ∷ name ∷ " environment\n" ∷ [])
        else values_content in
      let done = files.write_file path (files.bytes content) w in
      if not (files.not_exist path w)
      then (none, w)
      else elim done.0 [ err e ↦ (some (values_not_written e), done.1) | ok d ↦ (none, done.1) ]

  -- `manifest.Environments[name] = env`, which panics on a nil map, and the save
  unfoldable pub store_environment : String → Environment → EnvironmentsManifest → W → Outcome × W
  unfolding save_manifest
  store_environment name env manifest w = elim manifest.environments [
    | none ↦ (some nil_map_assignment, w)
    | some environments ↦
        save_manifest (record manifest { environments = some (insert name env environments) }) w
  ]

  -- AddEnvironment
  unfoldable pub add_environment : String → Environment → String → W → Outcome × W
  unfolding load_manifest write_values store_environment
  add_environment name env values_content w = elim (load_manifest w) [
    | err e ↦ (some e, w)
    | ok manifest ↦
        let values_file = cat ("config/values-" ∷ name ∷ ".yaml" ∷ []) in
        let written = write_values name values_file values_content w in
        if is_some (defined name manifest.environments)
        then (some (environment_exists name), w)
        else elim written.0 [
          | some e ↦ (some e, written.1)
          | none ↦ store_environment name (record env { values = values_file }) manifest written.1
        ]
  ]

  -- ValidateIntegrity: the names of the environments whose file of values is not there
  unfoldable pub missing_values : W → Dict String Environment → List (String × String)
  missing_values w [] = []
  missing_values w ((name, env) ∷ environments) =
      let rest = missing_values w environments in
      if files.not_exist (files.join (root_dir ∷ env.values ∷ [])) w
      then (name, env.values) ∷ rest
      else rest

  -- ValidateIntegrity
  unfoldable pub validate_integrity : W → Result ContextError (List (String × String))
  unfolding load_manifest missing_values
  validate_integrity w = elim (load_manifest w) [
    | err e ↦ err e
    | ok manifest ↦ elim manifest.environments [
      | none ↦ ok []
      | some environments ↦ ok (missing_values w environments)
    ]
  ]
