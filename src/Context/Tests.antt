-- ===== src/Context/Tests.antt =====
-- A project with two environments, and the theorems applied to it.
use yby_cli.Prelude.Result.{Result, ok, err}
use yby_cli.Prelude.Exec.{Exec}
use yby_cli.Prelude.{
  cat, lookup, inr, inl, refl, Bool-cases, [], false, eq_String, equal_refl, ◌∷◌, ◌==◌, ◌≡◌, ap,
  some, is_none, none, List, if◌then◌else◌, String, Option,
}
use yby_cli.Context.{
  nil_map_assignment, get_current, store_environment, save_manifest, write_values, defined,
  parse_manifest, load_manifest, Written, EnvironmentsManifest, set_current, add_environment,
  Environment, Files,
}
use yby_cli.Context.Laws.{get_current-set_current, IsReliable}
use yby_cli.Context.Adding.{added_environment}

pub data Page : Type 0 where
  document : EnvironmentsManifest → Page
  plain : String → Page

abbrev Disk : Type 0
Disk = String → Option Page

abbrev page : Option Page → Result String Page
page none = err "no file"
page (some p) = ok p

abbrev decode_page : Page → Result String EnvironmentsManifest
decode_page (document m) = ok m
decode_page (plain s) = err "not YAML"

abbrev joined : List String → String
joined [] = ""
joined (part ∷ []) = part
joined (part ∷ other ∷ parts) = joined (other ∷ parts)

abbrev write_page : String → Page → Exec Disk String Written
write_page path p disk = (ok tt, λ q. if path == q then some p else disk q)

abbrev disk_files : Files Disk Page
disk_files = record {
  join = joined;
  not_exist = λ path disk. is_none (disk path);
  read_file = λ path disk. page (disk path);
  write_file = write_page;
  getenv = λ name disk. "";
  unmarshal = decode_page;
  marshal = λ m. ok (document m);
  bytes = λ s. plain s;
}

written_page : (path : String) (p : Page) (disk : Disk) → (write_page path p disk).1 path ≡ some p
written_page path p disk = ap (λ b. if b then some p else disk path) (equal_refl path)

kept_page :
    (path other : String) (p : Page) (disk : Disk)
    → is_none (disk other) ≡ false
    → is_none ((write_page path p disk).1 other) ≡ false
kept_page path other p disk there = elim (Bool-cases (path == other)) [
  | inl h ↦ rw h refl
  | inr h ↦ rw h there
]

decoded_page :
    (m : EnvironmentsManifest) (p : Page) → disk_files.marshal m ≡ ok p → decode_page p ≡ ok m
decoded_page m p h = let same : p ≡ document m = cc in ap decode_page same

disk-IsReliable : IsReliable disk_files "shop"
disk-IsReliable = record {
  read-write = λ path b w d h. ap page (written_page path b w);
  exists-write = λ path b w d h. ap is_none (written_page path b w);
  keeps-write = λ path other b w there. kept_page path other b w there;
  getenv-write = λ path name b w. refl;
  unmarshal-marshal = λ m b h. (m, decoded_page m b h, refl, λ name. refl);
}

abbrev local : Environment
local = record {
  type = "local";
  description = "laptop";
  values = "config/values-local.yaml";
  url = "";
  kube_config = "";
  kube_context = "k3d";
  namespace = "default";
  cloud = none;
}

abbrev prod : Environment
prod = record local { type = "remote"; description = "cluster"; values = "config/values-prod.yaml" }

abbrev two_environments : EnvironmentsManifest
two_environments = record {
  current = "local";
  environments = some (("local", local) ∷ ("prod", prod) ∷ []);
}

abbrev shop : Disk
shop path = if path == "environments.yaml" then some (document two_environments) else none

get_current-set_current_example :
    (manifest : EnvironmentsManifest) × (found : Environment) × (load_manifest disk_files "shop"
        shop
      ≡ ok manifest)
    × (defined "prod" manifest.environments ≡ some found)
    × (get_current disk_files "shop" (set_current disk_files "shop" "prod" shop).1
        ≡ ok ("prod", found))
unfolding set_current load_manifest parse_manifest defined save_manifest lookup
get_current-set_current_example =
    get_current-set_current disk_files "shop" "prod" shop disk-IsReliable refl

added_environment_example :
    let u = (add_environment disk_files "shop" "qa" local "" shop).1 in
    let values_file = cat ("config/values-" ∷ "qa" ∷ ".yaml" ∷ []) in
    let added = record local { values = values_file } in
    (manifest : EnvironmentsManifest) × (back : EnvironmentsManifest) × (load_manifest disk_files
        "shop" shop
      ≡ ok manifest)
    × (load_manifest disk_files "shop" u ≡ ok back)
    × (defined "qa" manifest.environments ≡ none)
    × ((other : String)
        → defined other back.environments
          ≡ (if "qa" == other then some added else defined other manifest.environments))
    × (back.current ≡ manifest.current)
    × (disk_files.not_exist (disk_files.join ("shop" ∷ values_file ∷ [])) u ≡ false)
unfolding add_environment load_manifest parse_manifest defined save_manifest lookup write_values
    store_environment cat
added_environment_example =
    added_environment disk_files "shop" "qa" local "" shop disk-IsReliable refl

-- A manifest with no entry under `environments`: the new environment is assigned to a nil map, after
-- its file of values has been written.
abbrev bare : Disk
bare path =
    if path == "environments.yaml"
    then some (document (record { current = ""; environments = none }))
    else none

bare_panics : (add_environment disk_files "shop" "qa" local "" bare).0 ≡ some nil_map_assignment
unfolding add_environment load_manifest parse_manifest defined write_values store_environment cat
bare_panics = refl
