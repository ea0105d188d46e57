-- ===== src/Plugin/Trust.antt =====
-- pkg/plugin/trust.go: the registry of the plugins that the user trusts, a JSON file that has the
-- SHA-256 of each under the last element of its path. Each function holds the mutex. The operating
-- system, JSON and SHA-256 are parameters, over a world `W` and contents `B`.
pub mod Laws
pub mod Tests
use yby_cli.Prelude.Result.{Result, ok, err}
use yby_cli.Prelude.Exec.{Exec, raise, continue, ◌>>=◌}
use yby_cli.Prelude.{
  ◌==◌, remove, false, eq_String, none, has_key, not, lookup, Option, Bool, List, some, insert,
  if◌then◌else◌, ◌∷◌, String, [], Dict,
}

pub record TrustedPluginEntry (T : Type 0) : Type 0 where
  pub sha256 : String
  pub trusted_at : T

abbrev pub Registry : Type 0 → Type 0
Registry T = Dict String (TrustedPluginEntry T)

-- How a file cannot be read: `os.IsNotExist` tells the two apart.
pub data ReadError : Type 0 where
  not_exist : ReadError
  unreadable : String → ReadError

pub data TrustError : Type 0 where
  no_home : String → TrustError
  registry_unreadable : String → TrustError
  registry_malformed : String → TrustError
  no_directory : String → TrustError
  not_serialized : String → TrustError
  not_saved : String → TrustError
  not_opened : String → TrustError
  not_copied : String → TrustError
  not_registered : String → TrustError

abbrev pub Nothing : Type 0
Nothing = Unit

-- What the code calls: reading leaves the world as it is. `unmarshal` yields none for a nil map.
pub record Platform (W B T : Type 0) : Type 0 where
  pub user_home_dir : W → Result String String
  pub join : List String → String
  pub dir : String → String
  pub base : String → String
  pub read_file : String → W → Result ReadError B
  pub open_file : String → W → Result String Nothing
  pub copy_all : String → W → Result String B
  pub mkdir_all : String → Exec W String Nothing
  pub write_file : String → B → Exec W String Nothing
  pub marshal : Registry T → Result String B
  pub unmarshal : B → Result String (Option (Registry T))
  pub sha256_hex : B → String
  pub now : W → T

-- `fmt.Errorf("...: %w", err)`
abbrev pub failing : {E A : Type 0} → (E → TrustError) → Result E A → Result TrustError A
failing wrap (ok a) = ok a
failing wrap (err e) = err (wrap e)

module _ {W B T : Type 0} (os : Platform W B T) where
  -- defaultTrustRegistryPath
  unfoldable pub trust_registry_path : W → Result TrustError String
  trust_registry_path w = elim (os.user_home_dir w) [
    | err e ↦ err (no_home e)
    | ok home ↦ ok (os.join (home ∷ ".yby" ∷ "plugins" ∷ "trusted.json" ∷ []))
  ]

  -- the part of loadTrustRegistry after the file is read
  unfoldable pub parse_registry : Result ReadError B → Result TrustError (Registry T)
  parse_registry (err not_exist) = ok []
  parse_registry (err (unreadable e)) = err (registry_unreadable e)
  parse_registry (ok bytes) = elim (os.unmarshal bytes) [
    | err e ↦ err (registry_malformed e)
    | ok none ↦ ok []
    | ok (some plugins) ↦ ok plugins
  ]

  -- loadTrustRegistry
  unfoldable pub load_trust_registry : W → Result TrustError (Registry T)
  unfolding trust_registry_path parse_registry
  load_trust_registry w = elim (trust_registry_path w) [
    | err e ↦ err e
    | ok path ↦ parse_registry (os.read_file path w)
  ]

  -- saveTrustRegistry
  unfoldable pub save_trust_registry : Registry T → Exec W TrustError Nothing
  unfolding trust_registry_path
  save_trust_registry registry w = elim (trust_registry_path w) [
    | err e ↦ (err e, w)
    | ok path ↦
        let (made, v) = os.mkdir_all (os.dir path) w in
        elim made [
          | err e ↦ (err (no_directory e), v)
          | ok d ↦ elim (os.marshal registry) [
            | err e ↦ (err (not_serialized e), v)
            | ok bytes ↦
                let (written, u) = os.write_file path bytes v in (failing not_saved written, u)
          ]
        ]
  ]

  -- computeFileSHA256
  unfoldable pub hash_of : Result String Nothing → Result String B → Result TrustError String
  hash_of (err e) copied = err (not_opened e)
  hash_of (ok opened) (err e) = err (not_copied e)
  hash_of (ok opened) (ok bytes) = ok (os.sha256_hex bytes)

  unfoldable pub compute_file_sha256 : String → W → Result TrustError String
  unfolding hash_of
  compute_file_sha256 path w = hash_of (os.open_file path w) (os.copy_all path w)

  -- TrustPlugin
  unfoldable pub trust_plugin : String → Exec W TrustError Nothing
  unfolding compute_file_sha256 load_trust_registry save_trust_registry
  trust_plugin binary_path w = elim (compute_file_sha256 binary_path w) [
    | err e ↦ (err e, w)
    | ok hash ↦ elim (load_trust_registry w) [
      | err e ↦ (err e, w)
      | ok registry ↦
          let entry : TrustedPluginEntry T = record { sha256 = hash; trusted_at = os.now w } in
          save_trust_registry (insert (os.base binary_path) entry registry) w
    ]
  ]

  -- IsTrusted
  unfoldable pub is_trusted : String → W → Result TrustError Bool
  unfolding compute_file_sha256 load_trust_registry
  is_trusted binary_path w = elim (load_trust_registry w) [
    | err e ↦ err e
    | ok registry ↦ elim (lookup (os.base binary_path) registry) [
      | none ↦ ok false
      | some entry ↦ elim (compute_file_sha256 binary_path w) [
        | err e ↦ err e
        | ok current_hash ↦ ok (current_hash == entry.sha256)
      ]
    ]
  ]

  -- UntrustPlugin
  unfoldable pub untrust_plugin : String → Exec W TrustError Nothing
  unfolding load_trust_registry save_trust_registry
  untrust_plugin name w = elim (load_trust_registry w) [
    | err e ↦ (err e, w)
    | ok registry ↦
        if not (has_key name registry)
        then (err (not_registered name), w)
        else save_trust_registry (remove name registry) w
  ]
