-- ===== src/Plugin/Trust/Laws.antt =====
-- Trusting and checking a plugin.
use yby_cli.Prelude.Result.{ok, err, Result-cases}
use yby_cli.Plugin.Trust.{
  TrustedPluginEntry, is_trusted, trust_plugin, not_saved, not_serialized, no_directory, Nothing,
  TrustError, parse_registry, save_trust_registry, trust_registry_path, Registry,
  compute_file_sha256, load_trust_registry, Platform,
}
use yby_cli.Prelude.{
  Option, none, equal_refl, if◌then◌else◌, lookup-insert, ◌==◌, insert, true, subst, inl, eq_String,
  ap, inr, some, ◌∙◌, ◌⊎◌, lookup, refl, ◌≡◌, String,
}

-- The hash of an entry.
abbrev pub sha_of : {T : Type 0} → Option (TrustedPluginEntry T) → Option String
sha_of none = none
sha_of (some entry) = some entry.sha256

module _ {W B T : Type 0} (os : Platform W B T) where
  -- What the process and JSON promise: the process keeps its home, and a registry that was marshalled
  -- is parsed as one with the same names and hashes. The times may come back as others: time.Now has
  -- a monotonic reading that JSON does not have.
  pub record IsReliable : Type 0 where
    pub home-mkdir :
        (path : String) (w : W) → os.user_home_dir (os.mkdir_all path w).1 ≡ os.user_home_dir w
    pub home-write :
        (path : String) (bytes : B) (w : W)
        → os.user_home_dir (os.write_file path bytes w).1 ≡ os.user_home_dir w
    pub unmarshal-marshal :
        (plugins : Registry T) (bytes : B)
        → os.marshal plugins ≡ ok bytes
        → (back : Registry T) × (os.unmarshal bytes ≡ ok (some back))
          × ((key : String) → sha_of (lookup key back) ≡ sha_of (lookup key plugins))

  -- In this world the registry at `path` is an ordinary file and the plugin is another: what is
  -- written to the registry is read again, and neither making its directory nor writing it changes
  -- what opening or reading the plugin gives.
  pub record StandsApart (path binary : String) (w : W) : Type 0 where
    pub read-write :
        (bytes : B) (d : Nothing)
        → (let v = (os.mkdir_all (os.dir path) w).1 in (os.write_file path bytes v).0 ≡ ok d)
        → let v = (os.mkdir_all (os.dir path) w).1 in
          os.read_file path (os.write_file path bytes v).1 ≡ ok bytes
    pub open-mkdir : os.open_file binary (os.mkdir_all (os.dir path) w).1 ≡ os.open_file binary w
    pub copy-mkdir : os.copy_all binary (os.mkdir_all (os.dir path) w).1 ≡ os.copy_all binary w
    pub open-write :
        (bytes : B)
        → let v = (os.mkdir_all (os.dir path) w).1 in
          os.open_file binary (os.write_file path bytes v).1 ≡ os.open_file binary v
    pub copy-write :
        (bytes : B)
        → let v = (os.mkdir_all (os.dir path) w).1 in
          os.copy_all binary (os.write_file path bytes v).1 ≡ os.copy_all binary v

  -- What a saved registry leaves: the registry that is loaded has its names and hashes, and the plugin
  -- has its hash.
  abbrev Kept : Registry T → String → W → W → Type 0
  Kept registry binary w u =
      (back : Registry T) × (load_trust_registry os u ≡ ok back)
      × ((key : String) → sha_of (lookup key back) ≡ sha_of (lookup key registry))
      × (compute_file_sha256 os binary u ≡ compute_file_sha256 os binary w)

  path-home :
      (u w : W)
      → os.user_home_dir u ≡ os.user_home_dir w
      → trust_registry_path os u ≡ trust_registry_path os w
  unfolding trust_registry_path
  path-home u w same = rw (same, trust_registry_path) refl

  hash-same :
      (file : String) (u w : W)
      → os.open_file file u ≡ os.open_file file w
      → os.copy_all file u ≡ os.copy_all file w
      → compute_file_sha256 os file u ≡ compute_file_sha256 os file w
  unfolding compute_file_sha256
  hash-same file u w opened copied = rw (opened, copied, compute_file_sha256) refl

  written-Kept :
      (registry : Registry T) (binary path : String) (w : W) (bytes : B) (d : Nothing)
      → IsReliable
      → StandsApart path binary w
      → trust_registry_path os w ≡ ok path
      → os.marshal registry ≡ ok bytes
      → (let v = (os.mkdir_all (os.dir path) w).1 in (os.write_file path bytes v).0 ≡ ok d)
      → let v = (os.mkdir_all (os.dir path) w).1 in
        Kept registry binary w (os.write_file path bytes v).1
  unfolding load_trust_registry parse_registry
  written-Kept registry binary path w bytes d reliable apart e marshaled written =
      let v = (os.mkdir_all (os.dir path) w).1 in
      let u = (os.write_file path bytes v).1 in
      let (back, read_back, same) = reliable.unmarshal-marshal registry bytes marshaled in
      let home : os.user_home_dir u ≡ os.user_home_dir w =
        reliable.home-write path bytes v ∙ reliable.home-mkdir (os.dir path) w in
      let at : trust_registry_path os u ≡ ok path = path-home u w home ∙ e in
      (
        back,
        rw (at, apart.read-write bytes d written, read_back, load_trust_registry, parse_registry)
            refl,
        same,
        hash-same binary u w (apart.open-write bytes ∙ apart.open-mkdir)
            (apart.copy-write bytes ∙ apart.copy-mkdir),
      )

  saved-cases :
      (registry : Registry T) (binary path : String) (w : W)
      → IsReliable
      → StandsApart path binary w
      → trust_registry_path os w ≡ ok path
      → ((e : TrustError) × ((save_trust_registry os registry w).0 ≡ err e))
        ⊎ Kept registry binary w (save_trust_registry os registry w).1
  unfolding save_trust_registry
  saved-cases registry binary path w reliable apart e =
      let v = (os.mkdir_all (os.dir path) w).1 in
      elim (Result-cases (os.mkdir_all (os.dir path) w).0) [
        | inr (problem, m) ↦ inl (no_directory problem, rw (e, m, save_trust_registry) refl)
        | inl (d, m) ↦ elim (Result-cases (os.marshal registry)) [
          | inr (problem, j) ↦ inl (not_serialized problem, rw (e, m, j, save_trust_registry) refl)
          | inl (bytes, j) ↦ elim (Result-cases (os.write_file path bytes v).0) [
            | inr (problem, n) ↦ inl (not_saved problem, rw (e, m, j, n, save_trust_registry) refl)
            | inl (t, n) ↦
                let kept = written-Kept registry binary path w bytes t reliable apart e j n in
                inr (
                  subst (λ u. Kept registry binary w u) (rw (e, m, j, save_trust_registry) refl)
                    kept)
          ]
        ]
      ]

  found_entry :
      (found : Option (TrustedPluginEntry T)) (hash : String)
      → sha_of found ≡ some hash
      → (entry : TrustedPluginEntry T) × (found ≡ some entry) × (entry.sha256 ≡ hash)
  found_entry none hash h = absurd (cc)
  found_entry (some entry) hash h = (entry, refl, cc)

  -- The answer about a file whose entry, under its name, is known.
  checked :
      (binary : String) (u : W) (registry : Registry T) (entry : TrustedPluginEntry T)
      (hash : String)
      → load_trust_registry os u ≡ ok registry
      → lookup (os.base binary) registry ≡ some entry
      → compute_file_sha256 os binary u ≡ ok hash
      → is_trusted os binary u ≡ ok (hash == entry.sha256)
  unfolding is_trusted
  checked binary u registry entry hash loaded found hashed =
      rw (loaded, found, hashed, is_trusted) refl

  -- Once `TrustPlugin` has succeeded on a file, `IsTrusted` answers yes for it. The process keeps its
  -- home, a registry is parsed as it was marshalled, up to its times, and the file is neither the
  -- registry nor changed when the registry is saved.
  pub is_trusted-trust_plugin :
      (binary path : String) (w : W) (d : Nothing)
      → IsReliable
      → trust_registry_path os w ≡ ok path
      → StandsApart path binary w
      → (trust_plugin os binary w).0 ≡ ok d
      → is_trusted os binary (trust_plugin os binary w).1 ≡ ok true
  unfolding trust_plugin
  is_trusted-trust_plugin binary path w d reliable at apart trusted =
      elim (Result-cases (compute_file_sha256 os binary w)) [
        | inr (problem, h) ↦
            let bad : (trust_plugin os binary w).0 ≡ err problem = rw (h, trust_plugin) refl in
            absurd (cc)
        | inl (hash, h) ↦ elim (Result-cases (load_trust_registry os w)) [
          | inr (problem, l) ↦
              let bad : (trust_plugin os binary w).0 ≡ err problem = rw (h, l, trust_plugin) refl in
              absurd (cc)
          | inl (registry, l) ↦
              let name = os.base binary in
              let entry : TrustedPluginEntry T = record { sha256 = hash; trusted_at = os.now w } in
              let saving = save_trust_registry os (insert name entry registry) w in
              let done : trust_plugin os binary w ≡ saving = rw (h, l, trust_plugin) refl in
              elim (saved-cases (insert name entry registry) binary path w reliable apart at) [
                | inl (problem, e) ↦ let bad = ap (λ x. x.0) done ∙ e in absurd (cc)
                | inr (back, loaded, same, hashed) ↦
                    let there : lookup name (insert name entry registry) ≡ some entry =
                      lookup-insert name name entry registry
                      ∙ ap (λ b. if b then some entry else lookup name registry)
                          (equal_refl name) in
                    let (kept, found, sha) =
                      found_entry (lookup name back) hash (same name ∙ ap sha_of there) in
                    ap (λ x. is_trusted os binary x.1) done
                    ∙ checked binary saving.1 back kept hash loaded found (hashed ∙ h)
                    ∙ ap (λ s. ok (hash == s)) sha
                    ∙ ap (λ b. ok b) (equal_refl hash)
              ]
        ]
      ]
