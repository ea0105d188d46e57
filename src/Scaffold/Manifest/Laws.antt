-- ===== src/Scaffold/Manifest/Laws.antt =====
-- What is kept of the decisions, and how they are taken up again.
use yby_cli.Prelude.Result.{ok, err, Result-cases}
use yby_cli.Scaffold.Manifest.{
  or_enabled, manifest_not_saved, directory_not_created, manifest_not_serialized, project_path,
  manifest_of, manifest_to_context, merge_context_defaults, ProjectManifest, parse_project,
  load_project_manifest, Finished, save_project_manifest, no_context, BlueprintContext, Storage,
}
use yby_cli.Prelude.{
  lookup, eq_String, some, none, true, false, Bool, refl, ◌∙◌, ap, inl, inr, Dict, Option, ◌≡◌,
  String,
}

-- The decisions of a context that the manifest has fields for.
abbrev pub decisions : {O D : Type 0} → BlueprintContext O D → BlueprintContext O D
decisions ctx = record no_context {
  project_name = ctx.project_name;
  topology = ctx.topology;
  workflow_pattern = ctx.workflow_pattern;
  secrets_strategy = ctx.secrets_strategy;
  enable_kepler = ctx.enable_kepler;
  enable_minio = ctx.enable_minio;
  enable_keda = ctx.enable_keda;
  enable_metrics_server = ctx.enable_metrics_server;
  enable_dev_container = ctx.enable_dev_container;
  enable_ci = ctx.enable_ci;
  enable_discovery = ctx.enable_discovery;
  git_repo = ctx.git_repo;
  git_branch = ctx.git_branch;
  domain = ctx.domain;
  email = ctx.email;
}

kept_flag : (b : Bool) → or_enabled false b ≡ b
kept_flag true = refl
kept_flag false = refl

merged_decisions :
    {O D : Type 0} (now : String) (ctx : BlueprintContext O D)
    (file_hashes : Option (Dict String String))
    → merge_context_defaults no_context (manifest_to_context (manifest_of now ctx file_hashes))
      ≡ decisions ctx
unfolding merge_context_defaults manifest_to_context manifest_of
merged_decisions now ctx file_hashes =
    rw
      (
        kept_flag ctx.enable_kepler,
        kept_flag ctx.enable_minio,
        kept_flag ctx.enable_keda,
        kept_flag ctx.enable_metrics_server,
        kept_flag ctx.enable_dev_container,
        kept_flag ctx.enable_ci,
        kept_flag ctx.enable_discovery,
      )
      refl

-- The hash of a file; a nil map has none.
abbrev pub hash_at : String → Option (Dict String String) → Option String
hash_at key none = none
hash_at key (some hashes) = lookup key hashes

module _ {W B : Type 0} (storage : Storage W B) where
  -- What the files and YAML promise: what is written is read again, with the same hash for each file;
  -- `fileHashes` has omitempty, and the map of hashes may come back as nil where it was empty.
  pub record IsReliable : Type 0 where
    pub read-write :
        (path : String) (b : B) (w : W) (d : Finished)
        → (storage.write_file path b w).0 ≡ ok d
        → storage.read_file path (storage.write_file path b w).1 ≡ ok b
    pub unmarshal-marshal :
        (m : ProjectManifest) (b : B)
        → storage.marshal m ≡ ok b
        → (hashes : Option (Dict String String)) × (storage.unmarshal b
            ≡ ok (record m { spec = record m.spec { file_hashes = hashes } }))
          × ((key : String) → hash_at key hashes ≡ hash_at key m.spec.file_hashes)

  -- With reliable files, once `SaveProjectManifest` has succeeded, `LoadProjectManifest` yields a
  -- manifest whose context, merged into an empty one, is what the saved context had decided, and
  -- which has the saved hash, or none, for every file.
  pub saved_decisions :
      {O D : Type 0} (target_dir : String) (ctx : BlueprintContext O D)
      (file_hashes : Option (Dict String String)) (w : W) (d : Finished)
      → IsReliable
      → (save_project_manifest storage target_dir ctx file_hashes w).0 ≡ ok d
      → let u = (save_project_manifest storage target_dir ctx file_hashes w).1 in
        (manifest : ProjectManifest) × (load_project_manifest storage target_dir u ≡ ok manifest)
        × (merge_context_defaults (no_context {O = O} {D = D}) (manifest_to_context manifest)
            ≡ decisions ctx)
        × ((key : String) → hash_at key manifest.spec.file_hashes ≡ hash_at key file_hashes)
  unfolding save_project_manifest load_project_manifest parse_project merge_context_defaults
      manifest_to_context manifest_of
  saved_decisions target_dir ctx file_hashes w d reliable done =
      let path = project_path storage target_dir in
      let made = storage.mkdir_all (storage.dir path) w in
      let m = manifest_of (storage.now w) ctx file_hashes in
      let saving = save_project_manifest storage target_dir ctx file_hashes w in
      elim (Result-cases (storage.marshal m)) [
        | inr (problem, j) ↦
            let bad : saving.0 ≡ err (manifest_not_serialized problem) =
              rw (j, save_project_manifest) refl in
            absurd (cc)
        | inl (bytes, j) ↦ elim (Result-cases made.0) [
          | inr (problem, k) ↦
              let bad : saving.0 ≡ err (directory_not_created problem) =
                rw (j, k, save_project_manifest) refl in
              absurd (cc)
          | inl (t, k) ↦ elim (Result-cases (storage.write_file path bytes made.1).0) [
            | inr (problem, n) ↦
                let bad : saving.0 ≡ err (manifest_not_saved problem) =
                  rw (j, k, n, save_project_manifest) refl in
                absurd (cc)
            | inl (t2, n) ↦
                let same : saving.1 ≡ (storage.write_file path bytes made.1).1 =
                  rw (j, k, n, save_project_manifest) refl in
                let (hashes, parsed, kept) = reliable.unmarshal-marshal m bytes j in
                (
                  record m { spec = record m.spec { file_hashes = hashes } },
                  ap (load_project_manifest storage target_dir) same
                      ∙ rw
                          (
                            reliable.read-write path bytes made.1 t2 n,
                            parsed,
                            load_project_manifest,
                            parse_project,
                          )
                          refl,
                  merged_decisions (storage.now w) ctx hashes,
                  kept,
                )
          ]
        ]
      ]
