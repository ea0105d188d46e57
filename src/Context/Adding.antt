-- ===== src/Context/Adding.antt =====
-- Adding an environment.
use yby_cli.Prelude.Result.{ok, Result-cases}
use yby_cli.Context.{
  nil_map_assignment, store_environment, environment_exists, values_not_written, write_values,
  add_environment, Environment, ContextError, defined, load_manifest, save_manifest,
  EnvironmentsManifest, Files,
}
use yby_cli.Prelude.{
  sym, lookup-insert, insert, [], ◌∷◌, cat, Bool-cases, eq_String, ◌∙◌, ap, Option-cases, ◌==◌,
  if◌then◌else◌, none, subst, inl, inr, ◌⊎◌, some, refl, false, ◌≡◌, String,
}
use yby_cli.Context.Laws.{saving_cases, IsReliable}

module _ {W B : Type 0} (files : Files W B) (root_dir : String) where
  -- The file of values is there once it has been written or found.
  write_values-cases :
      (name values_file content : String) (w : W)
      → IsReliable files root_dir
      → ((e : ContextError) × ((write_values files root_dir name values_file content w).0 ≡ some e))
        ⊎ (((write_values files root_dir name values_file content w).0 ≡ none)
            × (files.not_exist
                  (files.join (root_dir ∷ values_file ∷ []))
                  (write_values files root_dir name values_file content w).1
                ≡ false))
  unfolding write_values
  write_values-cases name values_file content w reliable =
      let path = files.join (root_dir ∷ values_file ∷ []) in
      let text =
        if content == "" then cat ("# Values for " ∷ name ∷ " environment\n" ∷ []) else content in
      elim (Bool-cases (files.not_exist path w)) [
        | inr there ↦ inr (rw (there, write_values) (refl, there))
        | inl gone ↦ elim (Result-cases (files.write_file path (files.bytes text) w).0) [
          | inr (problem, n) ↦ inl (values_not_written problem, rw (gone, n, write_values) refl)
          | inl (d, n) ↦
              let kept = reliable.exists-write path (files.bytes text) w d n in
              inr (rw (gone, n, write_values) refl, rw (gone, n, kept, write_values) refl)
        ]
      ]

  -- What storing an environment leaves.
  abbrev Stored : String → Environment → EnvironmentsManifest → W → W → Type 0
  Stored name env manifest w u =
      (back : EnvironmentsManifest) × (load_manifest files root_dir u ≡ ok back)
      × ((other : String)
          → defined other back.environments
            ≡ (if name == other then some env else defined other manifest.environments))
      × (back.current ≡ manifest.current)
      × ((other : String) → files.not_exist other w ≡ false → files.not_exist other u ≡ false)

  storing_cases :
      (name : String) (env : Environment) (manifest : EnvironmentsManifest) (w : W)
      → IsReliable files root_dir
      → ((e : ContextError) × ((store_environment files root_dir name env manifest w).0 ≡ some e))
        ⊎ Stored name env manifest w (store_environment files root_dir name env manifest w).1
  unfolding store_environment defined
  storing_cases name env manifest w reliable = elim (Option-cases manifest.environments) [
    | inl nil ↦ inl (nil_map_assignment, rw (nil, store_environment) refl)
    | inr (environments, m) ↦
        let stored : EnvironmentsManifest = record manifest {
          environments = some (insert name env environments);
        } in
        let saving = save_manifest files root_dir stored w in
        let same : store_environment files root_dir name env manifest w ≡ saving =
          rw (m, store_environment) refl in
        elim (saving_cases files root_dir stored w reliable) [
          | inl (problem, e) ↦ inl (problem, ap (λ x. x.0) same ∙ e)
          | inr (back, loaded, current, entries, override, kept) ↦
              let there : Stored name env manifest w saving.1 = (
                back,
                loaded,
                λ other.
                    entries other
                    ∙ lookup-insert name other env environments
                    ∙ ap (λ o. if name == other then some env else defined other o) (sym m),
                current,
                kept,
              ) in
              inr (subst (λ u. Stored name env manifest w u) (ap (λ x. x.1) (sym same)) there)
        ]
  ]

  -- With reliable files, once `AddEnvironment` has succeeded, the manifest has the new environment under its name, with its
  -- file of values, which is there; it had none under the name before, every other name has what it
  -- had, and the current one is the same.
  pub added_environment :
      (name : String) (env : Environment) (content : String) (w : W)
      → IsReliable files root_dir
      → (add_environment files root_dir name env content w).0 ≡ none
      → let u = (add_environment files root_dir name env content w).1 in
        let values_file = cat ("config/values-" ∷ name ∷ ".yaml" ∷ []) in
        let added = record env { values = values_file } in
        (manifest : EnvironmentsManifest) × (back : EnvironmentsManifest) × (load_manifest files
            root_dir w
          ≡ ok manifest)
        × (load_manifest files root_dir u ≡ ok back)
        × (defined name manifest.environments ≡ none)
        × ((other : String)
            → defined other back.environments
              ≡ (if name == other then some added else defined other manifest.environments))
        × (back.current ≡ manifest.current)
        × (files.not_exist (files.join (root_dir ∷ values_file ∷ [])) u ≡ false)
  unfolding add_environment
  added_environment name env content w reliable done =
      let values_file = cat ("config/values-" ∷ name ∷ ".yaml" ∷ []) in
      let added : Environment = record env { values = values_file } in
      let adding = add_environment files root_dir name env content w in
      let v = (write_values files root_dir name values_file content w).1 in
      elim (Result-cases (load_manifest files root_dir w)) [
        | inr (problem, l) ↦
            let bad : adding.0 ≡ some problem = rw (l, add_environment) refl in absurd (cc)
        | inl (manifest, l) ↦ elim (Option-cases (defined name manifest.environments)) [
          | inr (old, n) ↦
              let bad : adding.0 ≡ some (environment_exists name) =
                rw (l, n, add_environment) refl in
              absurd (cc)
          | inl n ↦ elim (write_values-cases name values_file content w reliable) [
            | inl (problem, e) ↦
                let bad : adding.0 ≡ some problem = rw (l, n, e, add_environment) refl in
                absurd (cc)
            | inr (written, there) ↦
                let same : adding ≡ store_environment files root_dir name added manifest v =
                  rw (l, n, written, add_environment) refl in
                elim (storing_cases name added manifest v reliable) [
                  | inl (problem, e) ↦ let bad = ap (λ x. x.0) same ∙ e in absurd (cc)
                  | inr (back, loaded, entries, current, kept) ↦ (
                    manifest,
                    back,
                    l,
                    ap (λ x. load_manifest files root_dir x.1) same ∙ loaded,
                    n,
                    entries,
                    current,
                    ap (λ x. files.not_exist (files.join (root_dir ∷ values_file ∷ [])) x.1) same
                        ∙ kept (files.join (root_dir ∷ values_file ∷ [])) there,
                  )
                ]
          ]
        ]
      ]
