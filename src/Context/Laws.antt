-- ===== src/Context/Laws.antt =====
-- Changing the environments and reading them again.
use yby_cli.Prelude.Result.{ok, Result-cases}
use yby_cli.Context.{
  chosen, environment_unknown, Environment, get_current, set_current, manifest_path,
  manifest_not_written, ContextError, defined, parse_manifest, load_manifest, save_manifest,
  EnvironmentsManifest, Written, current_of, Files,
}
use yby_cli.Prelude.{
  Bool-cases, eq_String, ◌∙◌, ap, Option-cases, ◌==◌, not, if◌then◌else◌, none, subst, inl, inr,
  ◌⊎◌, some, refl, false, ◌≡◌, String,
}

module _ {W B : Type 0} (files : Files W B) (root_dir : String) where
  -- What the files and YAML promise: what is written is there and is read again, a write deletes no
  -- file and changes no variable of the process, and a manifest comes back with the same
  -- environment and the same entries.
  pub record IsReliable : Type 0 where
    pub read-write :
        (path : String) (b : B) (w : W) (d : Written)
        → (files.write_file path b w).0 ≡ ok d
        → files.read_file path (files.write_file path b w).1 ≡ ok b
    pub exists-write :
        (path : String) (b : B) (w : W) (d : Written)
        → (files.write_file path b w).0 ≡ ok d
        → files.not_exist path (files.write_file path b w).1 ≡ false
    pub keeps-write :
        (path other : String) (b : B) (w : W)
        → files.not_exist other w ≡ false
        → files.not_exist other (files.write_file path b w).1 ≡ false
    pub getenv-write :
        (path name : String) (b : B) (w : W)
        → files.getenv name (files.write_file path b w).1 ≡ files.getenv name w
    pub unmarshal-marshal :
        (manifest : EnvironmentsManifest) (b : B)
        → files.marshal manifest ≡ ok b
        → (back : EnvironmentsManifest) × (files.unmarshal b ≡ ok back)
          × (back.current ≡ manifest.current)
          × ((name : String) → defined name back.environments ≡ defined name manifest.environments)

  -- What a saved manifest leaves.
  abbrev Saved : EnvironmentsManifest → W → W → Type 0
  Saved manifest w u =
      (back : EnvironmentsManifest) × (load_manifest files root_dir u ≡ ok back)
      × (back.current ≡ manifest.current)
      × ((name : String) → defined name back.environments ≡ defined name manifest.environments)
      × (files.getenv "YBY_ENV" u ≡ files.getenv "YBY_ENV" w)
      × ((other : String) → files.not_exist other w ≡ false → files.not_exist other u ≡ false)

  pub saving_cases :
      (manifest : EnvironmentsManifest) (w : W)
      → IsReliable
      → ((e : ContextError) × ((save_manifest files root_dir manifest w).0 ≡ some e))
        ⊎ Saved manifest w (save_manifest files root_dir manifest w).1
  unfolding save_manifest load_manifest parse_manifest
  saving_cases manifest w reliable = elim (Result-cases (files.marshal manifest)) [
    | inr (problem, j) ↦ inl (manifest_not_written problem, rw (j, save_manifest) refl)
    | inl (b, j) ↦
        let path = manifest_path files root_dir in
        let done = files.write_file path b w in
        elim (Result-cases done.0) [
          | inr (problem, n) ↦ inl (manifest_not_written problem, rw (j, n, save_manifest) refl)
          | inl (d, n) ↦
              let (back, read_back, same_current, same) = reliable.unmarshal-marshal manifest b j in
              let kept : Saved manifest w done.1 = (
                back,
                rw
                    (
                      reliable.exists-write path b w d n,
                      reliable.read-write path b w d n,
                      read_back,
                      load_manifest,
                      parse_manifest,
                    )
                    refl,
                same_current,
                same,
                reliable.getenv-write path "YBY_ENV" b w,
                λ other there. reliable.keeps-write path other b w there,
              ) in
              inr (subst (λ u. Saved manifest w u) (rw (j, n, save_manifest) refl) kept)
        ]
  ]

  -- The choice of the current environment depends on the current name and the entries only.
  current_of-same :
      (override : String) (a b : EnvironmentsManifest)
      → a.current ≡ b.current
      → ((name : String) → defined name a.environments ≡ defined name b.environments)
      → current_of files root_dir override a ≡ current_of files root_dir override b
  unfolding current_of
  current_of-same override a b current same =
      rw (same override, same a.current, current, current_of) refl

  -- The choice, once a name has been set.
  named :
      (name : String) (found : Environment) (manifest : EnvironmentsManifest) (w : W)
      → load_manifest files root_dir w ≡ ok manifest
      → defined name manifest.environments ≡ some found
      → current_of files root_dir (files.getenv "YBY_ENV" w) (record manifest { current = name })
        ≡ (if not (files.getenv "YBY_ENV" w == "")
            then get_current files root_dir w
            else ok (name, found))
  unfolding current_of get_current chosen
  named name found manifest w l f = elim (Bool-cases (files.getenv "YBY_ENV" w == "")) [
    | inl h ↦ rw (h, f, current_of, chosen) refl
    | inr h ↦ rw (h, l, current_of, get_current, h) refl
  ]

  -- With reliable files, once `SetCurrent` has succeeded, `GetCurrent` yields the environment that was named, with the
  -- fields that it had, unless the variable YBY_ENV is set: then it yields what it did before.
  pub get_current-set_current :
      (name : String) (w : W)
      → IsReliable
      → (set_current files root_dir name w).0 ≡ none
      → (manifest : EnvironmentsManifest) × (found : Environment) × (load_manifest files root_dir w
          ≡ ok manifest)
        × (defined name manifest.environments ≡ some found)
        × (get_current files root_dir (set_current files root_dir name w).1 ≡ (
            if not (files.getenv "YBY_ENV" w == "")
            then get_current files root_dir w
            else ok (name, found)))
  unfolding set_current get_current
  get_current-set_current name w reliable done =
      elim (Result-cases (load_manifest files root_dir w)) [
        | inr (problem, l) ↦
            let bad : (set_current files root_dir name w).0 ≡ some problem =
              rw (l, set_current) refl in
            absurd (cc)
        | inl (manifest, l) ↦ elim (Option-cases (defined name manifest.environments)) [
          | inl n ↦
              let bad : (set_current files root_dir name w).0 ≡ some (environment_unknown name) =
                rw (l, n, set_current) refl in
              absurd (cc)
          | inr (found, f) ↦
              let changed : EnvironmentsManifest = record manifest { current = name } in
              let saving = save_manifest files root_dir changed w in
              let same : set_current files root_dir name w ≡ saving = rw (l, f, set_current) refl in
              elim (saving_cases changed w reliable) [
                | inl (problem, e) ↦ let bad = ap (λ x. x.0) same ∙ e in absurd (cc)
                | inr (back, loaded, current, entries, env, kept) ↦ (
                  manifest,
                  found,
                  l,
                  f,
                  ap (λ x. get_current files root_dir x.1) same
                      ∙ rw
                          (
                            loaded,
                            env,
                            current_of-same (files.getenv "YBY_ENV" w) back changed current entries,
                            get_current,
                          )
                          (named name found manifest w l f),
                )
              ]
        ]
      ]
