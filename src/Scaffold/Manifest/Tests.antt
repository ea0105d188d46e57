-- ===== src/Scaffold/Manifest/Tests.antt =====
-- A project that is saved and loaded again.
use yby_cli.Prelude.Result.{Result, ok, err}
use yby_cli.Scaffold.Manifest.{
  manifest_to_context, load_project_manifest, ProjectManifest, no_context, Storage,
  BlueprintContext, merge_context_defaults, save_project_manifest,
}
use yby_cli.Prelude.{
  Dict, eq_String, [], ◌∷◌, String, some, ◌≡◌, true, ◌+◌, refl, ℕ, none, sym, Option,
}
use yby_cli.Scaffold.Manifest.Laws.{saved_decisions, decisions, IsReliable, hash_at}

-- the file, if it is there, and how often the disk was written
abbrev Store : Type 0
Store = Option ProjectManifest × ℕ

abbrev stored_page : Option ProjectManifest → Result String ProjectManifest
stored_page none = err "no file"
stored_page (some m) = ok m

abbrev one_file : Storage Store ProjectManifest
one_file = record {
  join = λ parts. "project.yaml";
  dir = λ path. ".yby";
  now = λ w. "2026-01-01T00:00:00Z";
  mkdir_all = λ path w. (ok tt, (w.0, w.1 + 1));
  read_file = λ path w. stored_page w.0;
  write_file = λ path m w. (ok tt, (some m, w.1 + 1));
  marshal = λ m. ok m;
  unmarshal = λ m. ok m;
}

one_file-IsReliable : IsReliable one_file
one_file-IsReliable = record {
  read-write = λ path b w d h. refl;
  unmarshal-marshal = λ m b h. (m.spec.file_hashes, sym h, λ key. refl);
}

abbrev shop_context : BlueprintContext ℕ ℕ
shop_context = record no_context {
  project_name = "shop";
  topology = "standard";
  workflow_pattern = "gitflow";
  enable_ci = true;
  git_branch = "main";
  environments = "prod" ∷ [];
}

abbrev shop_hashes : Option (Dict String String)
shop_hashes = some (("Makefile", "c0ffee") ∷ [])

saved_decisions_example :
    let u = (save_project_manifest one_file "shop" shop_context shop_hashes (none, 0)).1 in
    (manifest : ProjectManifest) × (load_project_manifest one_file "shop" u ≡ ok manifest)
    × (merge_context_defaults (no_context {O = ℕ} {D = ℕ}) (manifest_to_context manifest)
        ≡ decisions shop_context)
    × ((key : String) → hash_at key manifest.spec.file_hashes ≡ hash_at key shop_hashes)
unfolding save_project_manifest
saved_decisions_example =
    saved_decisions one_file "shop" shop_context shop_hashes (none, 0) tt one_file-IsReliable refl

-- A flag that the new context leaves off is on again where it was on.
flag_stays_on : (merge_context_defaults no_context shop_context).enable_ci ≡ true
unfolding merge_context_defaults
flag_stays_on = refl
