-- ===== src/Plugin/Trust/Tests.antt =====
-- A machine with one plugin, and the theorems applied to it.
use yby_cli.Prelude.Result.{Result, ok, err}
use yby_cli.Prelude.Exec.{Exec}
use yby_cli.Plugin.Trust.{
  is_trusted, save_trust_registry, parse_registry, load_trust_registry, hash_of, not_exist,
  compute_file_sha256, Nothing, Registry, trust_registry_path, trust_plugin, Platform,
}
use yby_cli.Prelude.{
  false≢true, true, inr, eq_iff, inl, refl, Bool-cases, ◌≡◌, none, eq_String, ◌≢◌, ap, ◌==◌, ℕ,
  some, Option, if◌then◌else◌, String,
}
use yby_cli.Plugin.Trust.Laws.{is_trusted-trust_plugin, IsReliable, StandsApart}

-- the contents of a file: a registry or a program
pub data Contents : Type 0 where
  table : Registry ℕ → Contents
  code : String → Contents

abbrev Machine : Type 0
Machine = String → Option Contents

abbrev present : {E A : Type 0} → E → Option A → Result E A
present e none = err e
present e (some a) = ok a

abbrev opened : Option Contents → Result String Nothing
opened none = err "no file"
opened (some c) = ok tt

abbrev write_machine : String → Contents → Exec Machine String Nothing
write_machine path c w = (ok tt, λ p. if path == p then some c else w p)

abbrev decode : Contents → Result String (Option (Registry ℕ))
decode (table r) = ok (some r)
decode (code s) = err "not JSON"

abbrev hex : Contents → String
hex (table r) = "registry"
hex (code s) = s

abbrev machine_platform : Platform Machine Contents ℕ
machine_platform = record {
  user_home_dir = λ w. ok "/home";
  join = λ parts. "registry.json";
  dir = λ path. "/home";
  base = λ path. path;
  read_file = λ path w. present not_exist (w path);
  open_file = λ path w. opened (w path);
  copy_all = λ path w. present "no file" (w path);
  mkdir_all = λ path w. (ok tt, w);
  write_file = write_machine;
  marshal = λ r. ok (table r);
  unmarshal = decode;
  sha256_hex = hex;
  now = λ w. 7;
}

written_file :
    (path file : String) (c : Contents) (w : Machine)
    → path ≢ file
    → (write_machine path c w).1 file ≡ w file
written_file path file c w apart = elim (Bool-cases (path == file)) [
  | inl h ↦ absurd (apart ((eq_iff path file).0 h))
  | inr h ↦ rw h refl
]

decoded :
    (plugins : Registry ℕ) (bytes : Contents)
    → machine_platform.marshal plugins ≡ ok bytes
    → decode bytes ≡ ok (some plugins)
decoded plugins bytes h = let same : bytes ≡ table plugins = cc in ap decode same

machine-IsReliable : IsReliable machine_platform
machine-IsReliable = record {
  home-mkdir = λ path w. refl;
  home-write = λ path bytes w. refl;
  unmarshal-marshal = λ plugins bytes h. (plugins, decoded plugins bytes h, λ key. refl);
}

-- one plugin, and no registry yet
abbrev machine : Machine
machine path = if path == "sentinel" then some (code "c0ffee") else none

registry_ne : ◌≢◌ {A = String} "registry.json" "sentinel"
registry_ne e = false≢true ((eq_iff "registry.json" "sentinel").1 e)

machine-StandsApart : StandsApart machine_platform "registry.json" "sentinel" machine
machine-StandsApart = record {
  read-write = λ bytes d h. refl;
  open-mkdir = refl;
  copy-mkdir = refl;
  open-write =
      λ bytes. ap opened (written_file "registry.json" "sentinel" bytes machine registry_ne);
  copy-write = λ bytes.
      ap (present "no file") (written_file "registry.json" "sentinel" bytes machine registry_ne);
}

is_trusted-trust_plugin_example :
    is_trusted machine_platform "sentinel" (trust_plugin machine_platform "sentinel" machine).1
    ≡ ok true
unfolding trust_plugin compute_file_sha256 hash_of load_trust_registry trust_registry_path
    parse_registry save_trust_registry
is_trusted-trust_plugin_example =
    is_trusted-trust_plugin machine_platform "sentinel" "registry.json" machine tt
      machine-IsReliable refl machine-StandsApart refl
