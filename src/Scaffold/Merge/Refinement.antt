-- ===== src/Scaffold/Merge/Refinement.antt =====
-- A merge that succeeds is a three-way merge, file by file.
use yby_cli.Prelude.{
  String, false, not, ◌≡◌, [], ◌∷◌, Option, none, some, has_key, ◌==◌, eq_String, if◌then◌else◌,
}
use yby_cli.Prelude.Result.{Result}
use yby_cli.Prelude.Exec.{Exec}
use yby_cli.Scaffold.Merge.{Bytes, Dir}

-- What a merge is meant to leave of a file: from the hash in the manifest, the user's content and
-- the new one. A file without a manifest entry or without a content of the user is the new one; a
-- file that only one side changed is that side's; where both changed, the resolver answers.
unfoldable pub merged_file :
    (Bytes → String) → (Bytes → Bytes → Bytes) → Option String → Option Bytes → Bytes → Bytes
merged_file hash answer none mine theirs = theirs
merged_file hash answer (some old) none theirs = theirs
merged_file hash answer (some old) (some mine) theirs =
    let mine_changed = not (hash mine == old) in
    let theirs_changed = not (hash theirs == old) in
    if mine_changed
    then (if theirs_changed then answer mine theirs else mine)
    else if theirs_changed
    then theirs
    else mine

-- The directory after the merge, at a path that the new scaffold has or has not.
abbrev pub merged :
    (Bytes → String)
    → (Bytes → Bytes → Bytes)
    → Option String
    → Option Bytes
    → Option Bytes
    → Option Bytes
merged hash answer old mine none = mine
merged hash answer old mine (some theirs) = some (merged_file hash answer old mine theirs)

-- The paths of a scaffold are all different.
abbrev pub Distinct : Dir → Type 0
Distinct [] = Unit {0}
Distinct ((p, n) ∷ files) = (has_key p files ≡ false) × Distinct files
