-- ===== src/Scaffold/Merge.antt =====
-- pkg/scaffold/merge.go: merging a new scaffold into a project that the user may have changed.
-- A directory is a map from relative paths to bytes. A missing path and an unreadable one are the
-- same here, as they are for `ComputeFileHash`. SHA-256 is the parameter `hash`; which directories
-- and files can be written is the parameter `Os`.
pub mod Entry
pub mod Safety
pub mod Refinement
pub mod Tests
use yby_cli.Prelude.{
  ℕ, String, Bool, true, false, not, ◌&&◌, List, [], ◌∷◌, ◌++◌, Option, none, some, Dict, lookup,
  insert, ◌==◌, eq_String, nat_eq, codes, if◌then◌else◌,
}
use yby_cli.Prelude.Result.{Result, ok, err}
use yby_cli.Prelude.Exec.{Exec, continue}

abbrev pub Bytes : Type 0
Bytes = List ℕ

abbrev pub Dir : Type 0
Dir = Dict String Bytes

pub data FileAction : Type 0 where
  action_none action_update action_preserve action_conflict action_new : FileAction

pub record MergeEntry : Type 0 where
  pub rel_path : String
  pub action : FileAction
  pub old_hash : String
  pub disk_hash : String
  pub new_hash : String

abbrev pub MergePlan : Type 0
MergePlan = List MergeEntry

pub data MergeError : Type 0 where
  scaffold_unhashed : MergeError
  scaffold_unreadable disk_unreadable dir_refused write_refused no_resolver : String → MergeError
  unresolved : String → MergeError → MergeError
  unknown_strategy : String → MergeError

-- ConflictResolver
abbrev pub Resolver : Type 0
Resolver = MergeEntry → Bytes → Bytes → Result MergeError Bytes

-- What the operating system lets the program write. `left_by` is what os.WriteFile leaves of a file
-- where it fails on the way: none where it has not opened the file, which then is as it was, and else
-- the content it leaves, a part of the new one or nothing.
pub record Os : Type 0 where
  pub mkdir_all : String → Bool
  pub write_file : String → Bool
  pub left_by : String → Bytes → Option Bytes

-- A newline after a text that does not end in one; an empty text stays as it is.
unfoldable pub end_line : Bytes → Bytes
end_line [] = []
end_line (c ∷ []) = if nat_eq c b'\n' then c ∷ [] else c ∷ b'\n' ∷ []
end_line (c ∷ d ∷ rest) = c ∷ end_line (d ∷ rest)

unfoldable pub add_conflict_markers : Bytes → Bytes → Bytes
unfolding end_line
add_conflict_markers disk_content new_content =
    codes "<<<<<<< USUARIO (atual)\n"
    ++ (end_line disk_content
        ++ (codes "=======\n" ++ (end_line new_content ++ codes ">>>>>>> SCAFFOLD (novo)\n")))

-- (r *NonInteractiveResolver) Resolve
unfoldable pub non_interactive : String → Resolver
unfolding add_conflict_markers
non_interactive strategy entry disk_content new_content =
    if strategy == "keep-user"
    then ok disk_content
    else if strategy == "keep-scaffold"
    then ok new_content
    else if strategy == "conflict-markers"
    then ok (add_conflict_markers disk_content new_content)
    else err (unknown_strategy strategy)

-- The `switch` over what the user and the scaffold changed.
unfoldable pub decide_action : Bool → Bool → FileAction
decide_action false false = action_none
decide_action false true = action_update
decide_action true false = action_preserve
decide_action true true = action_conflict

-- The entry of a file, from the two lookups that the loop makes.
unfoldable pub classify : String → String → Option String → Option String → MergeEntry
unfolding decide_action
classify rel_path new_hash (some old_hash) (some disk_hash) = record {
  rel_path = rel_path;
  action = decide_action (not (disk_hash == old_hash)) (not (new_hash == old_hash));
  old_hash = old_hash;
  disk_hash = disk_hash;
  new_hash = new_hash;
}
classify rel_path new_hash _ _ = record {
  rel_path = rel_path;
  action = action_new;
  old_hash = "";
  disk_hash = "";
  new_hash = new_hash;
}

module _ (hash : Bytes → String) where
  -- ComputeFileHash, of what reading the file gave
  unfoldable pub compute_file_hash : Option Bytes → Option String
  compute_file_hash none = none
  compute_file_hash (some content) = some (hash content)

  -- The body of the loop of ComputeMergePlan, for one file of the new scaffold.
  unfoldable pub plan_entry : Dict String String → Dir → String → String → MergeEntry
  unfolding compute_file_hash classify
  plan_entry manifest_hashes disk rel_path new_hash =
      classify rel_path new_hash (lookup rel_path manifest_hashes)
        (compute_file_hash (lookup rel_path disk))

  -- ComputeDirHashes of the new scaffold and the loop over its result
  unfoldable pub plan_entries : Dict String String → Dir → Dir → MergePlan
  plan_entries manifest_hashes disk [] = []
  plan_entries manifest_hashes disk ((rel_path, content) ∷ rest) =
      plan_entry manifest_hashes disk rel_path (hash content)
      ∷ plan_entries manifest_hashes disk rest

  -- ComputeMergePlan; `none` for a scaffold whose walk fails
  unfoldable pub compute_merge_plan :
      Dict String String → Dir → Option Dir → Result MergeError MergePlan
  unfolding plan_entries
  compute_merge_plan manifest_hashes disk none = err scaffold_unhashed
  compute_merge_plan manifest_hashes disk (some new_dir) =
      ok (plan_entries manifest_hashes disk new_dir)

module _ (os : Os) (new_dir : Dir) (resolver : Option Resolver) where
  -- os.WriteFile
  unfoldable pub write_file : String → Bytes → Exec Dir MergeError (Unit {0})
  write_file path content disk = if os.write_file path then (ok tt, insert path content disk) else (
    err (write_refused path),
    elim (os.left_by path content) [ none ↦ disk | some part ↦ insert path part disk ],
  )

  -- the case ActionUpdate, ActionNew
  unfoldable pub copy_entry : String → Exec Dir MergeError (Unit {0})
  unfolding write_file
  copy_entry path disk = elim (lookup path new_dir) [
    | none ↦ (err (scaffold_unreadable path), disk)
    | some content ↦
        if os.mkdir_all path then write_file path content disk else (err (dir_refused path), disk)
  ]

  -- the resolution of a conflict between two contents
  unfoldable pub write_resolved :
      MergeEntry → Result MergeError Bytes → Exec Dir MergeError (Unit {0})
  unfolding write_file
  write_resolved entry (ok resolved) disk = write_file entry.rel_path resolved disk
  write_resolved entry (err e) disk = (err (unresolved entry.rel_path e), disk)

  -- the case ActionConflict
  unfoldable pub resolve_entry : MergeEntry → Exec Dir MergeError (Unit {0})
  unfolding write_resolved
  resolve_entry entry disk = elim resolver [
    | none ↦ (err (no_resolver entry.rel_path), disk)
    | some resolve ↦ elim (lookup entry.rel_path disk) [
      | none ↦ (err (disk_unreadable entry.rel_path), disk)
      | some disk_content ↦ elim (lookup entry.rel_path new_dir) [
        | none ↦ (err (scaffold_unreadable entry.rel_path), disk)
        | some new_content ↦ write_resolved entry (resolve entry disk_content new_content) disk
      ]
    ]
  ]

  -- The body of the loop of ApplyMergePlan.
  unfoldable pub apply_entry : FileAction → MergeEntry → Exec Dir MergeError (Unit {0})
  unfolding copy_entry resolve_entry
  apply_entry action_none entry disk = (ok tt, disk)
  apply_entry action_preserve entry disk = (ok tt, disk)
  apply_entry action_update entry disk = copy_entry entry.rel_path disk
  apply_entry action_new entry disk = copy_entry entry.rel_path disk
  apply_entry action_conflict entry disk = resolve_entry entry disk

  -- ApplyMergePlan: the first error ends the loop, and what was written stays
  unfoldable pub apply_merge_plan : MergePlan → Exec Dir MergeError (Unit {0})
  apply_merge_plan [] disk = (ok tt, disk)
  apply_merge_plan (entry ∷ plan) disk =
      continue (apply_entry entry.action entry disk).0 (λ _. apply_merge_plan plan)
        (apply_entry entry.action entry disk).1
