-- ===== src/Scaffold/Merge/Tests.antt =====
-- Merges of a small project.
use yby_cli.Prelude.{
  String, ◌≡◌, ◌≢◌, refl, true, false≢true, eq_iff, [], ◌∷◌, none, some, Dict, lookup, eq_String,
  codes, nat_eq, if◌then◌else◌,
}
use yby_cli.Prelude.Result.{err}
use yby_cli.Scaffold.Merge.{
  apply_entry, plan_entry, Bytes, Dir, Os, MergePlan, plan_entries, compute_merge_plan,
  apply_merge_plan, non_interactive, no_resolver, add_conflict_markers,
}
use yby_cli.Scaffold.Merge.Safety.{user_changes_survive, Holds, conflict_markers-KeepsUser}

-- a hash that tells the contents of these tests apart
abbrev first_byte : Bytes → String
first_byte [] = "empty"
first_byte (c ∷ rest) = if nat_eq c 65 then "A" else if nat_eq c 66 then "B" else "C"

abbrev free : Os
free = record { mkdir_all = λ path. true; write_file = λ path. true; left_by = λ path c. none }

abbrev manifest : Dict String String
manifest = ("a", "A") ∷ ("b", "A") ∷ []

-- `a` changed by the user, `b` not, `c` unknown to the manifest
abbrev disk : Dir
disk = ("a", 66 ∷ []) ∷ ("b", 65 ∷ []) ∷ ("c", 66 ∷ []) ∷ []

abbrev scaffold : Dir
scaffold = ("a", 67 ∷ []) ∷ ("b", 67 ∷ []) ∷ ("c", 67 ∷ []) ∷ []

abbrev plan : MergePlan
unfolding plan_entries
plan = plan_entries first_byte manifest disk scaffold

merged_dir : Dir
merged_dir = ("a", 66 ∷ []) ∷ ("b", 67 ∷ []) ∷ ("c", 67 ∷ []) ∷ []

no_resolver_run : apply_merge_plan free scaffold none plan disk ≡ (err (no_resolver "a"), disk)
unfolding apply_merge_plan plan_entries lookup apply_entry plan_entry
no_resolver_run = refl

markers :
    add_conflict_markers (codes "a") (codes "b\n")
    ≡ codes "<<<<<<< USUARIO (atual)\na\n=======\nb\n>>>>>>> SCAFFOLD (novo)\n"
unfolding add_conflict_markers
markers = refl

not_hash : ◌≢◌ {A = String} "B" "A"
not_hash e = false≢true ((eq_iff "B" "A").1 e)

user_changes_survive_example :
    Holds
      (66 ∷ [])
      "a"
      (apply_merge_plan free scaffold (some (non_interactive "conflict-markers")) plan disk).1
unfolding lookup compute_merge_plan plan_entries
user_changes_survive_example =
    user_changes_survive first_byte manifest disk free scaffold
      (some (non_interactive "conflict-markers")) conflict_markers-KeepsUser "a" "A" (66 ∷ []) refl
      refl not_hash refl plan refl
