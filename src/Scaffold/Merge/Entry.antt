-- ===== src/Scaffold/Merge/Entry.antt =====
-- What one entry of the plan is, and what applying it does to the directory.
use yby_cli.Prelude.{
  String, ◌≡◌, ◌≢◌, refl, Option, some, ◌⊎◌, Dict, lookup, lookup-insert, eq_String, eq_iff, arith,
}
use yby_cli.Prelude.Result.{Result, ok, err}
use yby_cli.Scaffold.Merge.{
  Bytes, Dir, FileAction, action_none, action_update, action_preserve, action_conflict, action_new,
  MergeEntry, MergeError, Resolver, Os, plan_entry, copy_entry, write_resolved, resolve_entry,
  apply_entry,
}

module _ (hash : Bytes → String) (manifest : Dict String String) (disk : Dir) where
  pub rel_path-plan_entry :
      (path new_hash : String) → (plan_entry hash manifest disk path new_hash).rel_path ≡ path
  unfolding plan_entry
  rel_path-plan_entry path new_hash = ground arith

  -- A tracked file that the user changed is preserved or in conflict.
  pub action_of_changed :
      (path new_hash old : String) (c : Bytes)
      → lookup path manifest ≡ some old
      → lookup path disk ≡ some c
      → hash c ≢ old
      → let a = (plan_entry hash manifest disk path new_hash).action in
        (a ≡ action_preserve) ⊎ (a ≡ action_conflict)
  unfolding plan_entry
  action_of_changed path new_hash old c tracked present changed =
      ground (arith, eq_iff (hash c) old)

module _ (os : Os) (new_dir : Dir) (resolver : Option Resolver) where
  copy_entry-lookup_ne :
      (path q : String) (disk : Dir)
      → path ≢ q
      → lookup q (copy_entry os new_dir resolver path disk).1 ≡ lookup q disk
  unfolding copy_entry
  copy_entry-lookup_ne path q disk h = grind (arith, lookup-insert, eq_iff path q)

  write_resolved-lookup_ne :
      (entry : MergeEntry) (r : Result MergeError Bytes) (q : String) (disk : Dir)
      → entry.rel_path ≢ q
      → lookup q (write_resolved os new_dir resolver entry r disk).1 ≡ lookup q disk
  unfolding write_resolved
  write_resolved-lookup_ne entry (ok b) q disk h =
      grind (arith, lookup-insert, eq_iff entry.rel_path q)
  write_resolved-lookup_ne entry (err e) q disk h = refl

  resolve_entry-lookup_ne :
      (entry : MergeEntry) (q : String) (disk : Dir)
      → entry.rel_path ≢ q
      → lookup q (resolve_entry os new_dir resolver entry disk).1 ≡ lookup q disk
  unfolding resolve_entry
  resolve_entry-lookup_ne entry q disk h = grind (arith, write_resolved-lookup_ne)

  -- Applying an entry changes no other path.
  pub apply_entry-lookup_ne :
      (a : FileAction) (entry : MergeEntry) (q : String) (disk : Dir)
      → entry.rel_path ≢ q
      → lookup q (apply_entry os new_dir resolver a entry disk).1 ≡ lookup q disk
  unfolding apply_entry
  apply_entry-lookup_ne action_none entry q disk h = refl
  apply_entry-lookup_ne action_preserve entry q disk h = refl
  apply_entry-lookup_ne action_update entry q disk h = copy_entry-lookup_ne entry.rel_path q disk h
  apply_entry-lookup_ne action_new entry q disk h = copy_entry-lookup_ne entry.rel_path q disk h
  apply_entry-lookup_ne action_conflict entry q disk h = resolve_entry-lookup_ne entry q disk h
