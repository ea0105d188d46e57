-- ===== src/Scaffold/Merge/Safety.antt =====
-- The user's changes survive a merge.
use yby_cli.Prelude.{
  ◌++◌, append-nil, append_assoc, true, ap, codes, nat_eq, String, ◌≡◌, ◌≢◌, refl, sym, ◌∙◌, [],
  ◌∷◌, Option, none, some, ◌⊎◌, inl, inr, Dict, lookup, lookup-insert, ◌==◌, eq_String, eq_iff,
  Bool-cases, arith, Option-cases, false≢true, subst,
}
use yby_cli.Prelude.Result.{Result, ok, err}
use yby_cli.Prelude.Exec.{Exec, continue}
use yby_cli.Scaffold.Merge.{
  Bytes, Dir, FileAction, action_preserve, action_conflict, MergeEntry, MergePlan, MergeError,
  Resolver, Os, plan_entry, plan_entries, compute_merge_plan, non_interactive, write_resolved,
  resolve_entry, apply_entry, apply_merge_plan, end_line, add_conflict_markers,
}
use yby_cli.Scaffold.Merge.Entry.{rel_path-plan_entry, action_of_changed, apply_entry-lookup_ne}

-- One content stands, in one piece, in another.
abbrev pub Contains : Bytes → Bytes → Type 0
Contains c b = (before after : Bytes) × (b ≡ before ++ (c ++ after))

-- The file at this path holds the content, in one piece.
abbrev pub Holds : Bytes → String → Dir → Type 0
Holds c path disk = (b : Bytes) × (lookup path disk ≡ some b) × Contains c b

-- A resolver whose answers contain what is on the disk.
abbrev pub KeepsUser : Option Resolver → Type 0
KeepsUser none = Unit {0}
KeepsUser (some resolve) =
    (entry : MergeEntry) (mine theirs b : Bytes)
    → resolve entry mine theirs ≡ ok b
    → Contains mine b

Contains-refl : (c : Bytes) → Contains c c
Contains-refl c = ([], [], sym (append-nil c))

Contains-trans : (c b d : Bytes) → Contains c b → Contains b d → Contains c d
Contains-trans c b d (p, s, e) (q, t, h) =
    (q ++ p, s ++ t, h ∙ ap (λ x. q ++ (x ++ t)) e ∙ simp append_assoc)

module _ (os : Os) (new_dir : Dir) where
  written :
      (resolver : Option Resolver) (entry : MergeEntry) (r : Result MergeError Bytes) (disk : Dir)
      (mine : Bytes)
      → os.write_file entry.rel_path ≡ true
      → ((b : Bytes) → r ≡ ok b → Contains mine b)
      → lookup entry.rel_path disk ≡ some mine
      → Holds mine entry.rel_path (write_resolved os new_dir resolver entry r disk).1
  unfolding write_resolved
  written resolver entry (ok b) disk mine writes keeps present =
      (b, grind (arith, writes, lookup-insert, eq_iff entry.rel_path entry.rel_path), keeps b refl)
  written resolver entry (err e) disk mine writes keeps present =
      (mine, present, Contains-refl mine)

  resolved :
      (resolver : Option Resolver) (entry : MergeEntry) (disk : Dir) (mine : Bytes)
      → os.write_file entry.rel_path ≡ true
      → KeepsUser resolver
      → lookup entry.rel_path disk ≡ some mine
      → Holds mine entry.rel_path (resolve_entry os new_dir resolver entry disk).1
  unfolding resolve_entry
  resolved none entry disk mine writes keeps present = (mine, present, Contains-refl mine)
  resolved (some resolve) entry disk mine writes keeps present =
      elim (Option-cases (lookup entry.rel_path new_dir)) [
        | inl e ↦
            rw (present, resolve_entry) (rw (e, resolve_entry) (mine, present, Contains-refl mine))
        | inr (n, e) ↦
            rw (present, resolve_entry)
              (rw (e, resolve_entry)
                (written (some resolve) entry (resolve entry mine n) disk mine writes
                  (keeps entry mine n) present))
      ]

  -- An entry that preserves or resolves keeps the content of its path.
  kept :
      (resolver : Option Resolver) (a : FileAction) (entry : MergeEntry) (disk : Dir) (mine : Bytes)
      → os.write_file entry.rel_path ≡ true
      → KeepsUser resolver
      → (a ≡ action_preserve) ⊎ (a ≡ action_conflict)
      → lookup entry.rel_path disk ≡ some mine
      → Holds mine entry.rel_path (apply_entry os new_dir resolver a entry disk).1
  unfolding apply_entry
  kept resolver a entry disk mine writes keeps (inl e) present =
      rw e (mine, present, Contains-refl mine)
  kept resolver a entry disk mine writes keeps (inr e) present =
      rw e (resolved resolver entry disk mine writes keeps present)

module _ (hash : Bytes → String) (manifest : Dict String String) (disk : Dir) (os : Os)
    (new_dir : Dir) (resolver : Option Resolver) (keeps : KeepsUser resolver) (path old : String)
    (c : Bytes) (tracked : lookup path manifest ≡ some old) (present : lookup path disk ≡ some c)
    (changed : hash c ≢ old) (writes : os.write_file path ≡ true) where
  entry_keeps :
      (p h : String) (now : Dir)
      → Holds c path now
      → let e = plan_entry hash manifest disk p h in
        Holds c path (apply_entry os new_dir resolver e.action e now).1
  entry_keeps p h now (mine, at, inside) =
      let e = plan_entry hash manifest disk p h in
      let same : e.rel_path ≡ p = rel_path-plan_entry hash manifest disk p h in
      elim (Bool-cases (p == path)) [
        | inl hit ↦
            let eq : e.rel_path ≡ path = same ∙ (eq_iff p path).0 hit in
            let after : Holds mine path (apply_entry os new_dir resolver e.action e now).1 =
              subst (λ q. Holds mine q (apply_entry os new_dir resolver e.action e now).1) eq
                (kept os new_dir resolver e.action e now mine
                  (subst (λ q. os.write_file q ≡ true) (sym eq) writes) keeps
                  (rw ((eq_iff p path).0 hit)
                    (action_of_changed hash manifest disk path h old c tracked present changed))
                  (subst (λ q. lookup q now ≡ some mine) (sym eq) at)) in
            (after.0, after.1, Contains-trans c mine after.0 inside after.2)
        | inr miss ↦ (
          mine,
          apply_entry-lookup_ne os new_dir resolver e.action e path now
                (λ q. false≢true (sym miss ∙ (eq_iff p path).1 (sym same ∙ q)))
              ∙ at,
          inside,
        )
      ]

  continued_keeps :
      (r : Result MergeError (Unit {0})) (f : Exec Dir MergeError (Unit {0})) (now : Dir)
      → Holds c path now
      → ((now' : Dir) → Holds c path now' → Holds c path (f now').1)
      → Holds c path (continue r (λ _. f) now).1
  continued_keeps (ok u) f now at rest = rest now at
  continued_keeps (err e) f now at rest = at

  plan_keeps :
      (files : Dir) (now : Dir)
      → Holds c path now
      → Holds c path
          (apply_merge_plan os new_dir resolver (plan_entries hash manifest disk files) now).1
  unfolding plan_entries apply_merge_plan
  plan_keeps [] now at = at
  plan_keeps ((p, n) ∷ files) now at =
      continued_keeps
        (apply_entry os new_dir resolver (plan_entry hash manifest disk p (hash n)).action
          (plan_entry hash manifest disk p (hash n)) now).0
        (apply_merge_plan os new_dir resolver (plan_entries hash manifest disk files)) _
        (entry_keeps p (hash n) now at) (λ now' at'. plan_keeps files now' at')

  -- A file of the manifest that the user changed still holds the user's content, in one piece, after
  -- a merge, whether the merge succeeds or stops at an error of another file, where no resolver is set
  -- or the resolver's answers contain the user's content. The condition is that writing this file
  -- itself does not fail: what a failed write leaves of it is not the user's content.
  pub user_changes_survive :
      (plan : MergePlan)
      → compute_merge_plan hash manifest disk (some new_dir) ≡ ok plan
      → Holds c path (apply_merge_plan os new_dir resolver plan disk).1
  unfolding compute_merge_plan
  user_changes_survive plan planned =
      subst (λ p. Holds c path (apply_merge_plan os new_dir resolver p disk).1) (cc planned)
        (plan_keeps new_dir disk (c, present, Contains-refl c))

-- The strategy "keep-user" is such a resolver, and so is "conflict-markers".
pub keep_user-KeepsUser : KeepsUser (some (non_interactive "keep-user"))
unfolding non_interactive
keep_user-KeepsUser entry mine theirs b h = subst (λ x. Contains mine x) (cc) (Contains-refl mine)

end_line-longer : (c : Bytes) → (tail : Bytes) × (end_line c ≡ c ++ tail)
unfolding end_line
end_line-longer [] = ([], refl)
end_line-longer (c ∷ []) = elim (Bool-cases (nat_eq c b'\n')) [
  | inl h ↦ ([], rw h refl)
  | inr h ↦ (b'\n' ∷ [], rw h refl)
]
end_line-longer (c ∷ d ∷ rest) =
    let (tail, e) = end_line-longer (d ∷ rest) in (tail, ap (λ l. c ∷ l) e)

add_conflict_markers-Contains :
    (mine theirs : Bytes) → Contains mine (add_conflict_markers mine theirs)
unfolding add_conflict_markers
add_conflict_markers-Contains mine theirs =
    let (tail, e) = end_line-longer mine in
    let rest = codes "=======\n" ++ (end_line theirs ++ codes ">>>>>>> SCAFFOLD (novo)\n") in
    (
      codes "<<<<<<< USUARIO (atual)\n",
      tail ++ rest,
      ap (λ l. codes "<<<<<<< USUARIO (atual)\n" ++ l)
          (ap (λ l. l ++ rest) e ∙ append_assoc mine tail rest),
    )

pub conflict_markers-KeepsUser : KeepsUser (some (non_interactive "conflict-markers"))
unfolding non_interactive
conflict_markers-KeepsUser entry mine theirs b h =
    subst (λ x. Contains mine x) (cc) (add_conflict_markers-Contains mine theirs)
