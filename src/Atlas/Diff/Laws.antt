-- ===== src/Atlas/Diff/Laws.antt =====
-- What the difference of two blueprints lists.
use yby_cli.Prelude.{
  String, Bool, true, false, not, ◌&&◌, ◌||◌, ◌≡◌, refl, ◌∙◌, List, [], ◌∷◌, Option, Dict, insert,
  has_key, has_key-insert, map, any, any-append, Eq, ◌==◌, eq_String, arith, ap, All, Bool-cases,
  inl, inr,
}
use yby_cli.Atlas.Diff.{
  Relation, Blueprint, RelationChange, RelKey, eq_RelKey, rel_key, component_path, index,
  missing_from, components_of, relations_of, diff_blueprints,
}

or_false : (b : Bool) → (b || false) ≡ b
or_false true = refl
or_false false = refl

module _ {A K : Type 0} ⦃e : Eq K⦄ (key : A → K) where
  -- a list has a value of the key
  abbrev pub has : K → List A → Bool
  has k xs = any (λ x. key x == k) xs

  -- each entry stands under its own key
  abbrev pub Keyed : Dict K A → Type 0
  Keyed m = All (λ entry. key entry.1 ≡ entry.0) m

  insert-Keyed : (x : A) (m : Dict K A) → Keyed m → Keyed (insert (key x) x m)
  unfolding insert
  insert-Keyed x [] h = (refl, tt)
  insert-Keyed x ((j, y) ∷ m) h = elim (Bool-cases (j == key x)) [
    | inl hit ↦ rw hit (refl, h.1)
    | inr miss ↦ rw miss (h.0, insert-Keyed x m h.1)
  ]

  index-Keyed : (xs : List A) (m : Dict K A) → Keyed m → Keyed (index key m xs)
  unfolding index
  index-Keyed [] m h = h
  index-Keyed (x ∷ xs) m h = index-Keyed xs (insert (key x) x m) (insert-Keyed x m h)

  has_key-index :
      (k : K) (xs : List A) (m : Dict K A) → has_key k (index key m xs) ≡ (has_key k m || has k xs)
  unfolding index
  has_key-index k [] m = ground arith
  has_key-index k (x ∷ xs) m =
      ground (arith, has_key-index k xs (insert (key x) x m), has_key-insert (key x) k x m)

  has-missing_from :
      (k : K) (n m : Dict K A)
      → Keyed m
      → has k (missing_from n m) ≡ (has_key k m && not (has_key k n))
  unfolding missing_from has_key
  has-missing_from k n [] h = refl
  has-missing_from k n ((j, x) ∷ m) h =
      ground (arith, has-missing_from k n m h.1, ap (λ i. i == k) h.0, e.equal_iff j k)

  -- Indexing two lists and taking the entries of one that the other lacks.
  pub has-missing_index :
      (k : K) (xs ys : List A)
      → has k (missing_from (index key [] xs) (index key [] ys)) ≡ (has k ys && not (has k xs))
  unfolding has_key
  has-missing_index k xs ys =
      has-missing_from k (index key [] xs) (index key [] ys) (index-Keyed ys [] tt)
      ∙ ap (λ b. b && not (has_key k (index key [] xs))) (has_key-index k ys [])
      ∙ ap (λ b. has k ys && not b) (has_key-index k xs [])

-- a change of a relation with the key, by the action
abbrev pub has_change : String → RelKey → List RelationChange → Bool
has_change action k changes = any (λ c. c.action == action && rel_key c.relation == k) changes

-- the changes that a loop over relations writes
abbrev changes : String → List Relation → List RelationChange
changes action rels = map (λ r. record { relation = r; action = action }) rels

has_change-changes :
    (action written : String) (same : Bool) (k : RelKey) (rels : List Relation)
    → (written == action) ≡ same
    → has_change action k (changes written rels) ≡ (same && has rel_key k rels)
has_change-changes action written false k [] h = refl
has_change-changes action written true k [] h = refl
has_change-changes action written same k (r ∷ rels) h =
    ground (arith, h, has_change-changes action written same k rels h)

module _ (old new : Option Blueprint) where
  -- The components listed as added have exactly the paths that only the new blueprint has, those
  -- listed as removed the paths that only the old one has; a relation (its two ends and its type) is
  -- listed as added, or as removed, exactly where only the new, or only the old, blueprint has it.
  pub diff_blueprints_exact :
      (p : String) (k : RelKey)
      → let diff = diff_blueprints old new in
        (has component_path p diff.added ≡ (
          has component_path p (components_of new)
          && not (has component_path p (components_of old))))
        × (has component_path p diff.removed ≡ (
            has component_path p (components_of old)
            && not (has component_path p (components_of new))))
        × (has_change "added" k diff.changed_relations
            ≡ (has rel_key k (relations_of new) && not (has rel_key k (relations_of old))))
        × (has_change "removed" k diff.changed_relations
            ≡ (has rel_key k (relations_of old) && not (has rel_key k (relations_of new))))
  unfolding diff_blueprints
  diff_blueprints_exact p k =
      let old_rels = index rel_key [] (relations_of old) in
      let new_rels = index rel_key [] (relations_of new) in
      let gone = missing_from new_rels old_rels in
      let came = missing_from old_rels new_rels in
      (
        has-missing_index component_path p (components_of old) (components_of new),
        has-missing_index component_path p (components_of new) (components_of old),
        any-append _ (changes "removed" gone) (changes "added" came)
            ∙ ap (λ b. b || has_change "added" k (changes "added" came))
                (has_change-changes "added" "removed" false k gone refl)
            ∙ has_change-changes "added" "added" true k came refl
            ∙ has-missing_index rel_key k (relations_of old) (relations_of new),
        any-append _ (changes "removed" gone) (changes "added" came)
            ∙ ap (λ b. b || has_change "removed" k (changes "added" came))
                (has_change-changes "removed" "removed" true k gone refl)
            ∙ ap (λ b. has rel_key k gone || b)
                (has_change-changes "removed" "added" false k came refl)
            ∙ or_false (has rel_key k gone)
            ∙ has-missing_index rel_key k (relations_of new) (relations_of old),
      )
