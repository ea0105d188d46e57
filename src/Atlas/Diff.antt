-- ===== src/Atlas/Diff.antt =====
-- plugins/atlas/analysis/diff.go: what changed between two blueprints of a project. A nil blueprint
-- is `none`. A `range` over a map visits the entries in some order; here it is that of insertion.
pub mod Laws
pub mod Tests
use yby_cli.Prelude.{
  String, Bool, true, false, not, ◌&&◌, ◌||◌, ◌≡◌, List, [], ◌∷◌, ◌++◌, Option, none, some, Dict,
  insert, has_key, map, Eq, ◌==◌, eq_String, eq_iff, arith, ap, if◌then◌else◌, ◌↔◌,
}

pub record Component : Type 0 where
  pub name : String
  pub type : String
  pub path : String
  pub language : String
  pub framework : String
  pub tags : List String
  pub metadata : Dict String String

pub record Relation : Type 0 where
  pub from : String
  pub to : String
  pub type : String

pub record Blueprint : Type 0 where
  pub components : List Component
  pub relations : List Relation
  pub roots : List String

pub record RelationChange : Type 0 where
  pub relation : Relation
  pub action : String

pub record BlueprintDiff : Type 0 where
  pub added : List Component
  pub removed : List Component
  pub changed_relations : List RelationChange

-- type relKey struct{ from, to, typ string }
abbrev pub RelKey : Type 0
RelKey = String × String × String

abbrev pub rel_key_equal : RelKey → RelKey → Bool
rel_key_equal (a, b, c) (x, y, z) = a == x && (b == y && c == z)

pub rel_key_equal_iff : (j k : RelKey) → (rel_key_equal j k ≡ true) ↔ (j ≡ k)
rel_key_equal_iff (a, b, c) (x, y, z) = ground (arith, eq_iff a x, eq_iff b y, eq_iff c z)

instance abbrev pub eq_RelKey : Eq RelKey
eq_RelKey = record { equal = rel_key_equal; equal_iff = rel_key_equal_iff }

abbrev pub rel_key : Relation → RelKey
rel_key r = (r.from, r.to, r.type)

abbrev pub component_path : Component → String
component_path c = c.path

module _ {A K : Type 0} ⦃e : Eq K⦄ where
  -- `for _, c := range xs { m[key(c)] = c }`
  unfoldable pub index : (A → K) → Dict K A → List A → Dict K A
  index key m [] = m
  index key m (x ∷ xs) = index key (insert (key x) x m) xs

  -- `for key, x := range m { if _, ok := n[key]; !ok { … x … } }`
  unfoldable pub missing_from : Dict K A → Dict K A → List A
  missing_from n [] = []
  missing_from n ((key, x) ∷ m) =
      let rest = missing_from n m in if has_key key n then rest else x ∷ rest

abbrev pub components_of : Option Blueprint → List Component
components_of none = []
components_of (some bp) = bp.components

abbrev pub relations_of : Option Blueprint → List Relation
relations_of none = []
relations_of (some bp) = bp.relations

-- DiffBlueprints
unfoldable pub diff_blueprints : Option Blueprint → Option Blueprint → BlueprintDiff
unfolding index missing_from
diff_blueprints old new =
    let old_comps = index component_path [] (components_of old) in
    let new_comps = index component_path [] (components_of new) in
    let old_rels = index rel_key [] (relations_of old) in
    let new_rels = index rel_key [] (relations_of new) in
    record {
      added = missing_from old_comps new_comps;
      removed = missing_from new_comps old_comps;
      changed_relations =
          map (λ r. record { relation = r; action = "removed" }) (missing_from new_rels old_rels)
          ++ map (λ r. record { relation = r; action = "added" }) (missing_from old_rels new_rels);
    }
