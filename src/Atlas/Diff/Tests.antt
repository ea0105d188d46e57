-- ===== src/Atlas/Diff/Tests.antt =====
-- The difference of two small blueprints, and the theorem applied to it.
use yby_cli.Prelude.{String, not, ◌&&◌, ◌≡◌, refl, [], ◌∷◌, some, insert, has_key, eq_String}
use yby_cli.Atlas.Diff.{
  Component, Relation, Blueprint, rel_key, eq_RelKey, component_path, diff_blueprints,
}
use yby_cli.Atlas.Diff.Laws.{has, has_change, diff_blueprints_exact}

abbrev component : String → Component
component path = record {
  name = path;
  type = "app";
  path = path;
  language = "go";
  framework = "";
  tags = [];
  metadata = [];
}

abbrev imports : String → String → Relation
imports from to = record { from = from; to = to; type = "imports" }

abbrev before : Blueprint
before = record {
  components = component "api" ∷ component "web" ∷ [];
  relations = imports "web" "api" ∷ [];
  roots = [];
}

abbrev after : Blueprint
after = record {
  components = component "api" ∷ component "jobs" ∷ [];
  relations = imports "jobs" "api" ∷ [];
  roots = [];
}

one_added : (diff_blueprints (some before) (some after)).added ≡ component "jobs" ∷ []
unfolding diff_blueprints insert has_key
one_added = refl

diff_blueprints_exact_example :
    let diff = diff_blueprints (some before) (some after) in
    let k = rel_key (imports "web" "api") in
    (has component_path "jobs" diff.added ≡ (
      has component_path "jobs" after.components
      && not (has component_path "jobs" before.components)))
    × (has component_path "jobs" diff.removed ≡ (
        has component_path "jobs" before.components
        && not (has component_path "jobs" after.components)))
    × (has_change "added" k diff.changed_relations
        ≡ (has rel_key k after.relations && not (has rel_key k before.relations)))
    × (has_change "removed" k diff.changed_relations
        ≡ (has rel_key k before.relations && not (has rel_key k after.relations)))
diff_blueprints_exact_example =
    diff_blueprints_exact (some before) (some after) "jobs" (rel_key (imports "web" "api"))
