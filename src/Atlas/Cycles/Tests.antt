-- ===== src/Atlas/Cycles/Tests.antt =====
-- The search for cycles on small blueprints.
use yby_cli.Prelude.{
  ◌≡◌, ◌≡◌, ◌≡◌, ◌≡◌, ◌≡◌, ◌≡◌, ◌≡◌, ◌≡◌, ◌≡◌, ◌≡◌, ◌≡◌, ◌≡◌, ◌≡◌, ◌≡◌, ◌≡◌, ◌≡◌, ◌≡◌, ◌≡◌, ◌≡◌,
  ◌≡◌, ◌≡◌, ◌≡◌, ◌≡◌, ◌≡◌, ◌≡◌, ◌≡◌, ◌≡◌, refl, All, insert, ◌∷◌, ◌≡◌, some, none, List, String,
  lookup, [],
}
use yby_cli.Atlas.Diff.{Relation, Blueprint, eq_RelKey}
use yby_cli.Atlas.Cycles.{detect_cycles}
use yby_cli.Atlas.Cycles.Laws.{detect_cycles_ends, detect_cycles_finds}
use yby_cli.Atlas.Cycles.Walks.{IsCycleOf}
use yby_cli.Atlas.Cycles.Graphs.{is_related}

abbrev depends : String → String → Relation
depends x y = record { from = x; to = y; type = "depends_on" }

abbrev circular : Blueprint
circular = record {
  components = [];
  relations = depends "api" "db" ∷ depends "db" "queue" ∷ depends "queue" "api" ∷ [];
  roots = [];
}

one_cycle :
    detect_cycles (λ nodes. nodes) (some circular)
    ≡ some (("api" ∷ "db" ∷ "queue" ∷ "api" ∷ []) ∷ [])
unfolding detect_cycles lookup insert
one_cycle = refl

-- another order of the nodes
turned_cycle :
    detect_cycles (λ nodes. "queue" ∷ "db" ∷ "api" ∷ []) (some circular)
    ≡ some (("queue" ∷ "api" ∷ "db" ∷ "queue" ∷ []) ∷ [])
unfolding detect_cycles lookup insert
turned_cycle = refl

no_blueprint : detect_cycles (λ nodes. nodes) none ≡ some []
unfolding detect_cycles
no_blueprint = refl

detect_cycles_ends_example :
    (cycles : List (List String)) × (detect_cycles (λ nodes. nodes) (some circular) ≡ some cycles)
    × All (IsCycleOf (is_related circular.relations)) cycles
detect_cycles_ends_example = detect_cycles_ends (λ nodes. nodes) circular (λ nodes n. refl)

detect_cycles_finds_example :
    (cycle : List String) × (others : List (List String)) × (detect_cycles
        (λ nodes. nodes)
        (some circular)
      ≡ some (cycle ∷ others))
detect_cycles_finds_example =
    detect_cycles_finds (λ nodes. nodes) circular ("api" ∷ "db" ∷ "queue" ∷ "api" ∷ [])
      (λ nodes n. refl) ("api", "db" ∷ "queue" ∷ [], refl, (refl, (refl, (refl, tt))))
