-- ===== src/Atlas/Cycles/Laws.antt =====
-- What the search for cycles returns.
use yby_cli.Prelude.{
  ◌≡◌, ◌≡◌, ◌≡◌, ◌≡◌, ◌≡◌, ◌≡◌, ◌≡◌, ◌≡◌, ◌≡◌, ◌≡◌, ◌≡◌, ◌≡◌, ◌≡◌, ◌≡◌, ◌≡◌, ◌≡◌, ◌≡◌, ◌≡◌, ◌≡◌,
  ◌≡◌, ◌≡◌, ◌≡◌, ◌≡◌, ◌≡◌, ◌∙◌, ◌≡◌, true, false≢true, eq_String, sym, arith, All, ◌≡◌, ◌++◌, refl,
  some, length, subst, ap, ◌≡◌, ◌∷◌, ◌≡◌, contains, [], String, ◌≡◌, lookup, List, ◌≡◌,
}
use yby_cli.Atlas.Diff.{Relation, Blueprint, eq_RelKey}
use yby_cli.Atlas.Cycles.{
  neighbors, build_graph, build_nodes, dfs_all, no_search, relation_cycles, detect_cycles,
}
use yby_cli.Atlas.Cycles.Walks.{IsWalkOf, IsCycleOf, has_edge, IsWalk}
use yby_cli.Atlas.Cycles.Visits.{Visited}
use yby_cli.Atlas.Cycles.Searches.{dfs_all-from_start}
use yby_cli.Atlas.Cycles.Orders.{Sorted-no_return}
use yby_cli.Atlas.Cycles.Graphs.{is_related, has_edge-build_graph, contains-build_nodes}

-- The edges of the graph are the relations.
edges :
    (rels : List Relation) (x y : String) → has_edge (build_graph [] rels) x y ≡ is_related rels x y
unfolding neighbors lookup
edges rels x y = has_edge-build_graph [] rels x y

cycle_of :
    (rels : List Relation) (path : List String)
    → IsCycleOf (has_edge (build_graph [] rels)) path ≡ IsCycleOf (is_related rels) path
cycle_of rels path = ap (λ edge. IsCycleOf edge path) (λ i x y. edges rels x y i)

-- The search on some relations, with what its visit leaves.
searched :
    (range : List String → List String) (rel : Relation) (rels : List Relation)
    → ((nodes : List String) (n : String) → contains n (range nodes) ≡ contains n nodes)
    → (let nodes = build_nodes [] (rel ∷ rels) in
        let graph = build_graph [] (rel ∷ rels) in
        Visited graph nodes
          (length nodes)
          []
          no_search
          (range nodes)
          (dfs_all graph (length nodes) (range nodes) no_search))
searched range rel rels same =
    let nodes = build_nodes [] (rel ∷ rels) in
    let graph = build_graph [] (rel ∷ rels) in
    dfs_all-from_start graph nodes (length nodes) (range nodes) (omega arith)
      (λ x y edge.
        (contains-build_nodes [] (rel ∷ rels) x y (sym (edges (rel ∷ rels) x y) ∙ edge)).1)
      (λ n inside. sym (same nodes n) ∙ inside)

relation_cycles_ends :
    (range : List String → List String) (rels : List Relation)
    → ((nodes : List String) (n : String) → contains n (range nodes) ≡ contains n nodes)
    → (cycles : List (List String)) × (relation_cycles range rels ≡ some cycles)
      × All (IsCycleOf (is_related rels)) cycles
unfolding relation_cycles
relation_cycles_ends range [] same = ([], refl, tt)
relation_cycles_ends range (rel ∷ rels) same =
    let v = searched range rel rels same in
    (
      v.after.cycles,
      rw v.ended refl,
      subst (λ edge. All (IsCycleOf edge) v.after.cycles) (λ i x y. edges (rel ∷ rels) x y i)
          v.stands.sound,
    )

starts_inside :
    (rels : List Relation) (start : String) (middle : List String)
    → IsWalkOf (is_related rels) ((start ∷ middle) ++ start ∷ [])
    → contains start (build_nodes [] rels) ≡ true
starts_inside rels start [] (edge, walk) = (contains-build_nodes [] rels start start edge).0
starts_inside rels start (next ∷ middle) (edge, walk) =
    (contains-build_nodes [] rels start next edge).0

-- A cycle of the relations is not left out.
unreported :
    (range : List String → List String) (rel : Relation) (rels : List Relation) (path : List String)
    → ((nodes : List String) (n : String) → contains n (range nodes) ≡ contains n nodes)
    → IsCycleOf (is_related (rel ∷ rels)) path
    → (v : (let nodes = build_nodes [] (rel ∷ rels) in
        let graph = build_graph [] (rel ∷ rels) in
        Visited graph nodes
          (length nodes)
          []
          no_search
          (range nodes)
          (dfs_all graph (length nodes) (range nodes) no_search)))
    → v.after.cycles ≡ []
    → ⊥
unreported range rel rels path same (start, middle, closes, walk) v none_found =
    let graph = build_graph [] (rel ∷ rels) in
    let nodes = build_nodes [] (rel ∷ rels) in
    let around : IsWalkOf (is_related (rel ∷ rels)) ((start ∷ middle) ++ start ∷ []) =
      subst (IsWalkOf (is_related (rel ∷ rels))) closes walk in
    let back : IsWalk graph (start ∷ middle ++ start ∷ []) =
      subst (λ edge. IsWalkOf edge ((start ∷ middle) ++ start ∷ []))
        (λ i x y. sym (edges (rel ∷ rels) x y) i) around in
    let o = v.stands.tidy none_found in
    let inside : contains start nodes ≡ true = starts_inside (rel ∷ rels) start middle around in
    let reached = v.reached none_found start (same nodes start ∙ inside) in
    Sorted-no_return graph o.order start middle o.sorted (sym (o.blacks start) ∙ reached) back

no_relation : (path : List String) → IsCycleOf (is_related []) path → ⊥
no_relation path (start, [], same, walk) =
    let around = subst (IsWalkOf (is_related [])) same walk in false≢true around.0
no_relation path (start, next ∷ middle, same, walk) =
    let around = subst (IsWalkOf (is_related [])) same walk in false≢true around.0

some_cycle :
    (cycles : List (List String))
    → (cycles ≡ [] → ⊥)
    → (cycle : List String) × (others : List (List String)) × (cycles ≡ cycle ∷ others)
some_cycle [] h = absurd (h refl)
some_cycle (cycle ∷ others) h = (cycle, others, refl)

relation_cycles_finds :
    (range : List String → List String) (rels : List Relation) (path : List String)
    → ((nodes : List String) (n : String) → contains n (range nodes) ≡ contains n nodes)
    → IsCycleOf (is_related rels) path
    → (cycle : List String) × (others : List (List String)) × (relation_cycles range rels
        ≡ some (cycle ∷ others))
unfolding relation_cycles
relation_cycles_finds range [] path same cyclic = absurd (no_relation path cyclic)
relation_cycles_finds range (rel ∷ rels) path same cyclic =
    let v = searched range rel rels same in
    let (cycle, others, there) =
      some_cycle v.after.cycles (unreported range rel rels path same cyclic v) in
    (cycle, others, rw (v.ended, there) refl)

-- The search of DetectCycles ends, whatever the order in which the keys of the map are visited: the
-- loop of `dfs` and the walk up the parents need no more steps than there are nodes. All it reports
-- are cycles of the relations. The hypothesis says that the loop over the map visits its keys and
-- no others.
pub detect_cycles_ends :
    (range : List String → List String) (bp : Blueprint)
    → ((nodes : List String) (n : String) → contains n (range nodes) ≡ contains n nodes)
    → (cycles : List (List String)) × (detect_cycles range (some bp) ≡ some cycles)
      × All (IsCycleOf (is_related bp.relations)) cycles
unfolding detect_cycles
detect_cycles_ends range bp same = relation_cycles_ends range bp.relations same

-- Where some relations form a cycle, DetectCycles reports a cycle, whatever the order in which the
-- keys of the map are visited. The hypothesis says that the loop over the map visits its keys and
-- no others.
pub detect_cycles_finds :
    (range : List String → List String) (bp : Blueprint) (path : List String)
    → ((nodes : List String) (n : String) → contains n (range nodes) ≡ contains n nodes)
    → IsCycleOf (is_related bp.relations) path
    → (cycle : List String) × (others : List (List String)) × (detect_cycles range (some bp)
        ≡ some (cycle ∷ others))
unfolding detect_cycles
detect_cycles_finds range bp path same cyclic =
    relation_cycles_finds range bp.relations path same cyclic
