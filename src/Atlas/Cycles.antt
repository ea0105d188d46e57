-- ===== src/Atlas/Cycles.antt =====
-- plugins/atlas/analysis/cycles.go: the cycles of the relations of a blueprint, by a depth-first
-- search with three colours. `none` stands for a search that has not ended; the order in which the
-- nodes are visited is the parameter `range`, since they are the keys of a map.
pub mod Walks
pub mod Colors
pub mod Visits
pub mod Orders
pub mod Graphs
pub mod Searches
pub mod Laws
pub mod Tests
use yby_cli.Atlas.Diff.{Relation, Blueprint}
use yby_cli.Prelude.{
  length, zero, suc, some, ◌==◌, none, eq_String, contains, ◌++◌, if◌then◌else◌, ◌∷◌, lookup,
  Option, insert, Dict, ℕ, List, [], String,
}

pub data Color : Type 0 where
  white gray black : Color

pub record Search : Type 0 where
  pub color : Dict String Color
  pub parent : Dict String String
  pub cycles : List (List String)

-- graph[key], the zero value where there is none
unfoldable pub neighbors : Dict String (List String) → String → List String
neighbors graph node = elim (lookup node graph) [ none ↦ [] | some found ↦ found ]

unfoldable pub color_of : Dict String Color → String → Color
color_of colors node = elim (lookup node colors) [ none ↦ white | some c ↦ c ]

unfoldable pub parent_of : Dict String String → String → String
parent_of parents node = elim (lookup node parents) [ none ↦ "" | some p ↦ p ]

-- nodes[key] = true, on the list of the keys
unfoldable pub add_node : String → List String → List String
add_node node nodes = if contains node nodes then nodes else nodes ++ node ∷ []

-- the loop that builds the graph and the set of the nodes
unfoldable pub build_graph : Dict String (List String) → List Relation → Dict String (List String)
unfolding neighbors
build_graph graph [] = graph
build_graph graph (rel ∷ rels) =
    build_graph (insert rel.from (neighbors graph rel.from ++ rel.to ∷ []) graph) rels

unfoldable pub build_nodes : List String → List Relation → List String
unfolding add_node
build_nodes nodes [] = nodes
build_nodes nodes (rel ∷ rels) = build_nodes (add_node rel.to (add_node rel.from nodes)) rels

abbrev pub extended : String → Option (List String) → Option (List String)
extended node none = none
extended node (some path) = some (node ∷ path)

-- `for node := end; node != start; node = parent[node]`, with fuel
unfoldable pub climb : ℕ → Dict String String → String → String → Option (List String)
unfolding parent_of
climb zero parents start node = if node == start then some [] else none
climb (suc fuel) parents start node =
    let rest = climb fuel parents start (parent_of parents node) in
    if node == start then some [] else extended node rest

-- the swaps from both ends
unfoldable pub reverse : List String → List String
reverse [] = []
reverse (x ∷ xs) = reverse xs ++ x ∷ []

-- the path from the end up, with its start, turned round and closed
unfoldable pub closed : String → Option (List String) → Option (List String)
unfolding reverse
closed start none = none
closed start (some path) = some (reverse (path ++ start ∷ []) ++ start ∷ [])

-- reconstructCycle
unfoldable pub reconstruct_cycle : ℕ → Dict String String → String → String → Option (List String)
unfolding climb closed
reconstruct_cycle fuel parents start end =
    if start == end then some (start ∷ start ∷ []) else closed start (climb fuel parents start end)

-- color[node] = c
abbrev pub paint : String → Color → Search → Search
paint node c s = record s { color = insert node c s.color }

module _ (graph : Dict String (List String)) (steps : ℕ) where
  -- one round of the loop over the neighbors, by the color of the neighbor; `dfs` is the search
  unfoldable pub look_at :
      (String → Search → Option Search) → String → String → Color → Search → Option Search
  unfolding reconstruct_cycle
  look_at dfs node neighbor gray s = elim (reconstruct_cycle steps s.parent neighbor node) [
    | none ↦ none
    | some cycle ↦ some (record s { cycles = s.cycles ++ cycle ∷ [] })
  ]
  look_at dfs node neighbor white s =
      dfs neighbor (record s { parent = insert neighbor node s.parent })
  look_at dfs node neighbor black s = some s

  unfoldable pub look_round :
      (String → Search → Option Search) → String → List String → Search → Option Search
  unfolding look_at color_of
  look_round dfs node [] s = some s
  look_round dfs node (neighbor ∷ rest) s =
      elim (look_at dfs node neighbor (color_of s.color neighbor) s) [
        | none ↦ none
        | some t ↦ look_round dfs node rest t
      ]

  -- dfs
  unfoldable pub dfs : ℕ → String → Search → Option Search
  unfolding look_round neighbors
  dfs zero node s = none
  dfs (suc fuel) node s =
      elim (look_round (dfs fuel) node (neighbors graph node) (paint node gray s)) [
        | none ↦ none
        | some t ↦ some (paint node black t)
      ]

  -- the loop over the nodes
  unfoldable pub dfs_all : List String → Search → Option Search
  unfolding dfs color_of
  dfs_all [] s = some s
  dfs_all (node ∷ nodes) s = elim (color_of s.color node) [
    | white ↦ elim (dfs steps node s) [ none ↦ none | some t ↦ dfs_all nodes t ]
    | _ ↦ dfs_all nodes s
  ]

abbrev pub no_search : Search
no_search = record { color = []; parent = []; cycles = [] }

abbrev pub found_cycles : Option Search → Option (List (List String))
found_cycles none = none
found_cycles (some s) = some s.cycles

-- DetectCycles, past the blueprint that is nil
unfoldable pub relation_cycles :
    (List String → List String) → List Relation → Option (List (List String))
unfolding build_graph build_nodes dfs_all
relation_cycles range [] = some []
relation_cycles range (rel ∷ rels) =
    let nodes = build_nodes [] (rel ∷ rels) in
    let graph = build_graph [] (rel ∷ rels) in
    found_cycles (dfs_all graph (length nodes) (range nodes) no_search)

-- DetectCycles
unfoldable pub detect_cycles :
    (List String → List String) → Option Blueprint → Option (List (List String))
unfolding relation_cycles
detect_cycles range none = some []
detect_cycles range (some bp) = relation_cycles range bp.relations
