-- ===== src/Atlas/Cycles/Graphs.antt =====
-- The graph and the nodes that are built from the relations.
use yby_cli.Prelude.{
  refl, inr, contains-append, eq_iff, lookup-insert, inl, eq_String, Bool-cases, ◌&&◌, [], ◌==◌,
  ◌∷◌, arith, any, ◌++◌, true, if◌then◌else◌, ◌||◌, insert, contains, ◌≡◌, Bool, String, Dict, List,
}
use yby_cli.Atlas.Diff.{Relation, eq_RelKey}
use yby_cli.Atlas.Cycles.{neighbors, add_node, build_graph, build_nodes}
use yby_cli.Atlas.Cycles.Walks.{has_edge}

-- Some relation leads from one to the other.
abbrev pub is_related : List Relation → String → String → Bool
is_related rels x y = any (λ rel. rel.from == x && y == rel.to) rels

neighbors-insert :
    (graph : Dict String (List String)) (node other : String) (value : List String)
    → neighbors (insert node value graph) other
      ≡ (if node == other then value else neighbors graph other)
unfolding neighbors
neighbors-insert graph node other value = elim (Bool-cases (node == other)) [
  | inl h ↦ rw (lookup-insert node other value graph, h, neighbors) refl
  | inr h ↦ rw (lookup-insert node other value graph, h, neighbors) refl
]

has_edge-insert :
    (graph : Dict String (List String)) (from to x y : String)
    → has_edge (insert from (neighbors graph from ++ to ∷ []) graph) x y
      ≡ (has_edge graph x y || (from == x && y == to))
has_edge-insert graph from to x y =
    rw (neighbors-insert graph from x (neighbors graph from ++ to ∷ []))
      (elim (Bool-cases (from == x)) [
        | inl h ↦
            rw (h, contains-append y (neighbors graph from) (to ∷ []), (eq_iff from x).0 h)
              (ground arith)
        | inr h ↦ rw h (ground arith)
      ])

pub has_edge-build_graph :
    (graph : Dict String (List String)) (rels : List Relation) (x y : String)
    → has_edge (build_graph graph rels) x y ≡ (has_edge graph x y || is_related rels x y)
unfolding build_graph
has_edge-build_graph graph [] x y = ground arith
has_edge-build_graph graph (rel ∷ rels) x y =
    let next = insert rel.from (neighbors graph rel.from ++ rel.to ∷ []) graph in
    ground (arith, has_edge-build_graph next rels x y, has_edge-insert graph rel.from rel.to x y)

contains-add_node :
    (node other : String) (nodes : List String)
    → contains other (add_node node nodes) ≡ (contains other nodes || other == node)
unfolding add_node
contains-add_node node other nodes = elim (Bool-cases (contains node nodes)) [
  | inl h ↦ rw h (elim (Bool-cases (other == node)) [
    | inl e ↦ rw (e, (eq_iff other node).0 e, h) refl
    | inr e ↦ rw e (ground arith)
  ])
  | inr h ↦ rw (h, contains-append other nodes (node ∷ [])) (ground arith)
]

build_nodes-keeps :
    (nodes : List String) (rels : List Relation) (x : String)
    → contains x nodes ≡ true
    → contains x (build_nodes nodes rels) ≡ true
unfolding build_nodes
build_nodes-keeps nodes [] x h = h
build_nodes-keeps nodes (rel ∷ rels) x h =
    build_nodes-keeps (add_node rel.to (add_node rel.from nodes)) rels x (
      ground (
        arith,
        h,
        contains-add_node rel.from x nodes,
        contains-add_node rel.to x (add_node rel.from nodes),
      ))

-- The ends of a relation are nodes.
pub contains-build_nodes :
    (nodes : List String) (rels : List Relation) (x y : String)
    → is_related rels x y ≡ true
    → (contains x (build_nodes nodes rels) ≡ true) × (contains y (build_nodes nodes rels) ≡ true)
unfolding build_nodes
contains-build_nodes nodes [] x y h = absurd (cc)
contains-build_nodes nodes (rel ∷ rels) x y h =
    let added = add_node rel.to (add_node rel.from nodes) in
    elim (Bool-cases (rel.from == x && y == rel.to)) [
      | inl e ↦ (
        build_nodes-keeps added rels x (
            ground (
              arith,
              e,
              contains-add_node rel.from x nodes,
              eq_iff rel.from x,
              eq_iff x rel.from,
              contains-add_node rel.to x (add_node rel.from nodes),
            )),
        build_nodes-keeps added rels y
            (ground (arith, e, contains-add_node rel.to y (add_node rel.from nodes))),
      )
      | inr e ↦ contains-build_nodes added rels x y (ground (arith, h, e))
    ]
