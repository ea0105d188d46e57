-- ===== src/Atlas/Cycles/Orders.antt =====
-- Where the nodes got black in an order, no walk among them comes back.
use yby_cli.Prelude.{
  arith, inr, eq_iff, sym, inl, eq_String, ◌==◌, subst, [], Bool-cases, true, ◌++◌, ◌≡◌, ◌∷◌,
  contains, List, String, Dict,
}
use yby_cli.Atlas.Cycles.Walks.{has_edge, IsWalk}
use yby_cli.Atlas.Cycles.Colors.{Sorted}

module _ (graph : Dict String (List String)) where
  -- The nodes of the order have no edge out of them.
  Sorted-closed :
      (order : List String) (x y : String)
      → Sorted graph order
      → contains x order ≡ true
      → has_edge graph x y ≡ true
      → contains y order ≡ true
  Sorted-closed [] x y h inside edge = absurd (cc)
  Sorted-closed (o ∷ order) x y (leads, h) inside edge = elim (Bool-cases (x == o)) [
    | inl e ↦
        let from : has_edge graph o y ≡ true =
          subst (λ z. has_edge graph z y ≡ true) ((eq_iff x o).0 e) edge in
        let there = leads y from in ground (arith, there)
    | inr e ↦
        let there = Sorted-closed order x y h (ground (arith, inside, e)) edge in
        ground (arith, there)
  ]

  -- A walk stays among them.
  Sorted-walk :
      (order : List String) (x : String) (middle : List String) (y : String)
      → Sorted graph order
      → contains x order ≡ true
      → IsWalk graph (x ∷ middle ++ y ∷ [])
      → contains y order ≡ true
  Sorted-walk order x [] y h inside (edge, walk) = Sorted-closed order x y h inside edge
  Sorted-walk order x (z ∷ middle) y h inside (edge, walk) =
      Sorted-walk order z middle y h (Sorted-closed order x z h inside edge) walk

  -- After the node itself, a walk from the first node of the order is among the rest.
  walk_from :
      (order : List String) (o x : String) (middle : List String) (y : String)
      → Sorted graph (o ∷ order)
      → o ≡ x
      → IsWalk graph (x ∷ middle ++ y ∷ [])
      → contains y order ≡ true
  walk_from order o x [] y (leads, h) same (edge, walk) =
      leads y (subst (λ z. has_edge graph z y ≡ true) (sym same) edge)
  walk_from order o x (z ∷ middle) y (leads, h) same (edge, walk) =
      Sorted-walk order z middle y h
        (leads z (subst (λ w. has_edge graph w z ≡ true) (sym same) edge)) walk

  pub Sorted-no_return :
      (order : List String) (x : String) (middle : List String)
      → Sorted graph order
      → contains x order ≡ true
      → IsWalk graph (x ∷ middle ++ x ∷ [])
      → ⊥
  Sorted-no_return [] x middle h inside walk = absurd (cc)
  Sorted-no_return (o ∷ order) x middle h inside walk = elim (Bool-cases (x == o)) [
    | inl e ↦
        Sorted-no_return order x middle h.1
          (walk_from order o x middle x h (sym ((eq_iff x o).0 e)) walk) walk
    | inr e ↦ Sorted-no_return order x middle h.1 (ground (arith, inside, e)) walk
  ]
