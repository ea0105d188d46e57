-- ===== src/Atlas/Cycles/Walks.antt =====
-- Walks of a graph, forwards and along the parents of a search.
use yby_cli.Prelude.{
  append_assoc, eq_iff, sym, ap, subst, zero, some, suc, ◌≤◌, length, ℕ, arith, refl, inr,
  lookup-insert, inl, Bool-cases, ◌==◌, if◌then◌else◌, eq_String, ◌∙◌, true, insert, false, [],
  contains, ◌≡◌, ◌∷◌, Bool, ◌++◌, List, String, Dict,
}
use yby_cli.Atlas.Cycles.{closed, reconstruct_cycle, reverse, climb, neighbors, parent_of}

module _ (edge : String → String → Bool) where
  -- consecutive nodes have an edge
  abbrev pub IsWalkOf : List String → Type 0
  IsWalkOf [] = Unit
  IsWalkOf (x ∷ []) = Unit
  IsWalkOf (x ∷ y ∷ rest) = (edge x y ≡ true) × IsWalkOf (y ∷ rest)

  -- A walk that comes back to where it starts.
  abbrev pub IsCycleOf : List String → Type 0
  IsCycleOf path =
      (start : String) × (middle : List String) × (path ≡ (start ∷ middle) ++ start ∷ [])
      × IsWalkOf path

module _ (graph : Dict String (List String)) where
  abbrev pub has_edge : String → String → Bool
  has_edge x y = contains y (neighbors graph x)

  abbrev pub IsWalk : List String → Type 0
  IsWalk path = IsWalkOf has_edge path

  abbrev pub IsCycle : List String → Type 0
  IsCycle path = IsCycleOf has_edge path

  -- The search has come from each node of the chain's rest to the one before it.
  abbrev pub Linked : Dict String String → List String → Type 0
  Linked parents [] = Unit
  Linked parents (x ∷ []) = Unit
  Linked parents (x ∷ y ∷ rest) =
      (parent_of parents x ≡ y) × (has_edge y x ≡ true) × Linked parents (y ∷ rest)

  pub Linked-tail :
      (parents : Dict String String) (x : String) (chain : List String)
      → Linked parents (x ∷ chain)
      → Linked parents chain
  Linked-tail parents x [] h = tt
  Linked-tail parents x (y ∷ rest) h = h.2

  pub parent_of-insert :
      (parents : Dict String String) (node other value : String)
      → parent_of (insert node value parents) other
        ≡ (if node == other then value else parent_of parents other)
  unfolding parent_of
  parent_of-insert parents node other value = elim (Bool-cases (node == other)) [
    | inl h ↦ rw (lookup-insert node other value parents, h, parent_of) refl
    | inr h ↦ rw (lookup-insert node other value parents, h, parent_of) refl
  ]

  -- Giving a parent to a node outside the chain.
  pub Linked-insert :
      (parents : Dict String String) (node value : String) (chain : List String)
      → contains node chain ≡ false
      → Linked parents chain
      → Linked (insert node value parents) chain
  Linked-insert parents node value [] out h = tt
  Linked-insert parents node value (x ∷ []) out h = tt
  Linked-insert parents node value (x ∷ y ∷ rest) out (p, e, h) = (
    parent_of-insert parents node x value ∙ ground (arith, out, p),
    e,
    Linked-insert parents node value (y ∷ rest) (ground (arith, out)) h,
  )

  -- A walk that is continued.
  IsWalk-append :
      (before : List String) (x y : String) (after : List String)
      → IsWalk (before ++ x ∷ [])
      → has_edge x y ≡ true
      → IsWalk (y ∷ after)
      → IsWalk (before ++ x ∷ y ∷ after)
  IsWalk-append [] x y after h e g = (e, g)
  IsWalk-append (b ∷ []) x y after (s, h) e g = (s, (e, g))
  IsWalk-append (b ∷ c ∷ before) x y after (s, h) e g =
      (s, IsWalk-append (c ∷ before) x y after h e g)

  -- What the climb from a node to a start in its chain gives: a walk the other way round, from the
  -- start to the node.
  pub record Climbed (parents : Dict String String) (start node : String) (fuel : ℕ) : Type 0 where
    pub path : List String
    pub climbs : climb fuel parents start node ≡ some path
    pub walks : IsWalk (reverse (path ++ start ∷ []))
    pub middle : List String
    pub starts : reverse (path ++ start ∷ []) ≡ start ∷ middle
    pub before : List String
    pub ends : reverse (path ++ start ∷ []) ≡ before ++ node ∷ []

  climb-here :
      (parents : Dict String String) (start node : String) (fuel : ℕ)
      → (node == start) ≡ true
      → Climbed parents start node fuel
  unfolding reverse climb
  climb-here parents start node fuel here = record {
    path = [];
    climbs = found fuel;
    walks = tt;
    middle = [];
    starts = refl;
    before = [];
    ends = ap (λ x. x ∷ []) (sym ((eq_iff node start).0 here));
  }
    where
      found : (n : ℕ) → climb n parents start node ≡ some []
      found zero = rw (here, climb) refl
      found (suc n) = rw (here, climb) refl

  climb-further :
      (parents : Dict String String) (start node next : String) (fuel : ℕ)
      → (node == start) ≡ false
      → parent_of parents node ≡ next
      → has_edge next node ≡ true
      → Climbed parents start next fuel
      → Climbed parents start node (suc fuel)
  unfolding reverse climb
  climb-further parents start node next fuel away up edge c =
      let back = reverse (c.path ++ start ∷ []) in
      let longer = IsWalk-append c.before next node [] (subst IsWalk c.ends c.walks) edge tt in
      record {
        path = node ∷ c.path;
        climbs = rw (away, up, c.climbs, climb) refl;
        walks =
            subst IsWalk
              (sym (append_assoc c.before (next ∷ []) (node ∷ []))
                ∙ ap (λ l. l ++ node ∷ []) (sym c.ends))
              longer;
        middle = c.middle ++ node ∷ [];
        starts = ap (λ l. l ++ node ∷ []) c.starts;
        before = back;
        ends = refl;
      }

  climb-Climbed :
      (parents : Dict String String) (start node : String) (rest : List String) (fuel : ℕ)
      → contains start (node ∷ rest) ≡ true
      → length (node ∷ rest) ≤ suc fuel
      → Linked parents (node ∷ rest)
      → Climbed parents start node fuel
  climb-Climbed parents start node [] fuel inside short linked =
      climb-here parents start node fuel
        (ground (arith, inside, eq_iff start node, eq_iff node start))
  climb-Climbed parents start node (y ∷ rest) zero inside short linked =
      absurd (omega (arith, short))
  climb-Climbed parents start node (y ∷ rest) (suc fuel) inside short linked =
      elim (Bool-cases (node == start)) [
        | inl h ↦ climb-here parents start node (suc fuel) h
        | inr h ↦ climb-further parents start node y fuel h linked.0 linked.1 (
            climb-Climbed parents start y rest fuel
              (ground (arith, inside, eq_iff start node, eq_iff node start)) (omega (arith, short))
              linked.2)
      ]

  -- The back edge from the node of the chain's head to a start in the chain closes a cycle.
  pub reconstruct_cycle-IsCycle :
      (steps : ℕ) (parents : Dict String String) (start node : String) (rest : List String)
      → contains start (node ∷ rest) ≡ true
      → length (node ∷ rest) ≤ suc steps
      → Linked parents (node ∷ rest)
      → has_edge node start ≡ true
      → (cycle : List String) × (reconstruct_cycle steps parents start node ≡ some cycle)
        × IsCycle cycle
  unfolding reconstruct_cycle closed
  reconstruct_cycle-IsCycle steps parents start node rest inside short linked edge =
      elim (Bool-cases (start == node)) [
        | inl h ↦
            let loop : has_edge start start ≡ true =
              subst (λ x. has_edge x start ≡ true) (sym ((eq_iff start node).0 h)) edge in
            (start ∷ start ∷ [], rw (h, reconstruct_cycle) refl, (start, [], refl, (loop, tt)))
        | inr h ↦
            let c = climb-Climbed parents start node rest steps inside short linked in
            let around = reverse (c.path ++ start ∷ []) ++ start ∷ [] in
            let walk = IsWalk-append c.before node start [] (subst IsWalk c.ends c.walks) edge tt in
            (
              around,
              rw (h, c.climbs, reconstruct_cycle, closed) refl,
              (
                start,
                c.middle,
                ap (λ l. l ++ start ∷ []) c.starts,
                subst IsWalk
                    (sym (append_assoc c.before (node ∷ []) (start ∷ []))
                      ∙ ap (λ l. l ++ start ∷ []) (sym c.ends))
                    walk,
              ),
            )
      ]
