-- ===== src/Atlas/Cycles/Visits.antt =====
-- What each visit of the search leaves.
use yby_cli.Prelude.{
  All-append, if◌then◌else◌, zero, equal_refl, ap, insert, ◌+◌, refl, subst, ◌∙◌, length, [], ◌≤◌,
  some, suc, sym, All, ◌∷◌, Option, arith, eq_String, false, contains, true, ℕ, ◌++◌, List, ◌≡◌,
  Dict, String,
}
use yby_cli.Atlas.Cycles.{
  Color, white, gray, black, Search, neighbors, color_of, parent_of, paint, look_at, look_round,
  dfs,
}
use yby_cli.Atlas.Cycles.Walks.{
  has_edge, IsCycle, Linked, Linked-tail, parent_of-insert, Linked-insert,
  reconstruct_cycle-IsCycle,
}
use yby_cli.Atlas.Cycles.Colors.{
  not_black, never_empty, only, both, is_white, is_gray, is_black, color_of-insert, whites,
  whites-insert-le, whites-insert-lt, pale, Grays, Keeps, entered, left, Keeps-gray, Keeps-black,
  Ordered, Ordered-gray, Ordered-black,
}

module _ (graph : Dict String (List String)) (nodes : List String) (steps : ℕ) where
  -- The search stands at the head of the chain, and all it has reported are cycles.
  pub record Stands (chain : List String) (s : Search) : Type 0 where
    pub linked : Linked graph s.parent chain
    pub grays : Grays chain s.color
    pub sound : All (IsCycle graph) s.cycles
    pub tidy : s.cycles ≡ [] → Ordered graph s.color

  -- A visit of some nodes has ended: the search stands where it stood, and the nodes are black unless
  -- a cycle was reported.
  pub record Visited (chain : List String) (s : Search) (ns : List String) (r : Option Search)
      : Type 0 where
    pub after : Search
    pub ended : r ≡ some after
    pub stands : Stands chain after
    pub fewer : whites after.color nodes ≤ whites s.color nodes
    pub keeps : Keeps s.color after.color
    pub grows : after.cycles ≡ [] → s.cycles ≡ []
    pub reached :
        after.cycles ≡ []
        → (n : String) → contains n ns ≡ true
        → is_black (color_of after.color n) ≡ true

  -- The graph has no edge out of the nodes.
  abbrev pub IsClosed : Type 0
  IsClosed = (x y : String) → has_edge graph x y ≡ true → contains y nodes ≡ true

  -- What `dfs` does with some fuel, from a white node whose parents are the chain.
  abbrev pub Searches : ℕ → Type 0
  Searches fuel =
      (node : String) (chain : List String) (s : Search)
      → is_white (color_of s.color node) ≡ true
      → contains node nodes ≡ true
      → Linked graph s.parent (node ∷ chain)
      → Stands chain s
      → whites s.color nodes ≤ fuel
      → length chain + fuel ≤ steps
      → Visited chain s (node ∷ []) (dfs graph steps fuel node s)

  not_in_chain :
      (node : String) (chain : List String) (s : Search)
      → is_gray (color_of s.color node) ≡ false
      → Stands chain s
      → contains node chain ≡ false
  not_in_chain node chain s pale stands = sym (stands.grays node) ∙ pale

  -- One neighbor.
  look_at-Visited :
      (fuel : ℕ) (node neighbor : String) (rest : List String) (s : Search) (c : Color)
      → Searches fuel
      → IsClosed
      → has_edge graph node neighbor ≡ true
      → color_of s.color neighbor ≡ c
      → Stands (node ∷ rest) s
      → whites s.color nodes ≤ fuel
      → length (node ∷ rest) + fuel ≤ steps
      → Visited
          (node ∷ rest)
          s
          (neighbor ∷ [])
          (look_at graph steps (dfs graph steps fuel) node neighbor c s)
  unfolding look_at
  look_at-Visited fuel node neighbor rest s black visit complete edge is stands few deep = record {
    after = s;
    ended = refl;
    stands = stands;
    fewer = omega arith;
    keeps = λ m h. h;
    grows = λ h. h;
    reached = λ h n inside.
        subst (λ x. is_black (color_of s.color x) ≡ true) (sym (only n neighbor inside))
          (ap is_black is);
  }
  look_at-Visited fuel node neighbor rest s white visit complete edge is stands few deep =
      let t : Search = record s { parent = insert neighbor node s.parent } in
      let out = not_in_chain neighbor (node ∷ rest) s (rw is refl) stands in
      let linked = Linked-insert graph s.parent neighbor node (node ∷ rest) out stands.linked in
      let up : parent_of t.parent neighbor ≡ node =
        parent_of-insert graph s.parent neighbor neighbor node
        ∙ ap (λ b. if b then node else parent_of s.parent neighbor) (equal_refl neighbor) in
      let v =
        visit neighbor (node ∷ rest) t (rw is refl) (complete node neighbor edge) (up, edge, linked)
          (record {
            linked = linked;
            grays = stands.grays;
            sound = stands.sound;
            tidy = stands.tidy;
          })
          few deep in
      record {
        after = v.after;
        ended = v.ended;
        stands = v.stands;
        fewer = v.fewer;
        keeps = v.keeps;
        grows = v.grows;
        reached = v.reached;
      }
  look_at-Visited fuel node neighbor rest s gray visit complete edge is stands few deep =
      let inside : contains neighbor (node ∷ rest) ≡ true =
        sym (stands.grays neighbor) ∙ ap is_gray is in
      let (cycle, found, closes) =
        reconstruct_cycle-IsCycle graph steps s.parent neighbor node rest inside
          (omega (arith, deep)) stands.linked edge in
      record {
        after = record s { cycles = s.cycles ++ cycle ∷ [] };
        ended = rw (found, look_at) refl;
        stands = record {
          linked = stands.linked;
          grays = stands.grays;
          sound = All-append (IsCycle graph) s.cycles (cycle ∷ []) stands.sound (closes, tt);
          tidy = λ h. absurd (never_empty s.cycles cycle h);
        };
        fewer = omega arith;
        keeps = λ m h. h;
        grows = λ h. absurd (never_empty s.cycles cycle h);
        reached = λ h. absurd (never_empty s.cycles cycle h);
      }

  -- All the neighbors of the head of the chain.
  look_round-Visited :
      (fuel : ℕ) (node : String) (rest ns : List String) (s : Search)
      → Searches fuel
      → IsClosed
      → ((n : String) → contains n ns ≡ true → has_edge graph node n ≡ true)
      → Stands (node ∷ rest) s
      → whites s.color nodes ≤ fuel
      → length (node ∷ rest) + fuel ≤ steps
      → Visited (node ∷ rest) s ns (look_round graph steps (dfs graph steps fuel) node ns s)
  unfolding look_round
  look_round-Visited fuel node rest [] s visit complete edges stands few deep = record {
    after = s;
    ended = refl;
    stands = stands;
    fewer = omega arith;
    keeps = λ m h. h;
    grows = λ h. h;
    reached = λ h n inside. absurd (cc);
  }
  look_round-Visited fuel node rest (n ∷ ns) s visit complete edges stands few deep =
      let here : contains n (n ∷ ns) ≡ true = rw (equal_refl n) refl in
      let v =
        look_at-Visited fuel node n rest s (color_of s.color n) visit complete (edges n here) refl
          stands few deep in
      let later : (m : String) → contains m ns ≡ true → has_edge graph node m ≡ true =
        λ m inside. edges m (ground (arith, inside)) in
      let u =
        look_round-Visited fuel node rest ns v.after visit complete later v.stands
          (omega (arith, few, v.fewer)) deep in
      record {
        after = u.after;
        ended = rw (v.ended, look_round) u.ended;
        stands = u.stands;
        fewer = omega (arith, u.fewer, v.fewer);
        keeps = λ m h. u.keeps m (v.keeps m h);
        grows = λ h. v.grows (u.grows h);
        reached = λ h.
            both v.after.color u.after.color n ns u.keeps (v.reached (u.grows h)) (u.reached h);
      }

  -- With fuel for the nodes that are white, `dfs` ends.
  pub dfs-Searches : (fuel : ℕ) → IsClosed → Searches fuel
  unfolding dfs
  dfs-Searches zero complete node chain s fresh inside linked stands few deep =
      absurd (omega (arith, few, whites-insert-lt s.color node gray nodes refl fresh inside))
  dfs-Searches (suc fuel) complete node chain s fresh inside linked stands few deep =
      let gone = whites-insert-lt s.color node gray nodes refl fresh inside in
      let out = not_in_chain node chain s (pale (color_of s.color node) fresh) stands in
      let new = not_black (color_of s.color node) fresh in
      let v =
        look_round-Visited fuel node chain (neighbors graph node) (paint node gray s)
          (dfs-Searches fuel complete) complete (λ n h. h)
          (record {
            linked = linked;
            grays = entered chain s.color node stands.grays;
            sound = stands.sound;
            tidy = λ h. Ordered-gray graph s.color node new (stands.tidy h);
          })
          (omega (arith, few, gone)) (omega (arith, deep)) in
      record {
        after = paint node black v.after;
        ended = rw (v.ended, dfs) refl;
        stands = record {
          linked = Linked-tail graph v.after.parent node chain v.stands.linked;
          grays = left chain v.after.color node out v.stands.grays;
          sound = v.stands.sound;
          tidy = λ h. Ordered-black graph v.after.color node (v.reached h) (v.stands.tidy h);
        };
        fewer = omega (arith, gone, v.fewer, whites-insert-le v.after.color node black nodes refl);
        keeps =
            λ m h. Keeps-black v.after.color node m (v.keeps m (Keeps-gray s.color node new m h));
        grows = v.grows;
        reached = λ h n inside.
            subst (λ x. is_black (color_of (insert node black v.after.color) x) ≡ true)
              (sym (only n node inside))
              (rw (color_of-insert v.after.color node node black, equal_refl node) refl);
      }
