-- ===== src/Atlas/Cycles/Colors.antt =====
-- The colors of the search: how many nodes are white, which are gray, in which order they got black.
use yby_cli.Prelude.{
  ◌++◌, lookup-insert, inr, subst, eq_iff, ap, inl, ◌∙◌, ◌==◌, arith, filter, refl, ◌≤◌, eq_String,
  ◌+◌, Bool-cases, if◌then◌else◌, [], length, sym, false, ◌∷◌, ℕ, contains, insert, true, String,
  ◌≡◌, List, Bool, Dict,
}
use yby_cli.Atlas.Cycles.{Color, white, gray, black, color_of}
use yby_cli.Atlas.Cycles.Walks.{has_edge}

abbrev pub is_white : Color → Bool
is_white white = true
is_white c = false

abbrev pub is_gray : Color → Bool
is_gray gray = true
is_gray c = false

abbrev pub is_black : Color → Bool
is_black black = true
is_black c = false

pub color_of-insert :
    (colors : Dict String Color) (node other : String) (c : Color)
    → color_of (insert node c colors) other ≡ (if node == other then c else color_of colors other)
unfolding color_of
color_of-insert colors node other c = elim (Bool-cases (node == other)) [
  | inl h ↦ rw (lookup-insert node other c colors, h, color_of) refl
  | inr h ↦ rw (lookup-insert node other c colors, h, color_of) refl
]

-- How many nodes have not been visited.
unfoldable pub whites : Dict String Color → List String → ℕ
whites colors nodes = length (filter (λ n. is_white (color_of colors n)) nodes)

pub whites-insert-le :
    (colors : Dict String Color) (node : String) (c : Color) (nodes : List String)
    → is_white c ≡ false
    → whites (insert node c colors) nodes ≤ whites colors nodes
unfolding whites
whites-insert-le colors node c [] dark = omega arith
whites-insert-le colors node c (x ∷ nodes) dark =
    rw (color_of-insert colors node x c)
      (ground (arith, dark, whites-insert-le colors node c nodes dark))

pub whites-insert-lt :
    (colors : Dict String Color) (node : String) (c : Color) (nodes : List String)
    → is_white c ≡ false
    → is_white (color_of colors node) ≡ true
    → contains node nodes ≡ true
    → whites (insert node c colors) nodes + 1 ≤ whites colors nodes
unfolding whites
whites-insert-lt colors node c [] dark fresh inside = absurd (cc)
whites-insert-lt colors node c (x ∷ nodes) dark fresh inside =
    rw (color_of-insert colors node x c) (elim (Bool-cases (node == x)) [
      | inl h ↦
          let same : is_white (color_of colors x) ≡ true =
            subst (λ y. is_white (color_of colors y) ≡ true) ((eq_iff node x).0 h) fresh in
          rw h (ground (arith, dark, same, whites-insert-le colors node c nodes dark))
      | inr h ↦
          let there : contains node nodes ≡ true = ground (arith, inside, h) in
          rw h (ground (arith, whites-insert-lt colors node c nodes dark fresh there))
    ])

pub pale : (c : Color) → is_white c ≡ true → is_gray c ≡ false
pale white h = refl
pale gray h = sym h
pale black h = refl

-- The gray nodes are those of the chain.
abbrev pub Grays : List String → Dict String Color → Type 0
Grays chain colors = (m : String) → is_gray (color_of colors m) ≡ contains m chain

-- What stays black.
abbrev pub Keeps : Dict String Color → Dict String Color → Type 0
Keeps colors later =
    (m : String) → is_black (color_of colors m) ≡ true → is_black (color_of later m) ≡ true

pub entered :
    (chain : List String) (colors : Dict String Color) (node : String)
    → Grays chain colors
    → Grays (node ∷ chain) (insert node gray colors)
entered chain colors node h m =
    rw (color_of-insert colors node m gray) (elim (Bool-cases (node == m)) [
      | inl e ↦ rw e (ground (arith, e, eq_iff node m, eq_iff m node))
      | inr e ↦ rw e (ground (arith, h m, e, eq_iff node m, eq_iff m node))
    ])

pub left :
    (chain : List String) (colors : Dict String Color) (node : String)
    → contains node chain ≡ false
    → Grays (node ∷ chain) colors
    → Grays chain (insert node black colors)
left chain colors node out h m =
    rw (color_of-insert colors node m black) (elim (Bool-cases (node == m)) [
      | inl e ↦ rw e (sym (subst (λ x. contains x chain ≡ false) ((eq_iff node m).0 e) out))
      | inr e ↦ rw e (ground (arith, h m, e, eq_iff node m, eq_iff m node))
    ])

pub Keeps-gray :
    (colors : Dict String Color) (node : String)
    → is_black (color_of colors node) ≡ false
    → Keeps colors (insert node gray colors)
Keeps-gray colors node fresh m h =
    rw (color_of-insert colors node m gray) (elim (Bool-cases (node == m)) [
      | inl e ↦ absurd (
          let same =
            subst (λ x. is_black (color_of colors x) ≡ false) ((eq_iff node m).0 e) fresh in
          cc)
      | inr e ↦ rw e h
    ])

pub Keeps-black :
    (colors : Dict String Color) (node : String) → Keeps colors (insert node black colors)
Keeps-black colors node m h =
    rw (color_of-insert colors node m black)
      (elim (Bool-cases (node == m)) [ inl e ↦ rw e refl | inr e ↦ rw e h ])

pub not_black : (c : Color) → is_white c ≡ true → is_black c ≡ false
not_black white h = refl
not_black gray h = refl
not_black black h = sym h

-- A list with one more element is not empty.
pub never_empty : (l : List (List String)) (x : List String) → l ++ x ∷ [] ≡ [] → ⊥
never_empty [] x h = absurd (cc)
never_empty (y ∷ l) x h = absurd (cc)

-- Membership in a list of one.
pub only : (n x : String) → contains n (x ∷ []) ≡ true → n ≡ x
only n x h = (eq_iff n x).0 (ground (arith, h))

-- What is black after the first of some nodes, and after the others.
pub both :
    (colors later : Dict String Color) (x : String) (ns : List String)
    → Keeps colors later
    → ((n : String) → contains n (x ∷ []) ≡ true → is_black (color_of colors n) ≡ true)
    → ((n : String) → contains n ns ≡ true → is_black (color_of later n) ≡ true)
    → (n : String) → contains n (x ∷ ns) ≡ true
    → is_black (color_of later n) ≡ true
both colors later x ns keeps first others n inside = elim (Bool-cases (n == x)) [
  | inl h ↦ keeps n (first n (rw h refl))
  | inr h ↦ others n (ground (arith, inside, h))
]

module _ (graph : Dict String (List String)) where
  -- The black nodes, the last to be finished first: an edge leads to a node that was finished before.
  abbrev pub Sorted : List String → Type 0
  Sorted [] = Unit
  Sorted (x ∷ order) =
      ((y : String) → has_edge graph x y ≡ true → contains y order ≡ true) × Sorted order

  pub record Ordered (colors : Dict String Color) : Type 0 where
    pub order : List String
    pub sorted : Sorted order
    pub blacks : (m : String) → is_black (color_of colors m) ≡ contains m order

  pub Ordered-gray :
      (colors : Dict String Color) (node : String)
      → is_black (color_of colors node) ≡ false
      → Ordered colors
      → Ordered (insert node gray colors)
  Ordered-gray colors node fresh o = record {
    order = o.order;
    sorted = o.sorted;
    blacks = λ m. rw (color_of-insert colors node m gray) (elim (Bool-cases (node == m)) [
      | inl e ↦
          rw e (sym fresh ∙ o.blacks node ∙ ap (λ x. contains x o.order) ((eq_iff node m).0 e))
      | inr e ↦ rw e (o.blacks m)
    ]);
  }

  pub Ordered-black :
      (colors : Dict String Color) (node : String)
      → ((y : String) → has_edge graph node y ≡ true → is_black (color_of colors y) ≡ true)
      → Ordered colors
      → Ordered (insert node black colors)
  Ordered-black colors node done o = record {
    order = node ∷ o.order;
    sorted = (λ y edge. sym (o.blacks y) ∙ done y edge, o.sorted);
    blacks = λ m. rw (color_of-insert colors node m black) (elim (Bool-cases (node == m)) [
      | inl e ↦ rw e (ground (arith, e, eq_iff node m, eq_iff m node))
      | inr e ↦ rw e (ground (arith, o.blacks m, e, eq_iff node m, eq_iff m node))
    ]);
  }
