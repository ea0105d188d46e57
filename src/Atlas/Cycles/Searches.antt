-- ===== src/Atlas/Cycles/Searches.antt =====
-- The search from all the nodes.
use yby_cli.Prelude.{
  subst, inr, equal_refl, inl, eq_String, Bool-cases, length-filter-le, ◌∷◌, arith, ◌≤◌, length, [],
  lookup, contains, ℕ, refl, List, sym, true, false, String, Dict, ◌≡◌,
}
use yby_cli.Atlas.Cycles.{Color, white, gray, black, Search, color_of, dfs_all, no_search}
use yby_cli.Atlas.Cycles.Colors.{only, both, is_white, is_gray, is_black, whites}
use yby_cli.Atlas.Cycles.Visits.{Stands, Visited, IsClosed, dfs-Searches}

dark_black : (c : Color) → is_white c ≡ false → is_gray c ≡ false → is_black c ≡ true
dark_black white h g = sym h
dark_black gray h g = sym g
dark_black black h g = refl

white_is : (c : Color) → is_white c ≡ true → c ≡ white
white_is white h = refl
white_is gray h = absurd (cc)
white_is black h = absurd (cc)

black_is : (c : Color) → is_black c ≡ true → c ≡ black
black_is white h = absurd (cc)
black_is gray h = absurd (cc)
black_is black h = refl

module _ (graph : Dict String (List String)) (nodes : List String) (steps : ℕ) where
  dfs_all-Visited :
      (ns : List String) (s : Search)
      → IsClosed graph nodes steps
      → ((n : String) → contains n ns ≡ true → contains n nodes ≡ true)
      → Stands graph nodes steps [] s
      → whites s.color nodes ≤ steps
      → Visited graph nodes steps [] s ns (dfs_all graph steps ns s)
  unfolding dfs_all
  dfs_all-Visited [] s complete inside stands few = record {
    after = s;
    ended = refl;
    stands = stands;
    fewer = omega arith;
    keeps = λ m h. h;
    grows = λ h. h;
    reached = λ h n there. absurd (cc);
  }
  dfs_all-Visited (n ∷ ns) s complete inside stands few =
      let later : (m : String) → contains m ns ≡ true → contains m nodes ≡ true =
        λ m there. inside m (ground (arith, there)) in
      elim (Bool-cases (is_white (color_of s.color n))) [
        | inl h ↦
            let v =
              dfs-Searches graph nodes steps steps complete n [] s h
                (inside n (rw (equal_refl n) refl)) tt stands few (omega arith) in
            let u =
              dfs_all-Visited ns v.after complete later v.stands (omega (arith, few, v.fewer)) in
            record {
              after = u.after;
              ended = rw (white_is (color_of s.color n) h, v.ended, dfs_all) u.ended;
              stands = u.stands;
              fewer = omega (arith, u.fewer, v.fewer);
              keeps = λ m h. u.keeps m (v.keeps m h);
              grows = λ h. v.grows (u.grows h);
              reached = λ h.
                  both v.after.color u.after.color n ns u.keeps (v.reached (u.grows h))
                    (u.reached h);
            }
        | inr h ↦
            let u = dfs_all-Visited ns s complete later stands few in
            let done = dark_black (color_of s.color n) h (stands.grays n) in
            record {
              after = u.after;
              ended = rw (black_is (color_of s.color n) done, dfs_all) u.ended;
              stands = u.stands;
              fewer = u.fewer;
              keeps = u.keeps;
              grows = u.grows;
              reached = λ h.
                  both s.color u.after.color n ns u.keeps
                    (λ m there.
                      subst (λ x. is_black (color_of s.color x) ≡ true) (sym (only m n there)) done)
                    (u.reached h);
            }
      ]

  pub dfs_all-from_start :
      (ns : List String)
      → length nodes ≤ steps
      → IsClosed graph nodes steps
      → ((n : String) → contains n ns ≡ true → contains n nodes ≡ true)
      → Visited graph nodes steps [] no_search ns (dfs_all graph steps ns no_search)
  unfolding whites color_of lookup
  dfs_all-from_start ns enough complete inside =
      dfs_all-Visited ns no_search complete inside
        (record {
          linked = tt;
          grays = λ m. refl;
          sound = tt;
          tidy = λ h. record { order = []; sorted = tt; blacks = λ m. refl };
        })
        (omega (arith, enough, length-filter-le (λ n. is_white (color_of [] n)) nodes))
