-- ===== src/Ai/EmbeddingCache/Elements.antt =====
-- The elements of the embedding cache: finding, removing, and taking the oldest off.
use yby_cli.Prelude.{
  ◌-◌, ◌≤◌, ◌<◌, ◌≡◌, ◌≢◌, refl, sym, ap, ◌∙◌, String, Bool, true, false, ◌||◌, List, [], ◌∷◌, none,
  some, contains, length, arith, ◌==◌, eq_String, eq_iff, if◌then◌else◌, Bool-cases, inl, inr,
}
use yby_cli.Ai.EmbeddingCache.{CacheEntry, element, remove_element, delete_item, back, remove_back}

pub contains-delete_item :
    (j k : String) (ks : List String)
    → contains k (delete_item j ks) ≡ (if j == k then false else contains k ks)
unfolding delete_item
contains-delete_item j k [] = ground arith
contains-delete_item j k (i ∷ ks) =
    ground (arith, eq_iff j i, eq_iff k i, eq_iff j k, contains-delete_item j k ks)

pub some_inj : {A : Type 0} {a b : A} → some a ≡ some b → a ≡ b
some_inj h = cc

or_false : (b : Bool) → (b || false) ≡ b
or_false true = refl
or_false false = refl

module _ {V : Type 0} where
  -- whether a list has an element for the key
  abbrev pub has : String → List (CacheEntry V) → Bool
  has k [] = false
  has k (e ∷ es) = k == e.key || has k es

  pub element-remove_element :
      (j k : String) (es : List (CacheEntry V))
      → element k (remove_element j es) ≡ (if j == k then none else element k es)
  unfolding element remove_element
  element-remove_element j k [] = ground arith
  element-remove_element j k (e ∷ es) =
      ground (arith, eq_iff j e.key, eq_iff k e.key, eq_iff j k, element-remove_element j k es)

  pub has-element : (k : String) (es : List (CacheEntry V)) → element k es ≡ none → has k es ≡ false
  unfolding element
  has-element k [] h = refl
  has-element k (e ∷ es) h = ground (arith, has-element k es)

  pub has-remove_element :
      (j k : String) (es : List (CacheEntry V))
      → has k (remove_element j es) ≡ (if j == k then false else has k es)
  unfolding remove_element
  has-remove_element j k [] = ground arith
  has-remove_element j k (e ∷ es) =
      ground (arith, eq_iff j e.key, eq_iff k e.key, eq_iff j k, has-remove_element j k es)

  pub length-remove_element :
      (j : String) (es : List (CacheEntry V)) → length (remove_element j es) ≤ length es
  unfolding remove_element
  length-remove_element j [] = omega arith
  length-remove_element j (e ∷ es) = ground (arith, length-remove_element j es)

  pub length-remove_element-lt :
      (j : String) (es : List (CacheEntry V))
      → has j es ≡ true
      → length (remove_element j es) < length es
  unfolding remove_element
  length-remove_element-lt j [] h = cc
  length-remove_element-lt j (e ∷ es) h =
      ground (arith, length-remove_element j es, length-remove_element-lt j es)

  -- Taking the last element off.
  pub back-none : (es : List (CacheEntry V)) → back es ≡ none → length es ≡ 0
  unfolding back
  back-none [] h = refl
  back-none (e ∷ []) h = cc
  back-none (e ∷ f ∷ es) h = absurd (back_some (f ∷ es) (omega arith) h)
    where
      back_some : (es : List (CacheEntry V)) → 0 < length es → back es ≢ none
      back_some [] l h = absurd (omega arith)
      back_some (e ∷ []) l h = cc
      back_some (e ∷ f ∷ es) l h = back_some (f ∷ es) (omega arith) h

  pub key-element :
      (k : String) (es : List (CacheEntry V)) (e : CacheEntry V) → element k es ≡ some e → e.key ≡ k
  unfolding element
  key-element k [] e h = cc
  key-element k (f ∷ es) e h = elim (Bool-cases (k == f.key)) [
    | inl hit ↦
        ap (λ x. x.key)
          (sym (some_inj (sym (ap (λ b. if b then some f else element k es) hit) ∙ h)))
        ∙ sym ((eq_iff k f.key).0 hit)
    | inr miss ↦ key-element k es e (sym (ap (λ b. if b then some f else element k es) miss) ∙ h)
  ]

  pub length-remove_back : (es : List (CacheEntry V)) → length (remove_back es) ≡ length es - 1
  unfolding remove_back
  length-remove_back [] = omega arith
  length-remove_back (e ∷ []) = omega arith
  length-remove_back (e ∷ f ∷ es) = omega (arith, length-remove_back (f ∷ es))

  pub has-remove_back :
      (k : String) (es : List (CacheEntry V)) (oldest : CacheEntry V)
      → back es ≡ some oldest
      → has k es ≡ (has k (remove_back es) || k == oldest.key)
  unfolding back remove_back
  has-remove_back k [] oldest h = cc
  has-remove_back k (e ∷ []) oldest h =
      ap (λ o. k == o.key || false) (some_inj h) ∙ or_false (k == oldest.key)
  has-remove_back k (e ∷ f ∷ es) oldest h = ground (arith, has-remove_back k (f ∷ es) oldest h)

  pub element-remove_back :
      (k : String) (es : List (CacheEntry V)) (e : CacheEntry V)
      → element k (remove_back es) ≡ some e
      → element k es ≡ some e
  unfolding element remove_back
  element-remove_back k [] e h = h
  element-remove_back k (f ∷ []) e h = absurd (cc)
  element-remove_back k (f ∷ g ∷ es) e h = elim (Bool-cases (k == f.key)) [
    | inl hit ↦
        rw hit (sym (ap (λ b. if b then some f else element k (remove_back (g ∷ es))) hit) ∙ h)
    | inr miss ↦ rw miss (
        element-remove_back k (g ∷ es) e
          (sym (ap (λ b. if b then some f else element k (remove_back (g ∷ es))) miss) ∙ h))
  ]
