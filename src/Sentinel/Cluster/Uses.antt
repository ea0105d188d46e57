-- ===== src/Sentinel/Cluster/Uses.antt =====
-- Which references the set of the images holds.
use yby_cli.Prelude.{
  true, ap, false, refl, sym, eq_iff, ◌∙◌, eq_String, ◌==◌, Bool-cases, inl, inr, [], ◌≡◌, ◌∷◌, ◌⊎◌,
  flat_map, map, ◌↔◌, Dict, ◌++◌, insert, String, List, lookup,
}
use yby_cli.Sentinel.Cluster.Images.{refs_of, image_set}
use yby_cli.Sentinel.Cluster.Iffs.{iff_trans, either_iff, Some}

pub Some-append :
    {A : Type 0} (P : A → Type 0) (xs ys : List A) → Some P (xs ++ ys) ↔ (Some P xs ⊎ Some P ys)
Some-append P [] ys = (λ h. inr h, λ h. elim h [ inl x ↦ absurd x | inr y ↦ y ])
Some-append P (x ∷ xs) ys = (
  λ h. elim h [
    | inl p ↦ inl (inl p)
    | inr q ↦ elim ((Some-append P xs ys).0 q) [ inl a ↦ inl (inr a) | inr b ↦ inr b ]
  ],
  λ h. elim h [
    | inl (inl p) ↦ inl p
    | inl (inr a) ↦ inr ((Some-append P xs ys).1 (inl a))
    | inr b ↦ inr ((Some-append P xs ys).1 (inr b))
  ],
)

pub Some-flat_map :
    {A B : Type 0} (P : B → Type 0) (f : A → List B) (xs : List A)
    → Some P (flat_map f xs) ↔ Some (λ x. Some P (f x)) xs
Some-flat_map P f [] = (λ h. h, λ h. h)
Some-flat_map P f (x ∷ xs) =
    iff_trans (Some-append P (f x) (flat_map f xs))
      (either_iff (λ h. h, λ h. h) (Some-flat_map P f xs))

pub Some-map :
    {A B : Type 0} (P : B → Type 0) (f : A → B) (xs : List A)
    → Some P (map f xs) ↔ Some (λ x. P (f x)) xs
Some-map P f [] = (λ h. h, λ h. h)
Some-map P f (x ∷ xs) = either_iff (λ h. h, λ h. h) (Some-map P f xs)

pub Some-iff :
    {A : Type 0} (P Q : A → Type 0) (xs : List A) → ((x : A) → P x ↔ Q x) → Some P xs ↔ Some Q xs
Some-iff P Q [] h = (λ x. x, λ x. x)
Some-iff P Q (x ∷ xs) h = either_iff (h x) (Some-iff P Q xs h)

-- Some entry of the map has the image, and the reference in its list.
abbrev pub Listed : String → String → Dict String (List String) → Type 0
Listed image ref found = Some (λ e. (e.0 ≡ image) × Some (λ r. r ≡ ref) e.1) found

either_assoc : {P Q R : Type 0} → (P ⊎ (Q ⊎ R)) ↔ ((P ⊎ Q) ⊎ R)
either_assoc = (
  λ h. elim h [ inl p ↦ inl (inl p) | inr (inl q) ↦ inl (inr q) | inr (inr r) ↦ inr r ],
  λ h. elim h [ inl (inl p) ↦ inl p | inl (inr q) ↦ inr (inl q) | inr r ↦ inr (inr r) ],
)

-- The image's own entry, which is the first.
first_use :
    (image ref i j r : String) (refs : List String) (Rest : Type 0)
    → j ≡ i
    → (((i ≡ image) × Some (λ x. x ≡ ref) (refs ++ r ∷ [])) ⊎ Rest)
      ↔ ((((j ≡ image) × Some (λ x. x ≡ ref) refs) ⊎ Rest) ⊎ ((i ≡ image) × (r ≡ ref)))
first_use image ref i j r refs Rest same =
    let split = Some-append (λ x. x ≡ ref) refs (r ∷ []) in
    (
      λ h. elim h [
        | inr x ↦ inl (inr x)
        | inl (e, m) ↦ elim (split.0 m) [
          | inl a ↦ inl (inl (same ∙ e, a))
          | inr (inl k) ↦ inr (e, k)
          | inr (inr z) ↦ absurd z
        ]
      ],
      λ h. elim h [
        | inl (inl (e, a)) ↦ inl (sym same ∙ e, split.1 (inl a))
        | inl (inr x) ↦ inr x
        | inr (e, k) ↦ inl (e, split.1 (inr (inl k)))
      ],
    )

found_first :
    (i j : String) (refs : List String) (found : Dict String (List String))
    → (j == i) ≡ true
    → refs_of i ((j, refs) ∷ found) ≡ refs
unfolding refs_of lookup
found_first i j refs found h = rw (h, refs_of, lookup) refl

found_later :
    (i j : String) (refs : List String) (found : Dict String (List String))
    → (j == i) ≡ false
    → refs_of i ((j, refs) ∷ found) ≡ refs_of i found
unfolding refs_of lookup
found_later i j refs found h = rw (h, refs_of, lookup) refl

-- One more reference, under its image.
Listed-insert :
    (image ref i r : String) (value : List String) (found : Dict String (List String))
    → value ≡ refs_of i found ++ r ∷ []
    → Listed image ref (insert i value found) ↔ (Listed image ref found ⊎ ((i ≡ image) × (r ≡ ref)))
unfolding refs_of lookup insert
Listed-insert image ref i r value [] is = rw is (
  λ h. elim h [ inl (e, inl k) ↦ inr (e, k) | inl (e, inr k) ↦ absurd k | inr k ↦ absurd k ],
  λ h. elim h [ inl x ↦ absurd x | inr (e, k) ↦ inl (e, inl k) ],
)
Listed-insert image ref i r value ((j, refs) ∷ found) is = elim (Bool-cases (j == i)) [
  | inl same ↦
      let first : value ≡ refs ++ r ∷ [] =
        is ∙ ap (λ l. l ++ r ∷ []) (found_first i j refs found same) in
      rw (same, first)
        (first_use image ref i j r refs (Listed image ref found) ((eq_iff j i).0 same))
  | inr other ↦
      let later : value ≡ refs_of i found ++ r ∷ [] =
        is ∙ ap (λ l. l ++ r ∷ []) (found_later i j refs found other) in
      rw other (
        iff_trans (either_iff (λ h. h, λ h. h) (Listed-insert image ref i r value found later))
          either_assoc)
]

-- The set holds what it held and the uses.
pub Listed-image_set :
    (image ref : String) (found : Dict String (List String)) (uses : List (String × String))
    → Listed image ref (image_set found uses)
      ↔ (Listed image ref found ⊎ Some (λ u. (u.0 ≡ image) × (u.1 ≡ ref)) uses)
unfolding image_set
Listed-image_set image ref found [] = (λ h. inl h, λ h. elim h [ inl x ↦ x | inr y ↦ absurd y ])
Listed-image_set image ref found ((i, r) ∷ uses) =
    iff_trans (Listed-image_set image ref (insert i (refs_of i found ++ r ∷ []) found) uses) (
      iff_trans
        (either_iff (Listed-insert image ref i r (refs_of i found ++ r ∷ []) found refl)
          (λ h. h, λ h. h))
        (λ h. either_assoc.1 h, λ h. either_assoc.0 h))
