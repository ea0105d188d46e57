-- ===== src/Sentinel/Cluster/Signatures.antt =====
-- Which containers the check of the signatures reports.
use yby_cli.Prelude.{
  false≢true, Bool-cases, arith, flat_map, ◌∙◌, true, ap, nat_eq, Bool, All, refl, sym, subst, inr,
  inl, false, ◌⊎◌, ◌∷◌, Dict, [], ◌≡◌, ◌↔◌, String, List, cat,
}
use yby_cli.Prelude.Result.{ok}
use yby_cli.Sentinel.Kube.{Container, Pod, Client}
use yby_cli.Sentinel.Finding.{SecurityFinding}
use yby_cli.Sentinel.Pods.{all_containers}
use yby_cli.Sentinel.Cluster.Images.{
  split_ref, unsigned_finding, image_uses, image_set, unsigned_round, image_signature,
}
use yby_cli.Sentinel.Cluster.Tags.{has_code}
use yby_cli.Sentinel.Cluster.Uses.{Some-flat_map, Some-map, Some-iff, Listed, Listed-image_set}
use yby_cli.Sentinel.Cluster.Iffs.{iff_trans, both_iff, either_iff, Some}
use Prim.Native.String as Str
use Prim.Native.Char.{Char, code}
use text.Mathlib.TextLemmas.{nil-append, cons-append, append-nil as text_append_nil}

-- The value stands in the list.
abbrev pub In : {A : Type 0} → A → List A → Type 0
In a xs = Some (λ x. x ≡ a) xs

Some-pick : {A : Type 0} (P : A → Type 0) (xs : List A) → Some P xs ↔ ((x : A) × In x xs × P x)
Some-pick P [] = (λ h. absurd h, λ h. absurd h.1)
Some-pick P (x ∷ xs) = (
  λ h. elim h [
    | inl p ↦ (x, inl refl, p)
    | inr q ↦ let (y, there, p) = (Some-pick P xs).0 q in (y, inr there, p)
  ],
  λ h. elim h.1 [
    | inl e ↦ inl (subst P (sym e) h.2)
    | inr there ↦ inr ((Some-pick P xs).1 (h.0, there, h.2))
  ],
)

-- Lists of the same values.
Some-same :
    {A : Type 0} (P : A → Type 0) (xs ys : List A)
    → ((a : A) → In a xs ↔ In a ys)
    → Some P xs ↔ Some P ys
Some-same P xs ys h = iff_trans (Some-pick P xs) (
    iff_trans (λ x. (x.0, (h x.0).0 x.1, x.2), λ x. (x.0, (h x.0).1 x.1, x.2))
      (λ x. (Some-pick P ys).1 x, λ x. (Some-pick P ys).0 x))

-- The entries, with each of their references.
Some-Listed :
    (P : String → String → Type 0) (found : Dict String (List String))
    → Some (λ e. Some (λ r. P e.0 r) e.1) found
      ↔ ((image ref : String) × Listed image ref found × P image ref)
Some-Listed P [] = (λ h. absurd h, λ h. absurd h.2)
Some-Listed P ((i, refs) ∷ found) = (
  λ h. elim h [
    | inl s ↦ let (r, there, p) = (Some-pick (λ r. P i r) refs).0 s in (i, r, inl (refl, there), p)
    | inr s ↦ let (image, ref, there, p) = (Some-Listed P found).0 s in (image, ref, inr there, p)
  ],
  λ h. elim h.2 [
    | inl (e, there) ↦
        inl ((Some-pick (λ r. P i r) refs).1 (h.1, there, subst (λ x. P x h.1) (sym e) h.3))
    | inr there ↦ inr ((Some-Listed P found).1 (h.0, h.1, there, h.3))
  ],
)

uses_pick :
    (P : String → String → Type 0) (uses : List (String × String))
    → Some (λ u. P u.0 u.1) uses
      ↔ ((image ref : String) × Some (λ u. (u.0 ≡ image) × (u.1 ≡ ref)) uses × P image ref)
uses_pick P [] = (λ h. absurd h, λ h. absurd h.2)
uses_pick P ((i, r) ∷ uses) = (
  λ h. elim h [
    | inl p ↦ (i, r, inl (refl, refl), p)
    | inr s ↦ let (image, ref, there, p) = (uses_pick P uses).0 s in (image, ref, inr there, p)
  ],
  λ h. elim h.2 [
    | inl (e, k) ↦ inl (subst (λ x. P x r) (sym e) (subst (λ y. P h.0 y) (sym k) h.3))
    | inr there ↦ inr ((uses_pick P uses).1 (h.0, h.1, there, h.3))
  ],
)

-- What stands in the set is what the loops reached.
set_of_uses :
    (P : String → String → Type 0) (uses : List (String × String))
    → Some (λ e. Some (λ r. P e.0 r) e.1) (image_set [] uses) ↔ Some (λ u. P u.0 u.1) uses
set_of_uses P uses = iff_trans (Some-Listed P (image_set [] uses)) (
    iff_trans
      (
        λ h. (h.0, h.1, no_other ((Listed-image_set h.0 h.1 [] uses).0 h.2), h.3),
        λ h. (h.0, h.1, (Listed-image_set h.0 h.1 [] uses).1 (inr h.2), h.3),
      )
      (λ x. (uses_pick P uses).1 x, λ x. (uses_pick P uses).0 x))
  where
    no_other : {Q : Type 0} → ⊥ ⊎ Q → Q
    no_other (inl x) = absurd x
    no_other (inr q) = q

split_ref-longer :
    (c : Char) (s a b : String)
    → nat_eq (code c) 47 ≡ false
    → split_ref s ≡ (a, b)
    → split_ref (Str.◌∷◌ c s) ≡ (Str.◌∷◌ c a, b)
unfolding split_ref
split_ref-longer c s a b other h = rw (other, h) refl

-- The pod's name, which has no '/', and the container's come back.
split_ref-cat :
    (pod container : String)
    → has_code 47 pod ≡ false
    → split_ref (cat (pod ∷ "/" ∷ container ∷ [])) ≡ (pod, container)
unfolding split_ref cat has_code
split_ref-cat Str.[] container h =
    ap split_ref (nil-append (Str.◌++◌ "/" (Str.◌++◌ container "")))
    ∙ ap split_ref (cons-append _ "" (Str.◌++◌ container ""))
    ∙ ap (λ s. ("", s)) (nil-append (Str.◌++◌ container "") ∙ text_append_nil container)
split_ref-cat (Str.◌∷◌ c pod) container h =
    ap split_ref (cons-append c pod (Str.◌++◌ "/" (Str.◌++◌ container "")))
    ∙ split_ref-longer c (Str.◌++◌ pod (Str.◌++◌ "/" (Str.◌++◌ container ""))) pod container
        (ground (arith, h)) (split_ref-cat pod container (ground (arith, h)))

-- What the check reports of a container whose image has no verified signature.
abbrev pub unsigned_container : String → Pod → Container → SecurityFinding
unsigned_container namespace pod c =
    record (unsigned_finding namespace c.image (cat (pod.name ∷ "/" ∷ c.name ∷ []))) {
      pod = pod.name;
      container = c.name;
    }

unsigned_finding-cat :
    (namespace : String) (pod : Pod) (c : Container)
    → has_code 47 pod.name ≡ false
    → unsigned_finding namespace c.image (cat (pod.name ∷ "/" ∷ c.name ∷ []))
      ≡ unsigned_container namespace pod c
unfolding unsigned_finding
unsigned_finding-cat namespace pod c h =
    ap
      (λ (parts : String × String).
        record (unsigned_finding namespace c.image (cat (pod.name ∷ "/" ∷ c.name ∷ []))) {
          pod = parts.0;
          container = parts.1;
        })
      (split_ref-cat pod.name c.name h)

Some-All :
    {A : Type 0} (H P Q : A → Type 0) (xs : List A)
    → All H xs
    → ((x : A) → H x → P x ↔ Q x)
    → Some P xs ↔ Some Q xs
Some-All H P Q [] hs h = (λ x. x, λ x. x)
Some-All H P Q (x ∷ xs) hs h = either_iff (h x hs.0) (Some-All H P Q xs hs.1 h)

nowhere : {A : Type 0} (P : A → Type 0) (xs : List A) → ((x : A) → P x → ⊥) → Some P xs → ⊥
nowhere P [] never h = h
nowhere P (x ∷ xs) never (inl p) = never x p
nowhere P (x ∷ xs) never (inr q) = nowhere P xs never q

module _ (range : Dict String (List String) → Dict String (List String)) (verify : String → Bool)
    (client : Client) (namespace : String) (pods : List Pod) where
  unsigned_round-In :
      (f : SecurityFinding) (e : String × List String)
      → In f (unsigned_round range true verify namespace e)
        ↔ Some (λ r. (verify e.0 ≡ false) × (unsigned_finding namespace e.0 r ≡ f)) e.1
  unfolding unsigned_round
  unsigned_round-In f (image, refs) = elim (Bool-cases (verify image)) [
    | inl h ↦ rw h (λ x. absurd x, λ x. absurd (nowhere _ refs (λ r y. false≢true (sym y.0)) x))
    | inr h ↦ rw h (
        iff_trans (Some-map (λ x. x ≡ f) (unsigned_finding namespace image) refs)
          (Some-iff _ _ refs (λ r. (λ y. (refl, y), λ y. y.1))))
  ]

  -- Where the server answers, cosign is there, and no name of a pod has a '/', the check of the
  -- signatures reports exactly the containers, the init containers included, whose image `cosign
  -- verify` refuses: a finding is in its result when it is the one of such a container, with the
  -- names of its pod and its own. The images are visited in any order; the hypothesis says that the
  -- loop over the map visits its entries and no others.
  pub image_signature_exact :
      ((found : Dict String (List String)) (e : String × List String)
        → In e (range found) ↔ In e found)
      → client.list_pods namespace ≡ ok pods
      → All (λ pod. has_code 47 pod.name ≡ false) pods
      → (f : SecurityFinding)
      → (findings : List SecurityFinding) × (image_signature range true verify client namespace
          ≡ ok findings)
        × (In f findings
            ↔ Some
                (λ pod.
                  Some
                    (λ c. (verify c.image ≡ false) × (unsigned_container namespace pod c ≡ f))
                    (all_containers pod))
                pods)
  unfolding image_signature image_uses
  image_signature_exact entries of_pods plain f =
      let found = image_set [] (image_uses pods) in
      let Reported : String → String → Type 0 =
        λ image ref. (verify image ≡ false) × (unsigned_finding namespace image ref ≡ f) in
      (
        flat_map (unsigned_round range true verify namespace) (range found),
        rw (of_pods) refl,
        iff_trans
            (Some-flat_map (λ x. x ≡ f) (unsigned_round range true verify namespace) (range found))
            (iff_trans (Some-iff _ _ (range found) (unsigned_round-In f)) (
              iff_trans (Some-same _ (range found) found (entries found)) (
                iff_trans (set_of_uses Reported (image_uses pods)) (
                  iff_trans (Some-flat_map (λ u. Reported u.0 u.1) _ pods) (
                    Some-All (λ pod. has_code 47 pod.name ≡ false) _ _ pods plain
                      (λ pod h.
                        iff_trans (Some-map (λ u. Reported u.0 u.1) _ (all_containers pod)) (
                          Some-iff _ _ (all_containers pod) (λ c.
                            both_iff (λ y. y, λ y. y)
                              (
                                λ y. sym (unsigned_finding-cat namespace pod c h) ∙ y,
                                λ y. unsigned_finding-cat namespace pod c h ∙ y,
                              ))))))))),
      )
