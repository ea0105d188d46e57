-- ===== src/Sentinel/Cluster/Iffs.antt =====
-- Equivalences between tests and what they ask.
use yby_cli.Prelude.{
  ap, eq_String, Bool-cases, eq_iff, ◌∙◌, sym, ◌∷◌, All, false≢true, refl, inr, ◌≢◌, inl, any,
  arith, ◌⊎◌, false, [], true, ◌≡◌, ◌==◌, not, ◌↔◌, List, ◌||◌, ◌&&◌, String, Bool,
}
use yby_cli.Prelude.Result.{Result, ok, err}
use yby_cli.Sentinel.Finding.{SecurityFinding}
use yby_cli.Sentinel.Pods.{when}

pub iff_trans {ℓ} : {P Q R : Type ℓ} → P ↔ Q → Q ↔ R → P ↔ R
iff_trans f g = (λ p. g.0 (f.0 p), λ r. f.1 (g.1 r))

pub both_iff {ℓ} : {P Q R S : Type ℓ} → P ↔ Q → R ↔ S → (P × R) ↔ (Q × S)
both_iff f g = (λ h. (f.0 h.0, g.0 h.1), λ h. (f.1 h.0, g.1 h.1))

pub either_iff {ℓ} : {P Q R S : Type ℓ} → P ↔ Q → R ↔ S → (P ⊎ R) ↔ (Q ⊎ S)
either_iff f g = (
  λ h. elim h [ inl p ↦ inl (f.0 p) | inr r ↦ inr (g.0 r) ],
  λ h. elim h [ inl p ↦ inl (f.1 p) | inr r ↦ inr (g.1 r) ],
)

pub or_false : (a b : Bool) → ((a || b) ≡ false) ↔ ((a ≡ false) × (b ≡ false))
or_false a b = (λ h. (ground (arith, h), ground (arith, h)), λ h. ground (arith, h.0, h.1))

pub and_false : (a b : Bool) → ((a && b) ≡ false) ↔ ((a ≡ false) ⊎ (b ≡ false))
and_false true b = (λ h. inr h, λ h. elim h [ inl e ↦ absurd (cc) | inr e ↦ e ])
and_false false b = (λ h. inl refl, λ h. refl)

pub and_true : (a b : Bool) → ((a && b) ≡ true) ↔ ((a ≡ true) × (b ≡ true))
and_true a b = (λ h. (ground (arith, h), ground (arith, h)), λ h. ground (arith, h.0, h.1))

pub not-false : (a : Bool) → (not a ≡ false) ↔ (a ≡ true)
not-false a = (λ h. ground (arith, h), λ h. ground (arith, h))

pub not_equal : (s t : String) → ((s == t) ≡ false) ↔ (s ≢ t)
not_equal s t = (
  λ h e. false≢true (sym h ∙ (eq_iff s t).1 e),
  λ h. elim (Bool-cases (s == t)) [ inl e ↦ absurd (h ((eq_iff s t).0 e)) | inr e ↦ e ],
)

pub when-empty : {A : Type 0} (b : Bool) (f : A) → (when b f ≡ []) ↔ (b ≡ false)
when-empty true f = (λ h. absurd (cc), λ h. absurd (cc))
when-empty false f = (λ h. refl, λ h. refl)

pub any-false :
    {A : Type 0} (P : A → Type 0) (p : A → Bool) (xs : List A)
    → ((x : A) → (p x ≡ false) ↔ P x)
    → (any p xs ≡ false) ↔ All P xs
any-false P p [] h = (λ e. tt, λ e. refl)
any-false P p (x ∷ xs) h =
    iff_trans (or_false (p x) (any p xs)) (both_iff (h x) (any-false P p xs h))

-- Some value of a list has the property.
abbrev pub Some : {A : Type 0} → (A → Type 0) → List A → Type 0
Some P [] = ⊥
Some P (x ∷ xs) = P x ⊎ Some P xs

pub or_true : (a b : Bool) → ((a || b) ≡ true) ↔ ((a ≡ true) ⊎ (b ≡ true))
or_true true b = (λ h. inl refl, λ h. refl)
or_true false b = (λ h. inr h, λ h. elim h [ inl e ↦ absurd (cc) | inr e ↦ e ])

pub any-true :
    {A : Type 0} (P : A → Type 0) (p : A → Bool) (xs : List A)
    → ((x : A) → (p x ≡ true) ↔ P x)
    → (any p xs ≡ true) ↔ Some P xs
any-true P p [] h = (λ e. absurd (cc), λ e. absurd e)
any-true P p (x ∷ xs) h =
    iff_trans (or_true (p x) (any p xs)) (either_iff (h x) (any-true P p xs h))

abbrev found_only : List SecurityFinding → Result String (List SecurityFinding)
found_only fs = ok fs

pub ok_iff : (fs : List SecurityFinding) → (found_only fs ≡ ok []) ↔ (fs ≡ [])
ok_iff fs = (
  λ h. ap (λ r. elim r as (λ x. List SecurityFinding) [ ok gs ↦ gs | err e ↦ [] ]) h,
  λ h. ap ok h,
)
