-- ===== src/Prelude/Maps.antt =====
-- Go's maps as association lists, one entry for each key. The order of the entries stands for the
-- order in which a `range` loop visits the map: Go leaves it open, and so do the theorems.
use mathlib.Core.Path.{◌≡◌, refl}
use mathlib.Core.Bool.{Bool, true, false, ◌||◌}
use mathlib.Core.List.{List, [], ◌∷◌}
use mathlib.Core.Option.{Option, none, some}
use native.Mathlib.Omega.{arith}
use yby_cli.Prelude.Tests.{if◌then◌else◌, Eq, ◌==◌}

abbrev pub Dict {ℓ κ} : Type ℓ → Type κ → Type (ℓ ⊔ κ)
Dict K V = List (K × V)

abbrev pub is_none {ℓ} : {A : Type ℓ} → Option A → Bool
is_none none = true
is_none (some a) = false

abbrev pub is_some {ℓ} : {A : Type ℓ} → Option A → Bool
is_some none = false
is_some (some a) = true

module _ {ℓ κ} {K : Type ℓ} {V : Type κ} ⦃e : Eq K⦄ where
  -- v, ok := m[k]
  unfoldable pub lookup : K → Dict K V → Option V
  lookup key [] = none
  lookup key ((other, value) ∷ dict) = if other == key then some value else lookup key dict

  -- m[k] = v: an old entry keeps its place, a new one stands last
  unfoldable pub insert : K → V → Dict K V → Dict K V
  insert key value [] = (key, value) ∷ []
  insert key value ((other, old) ∷ dict) =
      if other == key then (key, value) ∷ dict else (other, old) ∷ insert key value dict

  -- delete(m, k)
  unfoldable pub remove : K → Dict K V → Dict K V
  remove key [] = []
  remove key ((other, old) ∷ dict) =
      if other == key then remove key dict else (other, old) ∷ remove key dict

  -- _, ok := m[k]
  unfoldable pub has_key : K → Dict K V → Bool
  has_key key [] = false
  has_key key ((other, old) ∷ dict) = other == key || has_key key dict

  pub lookup-insert :
      (key other : K) (value : V) (dict : Dict K V)
      → lookup other (insert key value dict)
        ≡ (if key == other then some value else lookup other dict)
  unfolding lookup insert
  lookup-insert key other value [] = refl
  lookup-insert key other value ((third, old) ∷ dict) = ground (
    arith,
    e.equal_iff key other,
    e.equal_iff third key,
    e.equal_iff third other,
    lookup-insert key other value dict,
  )

  pub lookup-remove :
      (key other : K) (dict : Dict K V)
      → lookup other (remove key dict) ≡ (if key == other then none else lookup other dict)
  unfolding lookup remove
  lookup-remove key other [] = ground arith
  lookup-remove key other ((third, old) ∷ dict) = ground (
    arith,
    e.equal_iff key other,
    e.equal_iff third key,
    e.equal_iff third other,
    lookup-remove key other dict,
  )

  pub has_key-insert :
      (key other : K) (value : V) (dict : Dict K V)
      → has_key other (insert key value dict) ≡ (if key == other then true else has_key other dict)
  unfolding has_key insert
  has_key-insert key other value [] = ground arith
  has_key-insert key other value ((third, old) ∷ dict) = ground (
    arith,
    e.equal_iff key other,
    e.equal_iff third key,
    e.equal_iff third other,
    has_key-insert key other value dict,
  )

  pub has_key-lookup : (key : K) (dict : Dict K V) → has_key key dict ≡ is_some (lookup key dict)
  unfolding has_key lookup
  has_key-lookup key [] = refl
  has_key-lookup key ((other, old) ∷ dict) = ground (arith, has_key-lookup key dict)

  pub ruleset dict_laws = (lookup-insert, lookup-remove, has_key-insert)
