-- ===== src/Sentinel/Cluster/Tags.antt =====
-- The parts that a separator makes of a text.
use yby_cli.Prelude.{
  ◌&&◌, not, ◌∙◌, ap, arith, sym, refl, subst, [], ◌||◌, inr, ◌⊎◌, ◌∷◌, true, inl, false,
  Bool-cases, nat_eq, ◌≡◌, List, Bool, ℕ, String,
}
use yby_cli.Sentinel.Cluster.Images.{start_part, split, last_part}
use Prim.Native.String as Str
use Prim.Native.Char.{Char, code}
use text.Mathlib.TextLemmas.{nil-append, cons-append}

-- The text has the character with this code.
unfoldable pub has_code : ℕ → String → Bool
has_code sep Str.[] = false
has_code sep (Str.◌∷◌ c s) = nat_eq (code c) sep || has_code sep s

-- The parts are more than one, and the last is the tag.
abbrev pub EndsWith : String → List String → Type 0
EndsWith tag parts =
    (part next : String) × (rest : List String) × (parts ≡ part ∷ next ∷ rest)
    × (last_part next rest ≡ tag)

pub split-without : (sep : ℕ) (s : String) → has_code sep s ≡ false → split sep s ≡ s ∷ []
unfolding split has_code start_part
split-without sep Str.[] h = refl
split-without sep (Str.◌∷◌ c s) h =
    let ih = split-without sep s (ground (arith, h)) in
    let other : nat_eq (code c) sep ≡ false = ground (arith, h) in rw (other, ih, start_part) refl

-- One more character in front.
split-longer :
    (sep : ℕ) (c : Char) (s : String) (tag : String)
    → EndsWith tag (split sep s)
    → EndsWith tag (split sep (Str.◌∷◌ c s))
unfolding split start_part last_part
split-longer sep c s tag (part, next, rest, e, l) = elim (Bool-cases (nat_eq (code c) sep)) [
  | inl h ↦ ("", part, next ∷ rest, rw (h, e) refl, l)
  | inr h ↦ (Str.◌∷◌ c part, next, rest, rw (h, e, start_part) refl, l)
]

pub split-EndsWith :
    (sep : ℕ) (before : String) (c : Char) (tag : String)
    → nat_eq (code c) sep ≡ true
    → has_code sep tag ≡ false
    → EndsWith tag (split sep (Str.◌++◌ before (Str.◌∷◌ c tag)))
unfolding split last_part
split-EndsWith sep Str.[] c tag here without =
    subst (λ s. EndsWith tag (split sep s)) (sym (nil-append (Str.◌∷◌ c tag)))
      ("", tag, [], rw (here, split-without sep tag without) refl, refl)
split-EndsWith sep (Str.◌∷◌ b before) c tag here without =
    subst (λ s. EndsWith tag (split sep s)) (sym (cons-append b before (Str.◌∷◌ c tag)))
      (split-longer sep b (Str.◌++◌ before (Str.◌∷◌ c tag)) tag
        (split-EndsWith sep before c tag here without))

-- The text is something, a separator, and the tag.
abbrev pub Tagged : ℕ → String → String → Type 0
Tagged sep s tag =
    (before : String) × (c : Char) × (s ≡ Str.◌++◌ before (Str.◌∷◌ c tag))
    × (nat_eq (code c) sep ≡ true)
    × (has_code sep tag ≡ false)

-- A text without the separator, or with a last one.
pub last_separator :
    (sep : ℕ) (s : String) → (has_code sep s ≡ false) ⊎ ((tag : String) × Tagged sep s tag)
unfolding has_code
last_separator sep Str.[] = inl refl
last_separator sep (Str.◌∷◌ c s) = elim (last_separator sep s) [
  | inr (tag, tagged) ↦ inr (
    tag,
    (
      Str.◌∷◌ c tagged.0,
      tagged.1,
      ap (λ x. Str.◌∷◌ c x) tagged.2 ∙ sym (cons-append c tagged.0 (Str.◌∷◌ tagged.1 tag)),
      tagged.3,
      tagged.4,
    ),
  )
  | inl without ↦ elim (Bool-cases (nat_eq (code c) sep)) [
    | inl here ↦ inr (s, ("", c, sym (nil-append (Str.◌∷◌ c s)), here, without))
    | inr other ↦ inl (rw (other, without) refl)
  ]
]

-- The last ':' of the text stands before a '/'.
unfoldable pub bare_port : String → Bool
unfolding has_code
bare_port Str.[] = false
bare_port (Str.◌∷◌ c s) =
    bare_port s || (nat_eq (code c) 58 && (not (has_code 58 s) && has_code 47 s))

split_here :
    (before : String) (c : Char) (tag : String)
    → nat_eq (code c) 58 ≡ true
    → has_code 58 tag ≡ false
    → bare_port (Str.◌++◌ before (Str.◌∷◌ c tag)) ≡ false
    → has_code 47 tag ≡ false
unfolding bare_port
split_here Str.[] c tag here without h =
    let at : bare_port (Str.◌∷◌ c tag) ≡ false =
      subst (λ s. bare_port s ≡ false) (nil-append (Str.◌∷◌ c tag)) h in
    ground (arith, at, here, without)
split_here (Str.◌∷◌ b before) c tag here without h =
    let at : bare_port (Str.◌∷◌ b (Str.◌++◌ before (Str.◌∷◌ c tag))) ≡ false =
      subst (λ s. bare_port s ≡ false) (cons-append b before (Str.◌∷◌ c tag)) h in
    split_here before c tag here without (ground (arith, at))

-- What stands after the last ':' has no '/', where that is not the port of a registry.
pub tag_without_slash :
    (image tag : String) → bare_port image ≡ false → Tagged 58 image tag → has_code 47 tag ≡ false
tag_without_slash image tag h (before, c, e, here, without) =
    split_here before c tag here without (subst (λ s. bare_port s ≡ false) e h)
