-- ===== src/Sentinel/Cluster/ImageLaws.antt =====
-- What the checks of the images report.
use yby_cli.Prelude.{
  sym, inr, false≢true, inl, flat_map-nil, refl, Bool-cases, ◌∙◌, All, ◌≢◌, ◌↔◌, ap, eq_String, ◌⊎◌,
  ◌==◌, false, true, [], ◌∷◌, List, ◌≡◌, String,
}
use yby_cli.Sentinel.Kube.{Container, Pod}
use yby_cli.Sentinel.Pods.{all_containers}
use yby_cli.Sentinel.Pods.Resources.{text_contains}
use yby_cli.Sentinel.Cluster.Images.{
  split, last_part, no_fixed_tag, is_latest_or_no_tag, latest_tag,
}
use yby_cli.Sentinel.Cluster.Tags.{
  split-without, split-EndsWith, Tagged, last_separator, bare_port, tag_without_slash, has_code,
}
use yby_cli.Sentinel.Cluster.Iffs.{iff_trans, not_equal, when-empty}

-- The image has a digest, or a last ':' with something other than `latest` after it.
abbrev Ended : String → Type 0
Ended image =
    (text_contains image "@sha256:" ≡ true)
    ⊎ ((tag : String) × Tagged 58 image tag × (tag ≢ "latest"))

-- The image has a digest or a tag other than `latest`: what stands after the last ':' is a tag where
-- it has no '/'. A tag may be empty.
abbrev pub Pinned : String → Type 0
Pinned image =
    (text_contains image "@sha256:" ≡ true)
    ⊎ ((tag : String) × Tagged 58 image tag × (has_code 47 tag ≡ false) × (tag ≢ "latest"))

Ended-Pinned : (image : String) → bare_port image ≡ false → Ended image ↔ Pinned image
Ended-Pinned image port = (
  λ e. elim e [
    | inl digest ↦ inl digest
    | inr (tag, tagged, other) ↦ inr (tag, tagged, tag_without_slash image tag port tagged, other)
  ],
  λ p. elim p [
    | inl digest ↦ inl digest
    | inr (tag, tagged, slash, other) ↦ inr (tag, tagged, other)
  ],
)

no_fixed_tag-last :
    (part next : String) (rest : List String)
    → no_fixed_tag (part ∷ next ∷ rest) ≡ (last_part next rest == "latest")
unfolding no_fixed_tag
no_fixed_tag-last part next rest = refl

no_fixed_tag-tag :
    (image tag : String) → Tagged 58 image tag → no_fixed_tag (split 58 image) ≡ (tag == "latest")
no_fixed_tag-tag image tag t =
    let (part, next, rest, parts, last) = split-EndsWith 58 t.0 t.1 tag t.3 t.4 in
    ap (λ s. no_fixed_tag (split 58 s)) t.2
    ∙ ap no_fixed_tag parts
    ∙ no_fixed_tag-last part next rest
    ∙ ap (λ x. x == "latest") last

has_fixed_tag :
    (image : String)
    → (no_fixed_tag (split 58 image) ≡ false)
      ↔ ((tag : String) × Tagged 58 image tag × (tag ≢ "latest"))
unfolding no_fixed_tag
has_fixed_tag image = (
  λ h. elim (last_separator 58 image) [
    | inl without ↦ absurd (false≢true (sym h ∙ ap no_fixed_tag (split-without 58 image without)))
    | inr (tag, tagged) ↦
        (tag, tagged, (not_equal tag "latest").0 (sym (no_fixed_tag-tag image tag tagged) ∙ h))
  ],
  λ h. no_fixed_tag-tag image h.0 h.1 ∙ (not_equal h.0 "latest").1 h.2,
)

is_latest_or_no_tag-false : (image : String) → (is_latest_or_no_tag image ≡ false) ↔ Ended image
unfolding is_latest_or_no_tag
is_latest_or_no_tag-false image = elim (Bool-cases (text_contains image "@sha256:")) [
  | inl e ↦ rw (e, is_latest_or_no_tag) (λ h. inl refl, λ h. refl)
  | inr e ↦
      rw (e, is_latest_or_no_tag)
        (
          λ h. inr ((has_fixed_tag image).0 h),
          λ h. elim h [ inl y ↦ absurd (false≢true y) | inr y ↦ (has_fixed_tag image).1 y ],
        )
]

-- The images of these containers do not end with the port of a registry and a path.
abbrev pub NoBarePorts : List Container → Type 0
NoBarePorts containers = All (λ (c : Container). bare_port c.image ≡ false) containers

each_Pinned :
    (containers : List Container)
    → NoBarePorts containers
    → All (λ (c : Container). is_latest_or_no_tag c.image ≡ false) containers
      ↔ All (λ (c : Container). Pinned c.image) containers
each_Pinned [] ports = (λ h. tt, λ h. tt)
each_Pinned (c ∷ containers) ports =
    let here = iff_trans (is_latest_or_no_tag-false c.image) (Ended-Pinned c.image ports.0) in
    let rest = each_Pinned containers ports.1 in
    (λ h. (here.0 h.0, rest.0 h.1), λ h. (here.1 h.0, rest.1 h.1))

-- The check of the tags is silent on a pod exactly when the image of each container, the init
-- containers included, has a digest, or a tag other than `latest`. The condition is that no image
-- has a registry with a port and no tag, as "registry:5000/app", which is taken for a tag.
pub latest_tag_silent :
    (namespace : String) (pod : Pod)
    → NoBarePorts (all_containers pod)
    → (latest_tag namespace pod ≡ []) ↔ All (λ c. Pinned c.image) (all_containers pod)
unfolding latest_tag
latest_tag_silent namespace pod ports =
    iff_trans
      (flat_map-nil (λ (c : Container). is_latest_or_no_tag c.image ≡ false) _ (λ c. when-empty _ _)
        (all_containers pod))
      (each_Pinned (all_containers pod) ports)
